-- ===== src/IoService/Wakeup.antt =====
-- The eventfd of the event loop: what ends the wait in `io_uring_submit_and_wait`.
use xynet.Prelude.{ℕ, ◌<◌, Bool, true, false, ◌≡◌, ◌≢◌, refl, ap, arith, List, [], ◌∷◌, ◌++◌}
use xynet.Prelude.{◌⊎◌, inl, inr, ◌||◌, Bool-cases}
use xynet.IoService.{EventFd, Completion, eventfd_poll, link_timeout, io, Loop, Phase}
use xynet.IoService.{
  polling, waiting, collecting, taking, starting, executing, advance, advance_from, is_empty,
  collect, execute,
}
use xynet.IoService.Steps.{
  Step, own_step, callback, remote_push, remote_write, stop_write, poll_fires,
}
use xynet.IoService.Steps.{
  io_completes, timeout_ends, Reachable, constructed, stepped, push, complete,
}

abbrev is_poll : Completion → Bool
is_poll eventfd_poll = true
is_poll link_timeout = false
is_poll (io op cqe) = false

-- A completion of the poll stands in the queue.
abbrev pub has_poll : List Completion → Bool
has_poll [] = false
has_poll (c ∷ cs) = is_poll c || has_poll cs

-- The phases between the read of the eventfd and the swap of the remote queue.
abbrev takes : Phase → Bool
takes polling = false
takes waiting = false
takes collecting = true
takes taking = true
takes starting = false
takes executing = false

abbrev is_waiting : Phase → Bool
is_waiting waiting = true
is_waiting _ = false

module _ {C : Type 0} (fd : EventFd C) where
  -- A remote operation is about to be taken, or the eventfd can be read, or will be written.
  abbrev Covered : Loop C → Type 0
  Covered l =
      (is_empty l.service.m_remote_queue ≡ true)
      ⊎ (fd.readable l.eventfd ≡ true)
      ⊎ (0 < l.writers)
      ⊎ (takes l.phase ≡ true)

  -- A poll that is marked as submitted is with the kernel, or its completion is in the queue.
  abbrev Armed : Loop C → Type 0
  Armed l = l.service.poll_sqe_submitted ≡ true → (l.poll ≡ true) ⊎ (has_poll l.cq ≡ true)

  abbrev WaitsArmed : Loop C → Type 0
  WaitsArmed l = is_waiting l.phase ≡ true → l.service.poll_sqe_submitted ≡ true

  pub record IsAwake (l : Loop C) : Type 0 where
    pub covered : Covered l
    pub armed : Armed l
    pub waits_armed : WaitsArmed l

  pub has_poll-append :
      (cs : List Completion) (c : Completion) → has_poll (cs ++ (c ∷ [])) ≡ has_poll cs || is_poll c
  has_poll-append [] c = ground arith
  has_poll-append (d ∷ cs) c = ground (arith, has_poll-append cs c)

  collect-IsAwake :
      (cs : List Completion) (l : Loop C)
      → l.cq ≡ cs
      → l.phase ≡ collecting
      → IsAwake l
      → IsAwake (collect fd cs l)
  collect-IsAwake [] l q e v = record {
    covered = inr (inr (inr refl));
    armed = v.armed;
    waits_armed = λ h. absurd (cc h);
  }
  collect-IsAwake (eventfd_poll ∷ cs) l q e v = record {
    covered = inr (inr (inr (ground (arith, e))));
    armed = λ h. absurd (cc h);
    waits_armed = ground (arith, e);
  }
  collect-IsAwake (link_timeout ∷ cs) l q e v = record {
    covered = inr (inr (inr (ground (arith, e))));
    armed = ground (arith, v.armed, ap has_poll q);
    waits_armed = v.waits_armed;
  }
  collect-IsAwake (io op cqe ∷ cs) l q e v = record {
    covered = inr (inr (inr (ground (arith, e))));
    armed = ground (arith, v.armed, ap has_poll q);
    waits_armed = v.waits_armed;
  }

  execute-IsAwake :
      (scheduled ops : List ℕ) (l : Loop C)
      → l.phase ≡ executing
      → IsAwake l
      → IsAwake (execute fd scheduled ops l)
  execute-IsAwake scheduled [] l e v = record {
    covered = ground (arith, v.covered);
    armed = v.armed;
    waits_armed = λ h. absurd (cc h);
  }
  execute-IsAwake scheduled (op ∷ ops) l e v = record {
    covered = v.covered;
    armed = v.armed;
    waits_armed = v.waits_armed;
  }

  advance_from-IsAwake :
      (p : Phase) (scheduled : List ℕ) (l : Loop C)
      → l.phase ≡ p
      → IsAwake l
      → IsAwake (advance_from fd p scheduled l)
  unfolding advance_from
  advance_from-IsAwake polling scheduled l e v = record {
    covered = ground (arith, v.covered);
    armed = ground (arith, v.armed);
    waits_armed = ground arith;
  }
  advance_from-IsAwake waiting scheduled l e v = record {
    covered = inr (inr (inr refl));
    armed = v.armed;
    waits_armed = λ h. absurd (cc h);
  }
  advance_from-IsAwake collecting scheduled l e v = collect-IsAwake l.cq l refl e v
  advance_from-IsAwake taking scheduled l e v = record {
    covered = inl refl;
    armed = v.armed;
    waits_armed = λ h. absurd (cc h);
  }
  advance_from-IsAwake starting scheduled l e v = record {
    covered = ground (arith, v.covered);
    armed = v.armed;
    waits_armed = λ h. absurd (cc h);
  }
  advance_from-IsAwake executing scheduled l e v = execute-IsAwake scheduled l.pending_list l e v

  push-Covered : (op : ℕ) (l : Loop C) → IsAwake l → Covered (push op l)
  push-Covered op l v = elim (Bool-cases (is_empty l.service.m_remote_queue)) [
    | inl first ↦ rw first (inr (inr (inl (omega arith))))
    | inr later ↦ rw later (ground (arith, v.covered))
  ]

  push-IsAwake : (op : ℕ) (l : Loop C) → IsAwake l → IsAwake (push op l)
  push-IsAwake op l v = record {
    covered = push-Covered op l v;
    armed = v.armed;
    waits_armed = v.waits_armed;
  }

  complete-IsAwake :
      (c : Completion) (l : Loop C) → is_poll c ≡ false → IsAwake l → IsAwake (complete c l)
  complete-IsAwake c l h v = record {
    covered = v.covered;
    armed = ground (arith, v.armed, has_poll-append l.cq c);
    waits_armed = v.waits_armed;
  }

  poll_fires-IsAwake :
      (l : Loop C) → IsAwake l → IsAwake (complete eventfd_poll (record l { poll = false }))
  poll_fires-IsAwake l v = record {
    covered = v.covered;
    armed = λ _. inr (ground (arith, has_poll-append l.cq eventfd_poll));
    waits_armed = v.waits_armed;
  }

  Step-IsAwake : {handed : List ℕ} {l l' : Loop C} → Step fd handed l l' → IsAwake l → IsAwake l'
  unfolding advance
  Step-IsAwake (own_step l) v = advance_from-IsAwake l.phase [] l refl v
  Step-IsAwake (callback scheduled l op ops e p) v = advance_from-IsAwake l.phase scheduled l refl v
  Step-IsAwake (remote_push op l) v = push-IsAwake op l v
  Step-IsAwake (remote_write l others e) v = record {
    covered = inr (inl (fd.readable-write l.eventfd));
    armed = v.armed;
    waits_armed = v.waits_armed;
  }
  Step-IsAwake (stop_write l) v = record {
    covered = inr (inl (fd.readable-write l.eventfd));
    armed = v.armed;
    waits_armed = v.waits_armed;
  }
  Step-IsAwake (poll_fires l p r) v = poll_fires-IsAwake l v
  Step-IsAwake (io_completes op cqe l) v = complete-IsAwake (io op cqe) l refl v
  Step-IsAwake (timeout_ends l) v = complete-IsAwake link_timeout l refl v

  Reachable-IsAwake : {handed : List ℕ} {l : Loop C} → Reachable fd handed l → IsAwake l
  Reachable-IsAwake (constructed eventfd operations) = record {
    covered = inl refl;
    armed = λ h. absurd (cc h);
    waits_armed = λ h. absurd (cc h);
  }
  Reachable-IsAwake (stepped r s) = Step-IsAwake s (Reachable-IsAwake r)

  empty_queue : (ops : List ℕ) → is_empty ops ≡ true → ops ≡ []
  empty_queue [] h = refl
  empty_queue (op ∷ ops) h = absurd (cc h)

  -- Wherever the loop waits while a remote operation is queued, and no thread is still about to
  -- write to the eventfd, what ends the wait is there: the completion of the poll is in the queue,
  -- or the poll is with the kernel and the eventfd can be read.
  pub no_lost_wakeup :
      {handed : List ℕ} {l : Loop C}
      → Reachable fd handed l
      → l.phase ≡ waiting
      → l.service.m_remote_queue ≢ []
      → l.writers ≡ 0
      → (has_poll l.cq ≡ true) ⊎ ((l.poll ≡ true) × (fd.readable l.eventfd ≡ true))
  no_lost_wakeup {l = l} r waits queued written =
      let v = Reachable-IsAwake r in
      ground (arith, v.covered, v.armed, v.waits_armed, empty_queue l.service.m_remote_queue)
