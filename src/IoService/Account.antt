-- ===== src/IoService/Account.antt =====
-- The places of the event loop where an operation can be, counted.
use xynet.Prelude.{ℕ, ◌+◌, Bool, true, false, ◌≡◌, refl, ap, arith, List, [], ◌∷◌, ◌++◌}
use xynet.Prelude.{count, count-append}
use xynet.IoService.{EventFd, Completion, eventfd_poll, link_timeout, io, Loop, Phase}
use xynet.IoService.{
  polling, waiting, collecting, taking, starting, executing, advance, advance_from, collect,
  execute,
}
use xynet.IoService.Steps.{
  Step, own_step, callback, remote_push, remote_write, stop_write, poll_fires,
}
use xynet.IoService.Steps.{io_completes, timeout_ends, Reachable, constructed, stepped}

-- The operations that completions are for.
abbrev pub completed : List Completion → List ℕ
completed [] = []
completed (eventfd_poll ∷ cs) = completed cs
completed (link_timeout ∷ cs) = completed cs
completed (io op cqe ∷ cs) = op ∷ completed cs

pub completed-append :
    (cs ds : List Completion) → completed (cs ++ ds) ≡ completed cs ++ completed ds
completed-append [] ds = refl
completed-append (eventfd_poll ∷ cs) ds = completed-append cs ds
completed-append (link_timeout ∷ cs) ds = completed-append cs ds
completed-append (io op cqe ∷ cs) ds = ap (λ l. op ∷ l) (completed-append cs ds)

abbrev runs : Phase → Bool
runs executing = true
runs _ = false

module _ {C : Type 0} where
  -- All the places where an operation can be.
  abbrev pub held : ℕ → Loop C → ℕ
  held op l =
      count op l.service.m_remote_queue
      + count op (completed l.cq)
      + count op l.cq_operation_bases
      + count op l.service.m_local_queue
      + count op l.pending_list

  -- The pending list is empty outside the loop that runs it.
  abbrev Counted : ℕ → ℕ → Loop C → Type 0
  Counted op n l =
      (held op l + count op l.executed ≡ n) × (runs l.phase ≡ false → l.pending_list ≡ [])

module _ {C : Type 0} (fd : EventFd C) (op : ℕ) where
  collect-Counted :
      (cs : List Completion) (n : ℕ) (l : Loop C)
      → l.cq ≡ cs
      → l.phase ≡ collecting
      → Counted op n l
      → Counted op n (collect fd cs l)
  collect-Counted [] n l q e v = (
    ground (arith, v.0, count-append op l.service.m_local_queue l.cq_operation_bases),
    ground (arith, v.1),
  )
  collect-Counted (eventfd_poll ∷ cs) n l q e v = (ground (arith, v.0, ap completed q), v.1)
  collect-Counted (link_timeout ∷ cs) n l q e v = (ground (arith, v.0, ap completed q), v.1)
  collect-Counted (io o cqe ∷ cs) n l q e v =
      (ground (arith, v.0, ap completed q, count-append op l.cq_operation_bases (o ∷ [])), v.1)

  execute-Counted :
      (scheduled ops : List ℕ) (n : ℕ) (l : Loop C)
      → l.pending_list ≡ ops
      → l.phase ≡ executing
      → (ops ≡ [] → scheduled ≡ [])
      → Counted op n l
      → Counted op (n + count op scheduled) (execute fd scheduled ops l)
  execute-Counted scheduled [] n l q e quiet v =
      (ground (arith, v.0, ap (count op) (quiet refl)), λ _. q)
  execute-Counted scheduled (o ∷ ops) n l q e quiet v = (
    ground (
      arith,
      v.0,
      ap (count op) q,
      count-append op l.executed (o ∷ []),
      count-append op l.service.m_local_queue scheduled,
    ),
    λ h. absurd (cc (h, e)),
  )

  advance_from-Counted :
      (p : Phase) (n : ℕ) (l : Loop C)
      → l.phase ≡ p
      → Counted op n l
      → Counted op n (advance_from fd p [] l)
  unfolding advance_from
  advance_from-Counted polling n l e v = (ground (arith, v.0), ground (arith, v.1))
  advance_from-Counted waiting n l e v = (v.0, ground (arith, v.1))
  advance_from-Counted collecting n l e v = collect-Counted l.cq n l refl e v
  advance_from-Counted taking n l e v = (
    ground (arith, v.0, count-append op l.service.m_local_queue l.service.m_remote_queue),
    ground (arith, v.1),
  )
  advance_from-Counted starting n l e v =
      (ground (arith, v.0, ap (count op) (v.1 (ap runs e))), λ h. absurd (cc h))
  advance_from-Counted executing n l e v =
      let (sum, quiet) = execute-Counted [] l.pending_list n l refl e (λ _. refl) v in
      (omega (arith, sum), quiet)

  callback-Counted :
      (p : Phase) (scheduled : List ℕ) (o : ℕ) (ops : List ℕ) (n : ℕ) (l : Loop C)
      → l.pending_list ≡ o ∷ ops
      → l.phase ≡ p
      → p ≡ executing
      → Counted op n l
      → Counted op (n + count op scheduled) (advance_from fd p scheduled l)
  unfolding advance_from
  callback-Counted executing scheduled o ops n l q e k v =
      execute-Counted scheduled l.pending_list n l refl e (λ none. absurd (cc (q, none))) v
  callback-Counted _ scheduled o ops n l q e k v = absurd (cc k)

  Step-Counted :
      {more : List ℕ} {l l' : Loop C} (n : ℕ)
      → Step fd more l l'
      → Counted op n l
      → Counted op (n + count op more) l'
  unfolding advance
  Step-Counted n (own_step l) v =
      let (sum, quiet) = advance_from-Counted l.phase n l refl v in (omega (arith, sum), quiet)
  Step-Counted n (callback scheduled l o ops q e) v =
      callback-Counted l.phase scheduled o ops n l q refl e v
  Step-Counted n (remote_push o l) v =
      (ground (arith, v.0, count-append op l.service.m_remote_queue (o ∷ [])), v.1)
  Step-Counted n (remote_write l others e) v = (omega (arith, v.0), v.1)
  Step-Counted n (stop_write l) v = (omega (arith, v.0), v.1)
  Step-Counted n (poll_fires l p r) v = (
    ground (
      arith,
      v.0,
      completed-append l.cq (eventfd_poll ∷ []),
      count-append op (completed l.cq) [],
    ),
    v.1,
  )
  Step-Counted n (io_completes o cqe l) v = (
    ground (
      arith,
      v.0,
      completed-append l.cq (io o cqe ∷ []),
      count-append op (completed l.cq) (o ∷ []),
    ),
    v.1,
  )
  Step-Counted n (timeout_ends l) v = (
    ground (
      arith,
      v.0,
      completed-append l.cq (link_timeout ∷ []),
      count-append op (completed l.cq) [],
    ),
    v.1,
  )

  Reachable-Counted :
      {handed : List ℕ} {l : Loop C} → Reachable fd handed l → Counted op (count op handed) l
  Reachable-Counted (constructed eventfd operations) = (refl, λ _. refl)
  Reachable-Counted (stepped {handed} {more} r s) =
      let (sum, quiet) = Step-Counted (count op handed) s (Reachable-Counted r) in
      (omega (arith, sum, count-append op handed more), quiet)

-- An operation has run as often as it was handed to the service, by another thread, by a
-- completion of the kernel or by a callback, less its places in the queues.
pub held-executed :
    {C : Type 0} (fd : EventFd C) (op : ℕ) {handed : List ℕ} {l : Loop C}
    → Reachable fd handed l
    → held op l + count op l.executed ≡ count op handed
held-executed fd op r = (Reachable-Counted fd op r).0
