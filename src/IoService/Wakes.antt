-- ===== src/IoService/Wakes.antt =====
-- That the event loop wakes for a remote operation and runs it.
use xynet.Prelude.{ℕ, ◌≡◌, ◌≢◌, inl, inr, true, false, refl, ap, ◌∙◌, List, [], ◌∷◌, ◌++◌}
use mathlib.Core.List.{append-nil}
use xynet.IoService.{EventFd, eventfd_poll, Loop, waiting}
use xynet.IoService.Steps.{Reachable, complete}
use xynet.IoService.Account.{completed, completed-append}
use xynet.IoService.Wakeup.{has_poll, no_lost_wakeup}
use xynet.IoService.Round.{queued, Emptied, round_steps, steps, steps-Emptied}

module _ {C : Type 0} (fd : EventFd C) where
  -- Where the loop waits over a remote operation, and no thread is still about to write: the state
  -- in which the completion of the poll is in the queue is the state itself, or what the kernel
  -- makes of it.
  pub data Woken : Loop C → Loop C → Type 0 where
    already : (l : Loop C) → has_poll l.cq ≡ true → Woken l l
    fires :
        (l : Loop C)
        → l.poll ≡ true
        → fd.readable l.eventfd ≡ true
        → Woken l (complete eventfd_poll (record l { poll = false }))

  -- A remote operation runs: in every reachable state in which the loop waits over a remote queue
  -- that is not empty and no thread is still about to write, the wait ends with a completion of
  -- the poll, which is there or comes next; and a round that follows it, in which no other thread
  -- and no other completion comes in and no callback schedules anything, runs all that the loop
  -- holds, the whole remote queue at the end of it and in order.
  pub wakes_and_runs :
      {handed : List ℕ} {l : Loop C}
      → Reachable fd handed l
      → l.phase ≡ waiting
      → l.service.m_remote_queue ≢ []
      → l.writers ≡ 0
      → (l1 : Loop C) × Woken l l1
        × (queued l1 ≡ queued l)
        × Emptied l1 (steps fd (round_steps l1) l1)
  wakes_and_runs {l} r waits waiting_ops written =
      elim (no_lost_wakeup fd r waits waiting_ops written) [
        | inl there ↦ (l, already l there, refl, steps-Emptied fd l waits)
        | inr (polled, ready) ↦
            let l1 = complete eventfd_poll (record l { poll = false }) in
            (
              l1,
              fires l polled ready,
              ap
                  (λ ops.
                    (l.service.m_local_queue ++ (l.cq_operation_bases ++ ops))
                    ++ l.service.m_remote_queue)
                  (completed-append l.cq (eventfd_poll ∷ []) ∙ append-nil (completed l.cq)),
              steps-Emptied fd l1 waits,
            )
      ]
