-- ===== src/IoService/Tests.antt =====
-- Runs of the event loop, and its theorems at concrete inputs.
use xynet.Prelude.{ℕ, suc, ◌+◌, ltb, true, ◌≡◌, ◌⊎◌, refl, arith, [], ◌∷◌, none}
use xynet.Prelude.{count, List, false}
use xynet.Prelude.Int.{pos}
use xynet.Operation.{AsyncOperationBase, no_error, Policy}
use xynet.IoService.{EventFd, eventfd_poll, io, Loop, polling, advance, advance_from}
use xynet.IoService.Steps.{
  own_step, remote_push, remote_write, Reachable, constructed, stepped, push, complete, io_service,
}
use xynet.IoService.Wakeup.{has_poll, no_lost_wakeup}
use xynet.IoService.Round.{steps, queued, Emptied, round_steps}
use xynet.IoService.Wakes.{Woken, wakes_and_runs}
use xynet.IoService.Run.{Turn, completes, schedules, IsQuiet, run, run-executed, work}
use xynet.IoService.Thread.{Service}
use xynet.IoService.Account.{held, held-executed}

-- A counter that a read clears.
abbrev counter : EventFd ℕ
counter = record {
  write = λ n. suc n;
  read = λ n. 0;
  readable = λ n. ltb 0 n;
  readable-write = λ n. ground arith;
}

abbrev operations : ℕ → AsyncOperationBase
operations op = record {
  m_res = pos 0;
  m_flags = pos 0;
  error = no_error;
  mp_service = none;
  awaiting_coroutine = none;
}

-- Operation 7 is scheduled by another thread, the loop comes to wait, and the thread writes.
abbrev waits : Loop ℕ
waits = advance counter [] (push 7 (io_service 0 operations))

abbrev written : Loop ℕ
written = record waits { writers = 0; eventfd = 1 }

written-Reachable : Reachable counter (7 ∷ []) written
unfolding advance advance_from
written-Reachable =
    stepped
      (stepped (stepped (constructed 0 operations) (remote_push 7 (io_service 0 operations)))
        (own_step _))
      (remote_write waits 0 refl)

-- The two completions, then the rest of the round: operation 9 before operation 7.
abbrev woken : Loop ℕ
woken = complete (io 9 (record { res = pos 3; flags = pos 0 })) (complete eventfd_poll written)

executed_woken :
    ((steps counter 9 woken).executed ≡ 9 ∷ 7 ∷ []) × ((steps counter 9 woken).phase ≡ polling)
unfolding advance advance_from steps
executed_woken = (refl, refl)

wakes_and_runs_example :
    (l1 : Loop ℕ) × Woken counter written l1
    × (queued l1 ≡ queued written)
    × Emptied l1 (steps counter (round_steps l1) l1)
unfolding advance advance_from
wakes_and_runs_example = wakes_and_runs counter written-Reachable refl (λ e. absurd (cc e)) refl

no_lost_wakeup_example :
    (has_poll written.cq ≡ true)
    ⊎ ((written.poll ≡ true) × (counter.readable written.eventfd ≡ true))
unfolding advance advance_from
no_lost_wakeup_example = no_lost_wakeup counter written-Reachable refl (λ e. absurd (cc e)) refl

held-executed_example : held 7 written + count 7 written.executed ≡ count 7 (7 ∷ [])
held-executed_example = held-executed counter 7 written-Reachable

-- A completion and an operation of another thread, then a turn with another, and a stop.
abbrev turns : List Turn
turns =
    record {
      stop_requested = false;
      arrivals = schedules 7 ∷ completes (io 9 (record { res = pos 3; flags = pos 0 })) ∷ [];
    }
    ∷ record { stop_requested = false; arrivals = schedules 8 ∷ [] }
    ∷ record { stop_requested = true; arrivals = [] }
    ∷ []

work-turns : work turns ≡ 9 ∷ 7 ∷ 8 ∷ []
work-turns = refl

abbrev started : Loop ℕ
started = io_service 0 operations

started-IsQuiet : IsQuiet started
started-IsQuiet = record {
  at_head = refl;
  no_local = refl;
  no_remote = refl;
  no_completion = refl;
  no_base = refl;
}

run-executed_example :
    let (l', after) = run counter 1 turns none started in
    (l'.executed ≡ 9 ∷ 7 ∷ 8 ∷ []) × IsQuiet l' × (after ≡ none)
run-executed_example = run-executed counter 1 none turns started started-IsQuiet

abbrev service : Service
service = record { this = 1; m_remote_queue_eventfd = pos 4; ma_is_stop_requested = false }

abbrev no_code : Policy
no_code = record { enable_timeout = false; enable_error_code = false }
