-- ===== src/Submission/Schedule.antt =====
-- `schedule_operation` of include/xynet/io_service.h: a coroutine that moves to the thread of an
-- io_service, at once or after a time.
use xynet.Prelude.{ℕ, ◌<◌, ◌≡◌, refl, Bool, true, false, if◌then◌else◌, ◌==◌}
use xynet.Prelude.{[], ◌∷◌, ◌++◌, length, Option, none, some}
use xynet.Prelude.Int.{pos}
use xynet.Operation.{AsyncOperationBase, Cqe, no_error, set_value, set_awaiting_coroutine}
use xynet.Timeout.{Timespec}
use xynet.IoService.{IoService, schedule_remote}
use xynet.Submission.{SubmissionRing, started, prep_timeout, submit_timeout, submit_call}

-- The callbacks that the operation has in turn.
pub data Callback : Type 0 where
  on_schedule_remote_complete on_operation_completed : Callback

-- `this` is the address of the operation; `m_timeout` counts where there is a timeout.
pub record ScheduleOperation : Type 0 where
  pub this : ℕ
  pub base : AsyncOperationBase
  pub callback : Callback
  pub enable_timeout : Bool
  pub m_timeout : Timespec

-- The two constructors, at the address `this`, of an operation of the service `service`.
pub schedule_operation : ℕ → ℕ → Bool → Timespec → ScheduleOperation
schedule_operation this service enable_timeout ts = record {
  this = this;
  base = record {
    m_res = pos 0;
    m_flags = pos 0;
    error = no_error;
    mp_service = some service;
    awaiting_coroutine = none;
  };
  callback = on_schedule_remote_complete;
  enable_timeout = enable_timeout;
  m_timeout = ts;
}

abbrev is_service : ℕ → Option ℕ → Bool
is_service service none = false
is_service service (some s) = service == s

-- `await_ready`, where the service of the operation is `service`.
pub schedule_await_ready : ScheduleOperation → ℕ → Option ℕ → Bool
schedule_await_ready op service thread_io_service =
    if op.enable_timeout then false else is_service service thread_io_service

-- `await_suspend`, with the part of `schedule_remote` under the lock.
pub schedule_await_suspend :
    ℕ → ScheduleOperation → IoService → ScheduleOperation × (IoService × Bool)
schedule_await_suspend coroutine op s =
    (record op { base = set_awaiting_coroutine coroutine op.base }, schedule_remote op.this s)

-- A completion of the kernel for the operation.
abbrev pub set_result : Cqe → ScheduleOperation → ScheduleOperation
set_result cqe op = record op { base = set_value cqe.res cqe.flags op.base }

module _ {R : Type 0} (ring : SubmissionRing R) where
  -- `execute_callback` by the callback that the operation has, with whether the coroutine is resumed.
  pub execute_callback : Callback → ScheduleOperation → R → Option (ScheduleOperation × R × Bool)
  execute_callback on_operation_completed op r = some (op, r, true)
  execute_callback on_schedule_remote_complete op r =
      if op.enable_timeout
      then elim (submit_call ring (submit_timeout op.this op.m_timeout) r) [
        | none ↦ none
        | some r' ↦ some (record op { callback = on_operation_completed }, r', false)
      ]
      else some (op, r, true)

  submit_timeout_room :
      (this : ℕ) (ts : Timespec) (r : R)
      → length (ring.sqes r) < ring.entries
      → (r' : R) × (submit_call ring (submit_timeout this ts) r ≡ some r')
        × (ring.sqes r' ≡ ring.sqes r ++ (started this (prep_timeout ts) ∷ []))
  unfolding submit_call
  submit_timeout_room this ts r room = ring.fill_room (started this (prep_timeout ts)) r room

  -- What the first callback of an operation does.
  abbrev pub Rescheduled :
      Bool → ScheduleOperation → R → Option (ScheduleOperation × R × Bool) → Type 0
  Rescheduled false op r result = result ≡ some (op, r, true)
  Rescheduled true op r result =
      (op' : ScheduleOperation) × (r' : R) × (result ≡ some (op', r', false))
      × (ring.sqes r' ≡ ring.sqes r ++ (started op.this (prep_timeout op.m_timeout) ∷ []))
      × ((cqe : Cqe) (later : R)
          → execute_callback (set_result cqe op').callback (set_result cqe op') later
            ≡ some (set_result cqe op', later, true))

  -- Where the submission queue has room, the first callback of a `schedule_operation` resumes the
  -- coroutine if there is no timeout; with one it submits the prep_timeout, under the address of the
  -- operation, and the coroutine is resumed by the next callback, whatever the kernel answered.
  execute_callback-Rescheduled :
      (this service coroutine : ℕ) (enable_timeout : Bool) (ts : Timespec) (s : IoService) (r : R)
      → length (ring.sqes r) < ring.entries
      → let op =
          (schedule_await_suspend coroutine
            (schedule_operation this service enable_timeout ts)
            s).0 in
        Rescheduled enable_timeout op r (execute_callback op.callback op r)
  unfolding execute_callback schedule_operation schedule_await_suspend
  execute_callback-Rescheduled this service coroutine false ts s r room = refl
  execute_callback-Rescheduled this service coroutine true ts s r room =
      let (r', submitted, grown) = submit_timeout_room this ts r room in
      let op = (schedule_await_suspend coroutine (schedule_operation this service true ts) s).0 in
      (
        record op { callback = on_operation_completed },
        r',
        rw submitted refl,
        grown,
        λ cqe later. refl,
      )
