-- ===== src/Submission/Tests.antt =====
-- Runs of the submission of operations, and its theorems at concrete inputs.
use xynet.Prelude.{◌<◌, ◌≤◌, ◌≡◌, refl, arith, if◌then◌else◌, ltb, true, false, All}
use xynet.Prelude.{List, [], ◌∷◌, ◌++◌, length, Option, none, some}
use xynet.Prelude.Int.{pos}
use xynet.Operation.{Policy, Cqe}
use xynet.Timeout.{Timespec}
use xynet.Socket.{file_descriptor}
use xynet.IoService.{IoService}
use xynet.Submission.{
  Sqe, SubmissionRing, queue_entries, async_recvmsg, Call, submit, submit_eventfd_poll,
  submit_timeout, submit_calls,
}
use xynet.Submission.Entries.{all_entries, Submitted, submit_calls-Submitted}
use xynet.Submission.Links.{
  IsChained, submit_calls-IsChained, IsAddressed, answers, callers, delivered, answers-callers,
}

-- A queue of the size that `io_service` asks for.
abbrev fill : Sqe → List Sqe → Option (List Sqe)
fill sqe sqes = if ltb (length sqes) queue_entries then some (sqes ++ (sqe ∷ [])) else none

fill_room :
    (sqe : Sqe) (sqes : List Sqe)
    → length sqes < queue_entries
    → (next : List Sqe) × (fill sqe sqes ≡ some next) × (next ≡ sqes ++ (sqe ∷ []))
fill_room sqe sqes h =
    let room : ltb (length sqes) queue_entries ≡ true = ground arith in
    (sqes ++ (sqe ∷ []), rw room refl, refl)

fill_full : (sqe : Sqe) (sqes : List Sqe) → queue_entries ≤ length sqes → fill sqe sqes ≡ none
fill_full sqe sqes h =
    let full : ltb (length sqes) queue_entries ≡ false = ground arith in rw full refl

abbrev ring : SubmissionRing (List Sqe)
ring = record {
  entries = queue_entries;
  sqes = λ sqes. sqes;
  fill = fill;
  fill_room = fill_room;
  fill_full = fill_full;
}

abbrev second : Timespec
second = record { tv_sec = pos 1; tv_nsec = pos 0 }

abbrev with_timeout : Policy
with_timeout = record { enable_timeout = true; enable_error_code = false }

-- A receive with a timeout, the poll of the eventfd and a scheduled operation.
abbrev calls : List Call
calls =
    submit with_timeout second (async_recvmsg 16 file_descriptor 40)
    ∷ submit_eventfd_poll 4 8
    ∷ submit_timeout 24 second
    ∷ []

submit_calls-Submitted_example : Submitted ring (all_entries calls) [] (submit_calls ring calls [])
submit_calls-Submitted_example = submit_calls-Submitted ring calls [] (omega arith)

submit_calls-IsChained_example :
    (r' : List Sqe) × (submit_calls ring calls [] ≡ some r') × IsChained false r'
submit_calls-IsChained_example = submit_calls-IsChained ring calls [] refl (omega arith)

abbrev answer : Sqe → Cqe
answer sqe = record { res = pos sqe.user_data; flags = pos 0 }

calls-IsAddressed : All (IsAddressed 8) calls
calls-IsAddressed = omega arith

answers-callers_example : delivered (answers 8 answer (all_entries calls)) ≡ callers 8 answer calls
answers-callers_example = answers-callers 8 answer calls (omega arith) calls-IsAddressed

abbrev service : IoService
service = record { m_local_queue = []; m_remote_queue = []; poll_sqe_submitted = false }
