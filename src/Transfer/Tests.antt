-- ===== src/Transfer/Tests.antt =====
-- Transfers of a header of two bytes and a body of three, and the theorems at concrete inputs.
use xynet.Prelude.{◌≡◌, refl, arith, List, [], ◌∷◌, ◌++◌, length, true, false, none, some}
use xynet.Prelude.Int.{pos}
use xynet.Buffer.{Iovec, BufferSequence, commit, get_iov_span}
use xynet.Buffer.Commit.{addresses}
use xynet.Operation.{AsyncOperationBase, Cqe, Policy, no_error, set_value}
use xynet.Transfer.{AsyncMsg, async_msg, returns}
use xynet.Transfer.Rounds.{run, offered, Answers}
use xynet.Transfer.Send.{on_send_completed}
use xynet.Transfer.Send
use xynet.Transfer.Send.Complete.{send_complete, send-partial, send-resumes}
use xynet.Transfer.Recv
use xynet.Transfer.Recv.{on_recv_completed}
use xynet.Transfer.Recv.Filled.{recv-filled, answer}

abbrev header : Iovec
header = record { iov_base = 100; iov_len = 2 }

abbrev body : Iovec
body = record { iov_base = 200; iov_len = 3 }

abbrev nothing : Iovec
nothing = record { iov_base = 300; iov_len = 0 }

abbrev two_entries : BufferSequence
two_entries = record { passed = []; pending = header ∷ body ∷ [] }

abbrev throwing : Policy
throwing = record { enable_timeout = false; enable_error_code = false }

abbrev with_code : Policy
with_code = record { enable_timeout = false; enable_error_code = true }

abbrev base : AsyncOperationBase
base = record {
  m_res = pos 0;
  m_flags = pos 0;
  error = no_error;
  mp_service = some 1;
  awaiting_coroutine = none;
}

-- The kernel takes three bytes, then two.
abbrev cqes : List Cqe
cqes = answer 3 ∷ answer 2 ∷ []

send_ends :
    (run on_send_completed cqes (async_msg base (pos 7) two_entries)).sent
    ≡ 100 ∷ 101 ∷ 200 ∷ 201 ∷ 202 ∷ []
unfolding run on_send_completed async_msg set_value commit get_iov_span
send_ends = refl

abbrev sending : AsyncMsg
sending = async_msg base (pos 7) two_entries

cqes-Answers : Answers on_send_completed cqes sending
unfolding Answers on_send_completed async_msg set_value commit get_iov_span
cqes-Answers = omega arith

recv-Answers : Answers (on_recv_completed false) cqes sending
unfolding Answers on_recv_completed async_msg set_value commit get_iov_span
recv-Answers = omega arith

send_complete_example :
    ((run on_send_completed cqes sending).sent ≡ 100 ∷ 101 ∷ 200 ∷ 201 ∷ 202 ∷ [])
    × (Send.get_result throwing (run on_send_completed cqes sending).op ≡ returns 5)
unfolding run on_send_completed async_msg set_value commit get_iov_span
send_complete_example =
    send_complete throwing base (pos 7) two_entries cqes refl (omega arith) cqes-Answers refl refl
      (λ e. cc e)

send-partial_example :
    ((run on_send_completed cqes sending).sent ++ offered (run on_send_completed cqes sending).op
      ≡ addresses two_entries.pending)
    × (Send.get_result with_code (run on_send_completed cqes sending).op
        ≡ returns (length (run on_send_completed cqes sending).sent))
send-partial_example =
    send-partial with_code base (pos 7) two_entries cqes refl refl (omega arith) cqes-Answers

-- Five answers are enough for five bytes.
abbrev slow_cqes : List Cqe
slow_cqes = answer 1 ∷ answer 1 ∷ answer 1 ∷ answer 1 ∷ answer 1 ∷ []

slow_cqes-Answers : Answers on_send_completed slow_cqes sending
unfolding Answers on_send_completed async_msg set_value commit get_iov_span
slow_cqes-Answers = omega arith

send-resumes_example : (run on_send_completed slow_cqes sending).resumed ≡ true
send-resumes_example =
    send-resumes base (pos 7) two_entries slow_cqes refl (omega arith) slow_cqes-Answers
      (omega arith) (omega arith)

recv-filled_example :
    let r = run (on_recv_completed false) cqes sending in
    (r.sent ≡ 100 ∷ 101 ∷ 200 ∷ 201 ∷ 202 ∷ [])
    × (Recv.get_result throwing r.op ≡ (r.op, returns 5))
unfolding run on_recv_completed async_msg set_value commit get_iov_span
recv-filled_example =
    recv-filled throwing base (pos 7) two_entries cqes refl (omega arith) recv-Answers refl refl
      (λ e. cc e)
