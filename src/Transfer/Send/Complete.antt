-- ===== src/Transfer/Send/Complete.antt =====
-- The whole of a send: what it returns, that it ends, and what a stale error code does to it.
use xynet.Prelude.{ℕ, suc, ◌^◌, ◌≤◌, ◌<◌, ◌≡◌, ◌≢◌, inl, inr, refl, arith, ◌∙◌, ap, sym}
use xynet.Prelude.{true, false, List, [], ◌∷◌, ◌++◌, length, length-append, length-take, some}
use xynet.Prelude.Int.{ℤ, pos, pos_part, to_size}
use xynet.Buffer.{BufferSequence, commit, get_iov_span}
use xynet.Buffer.Commit.{addresses, commit-NonEmpty, NonEmpty, null_iff}
use xynet.Operation.{
  AsyncOperationBase, Cqe, ErrorCode, Policy, is_error, set_value, async_operation,
}
use xynet.Transfer.{AsyncMsg, async_msg, submit, returns}
use xynet.Transfer.Send.{on_send_completed, get_result}
use xynet.Transfer.Rounds.{run, offered, accepted, Answers, IsAnswer}
use xynet.Transfer.Send.Progress.{run-offered, run-bytes}
use xynet.Transfer.Send.Progress.{
  run-IsEnd, run-resume, run_submit, Next-cases, after_offered, on_send_completed-submit,
}
use mathlib.Core.List.{append-nil}

-- A send of buffers of less than 2 ^ 31 bytes that starts with a clear error code, against a kernel
-- that takes at most what it is offered: whenever the coroutine is resumed with no error and the
-- last answer was not 0, all the bytes were sent, in order, and the operation returns their
-- number under either policy.
pub send_complete :
    (policy : Policy) (base : AsyncOperationBase) (socket : ℤ) (buffers : BufferSequence)
    (cqes : List Cqe)
    → let op = async_msg base socket buffers in
      let r = run on_send_completed cqes op in
      let bytes = addresses buffers.pending in
      is_error base.error ≡ false
      → length bytes < 2 ^ 31
      → Answers on_send_completed cqes op
      → r.resumed ≡ true
      → is_error r.op.base.error ≡ false
      → r.op.base.m_res ≢ pos 0
      → (r.sent ≡ bytes) × (get_result policy r.op ≡ returns (length bytes))
unfolding async_msg get_result
send_complete policy base socket buffers cqes clear room ok done no_err more =
    let op : AsyncMsg = async_msg base socket buffers in
    let r = run on_send_completed cqes op in
    let whole = run-offered cqes op clear in
    let counted = run-bytes cqes op clear ok (omega arith) in
    let nothing : offered r.op ≡ [] = ground (arith, run-IsEnd cqes op done) in
    let all_sent : r.sent ≡ addresses buffers.pending =
      sym (append-nil r.sent) ∙ ap (λ l. r.sent ++ l) (sym nothing) ∙ whole in
    (all_sent, ground (arith, counted, ap length all_sent))

-- With an error code of the caller, a send that is resumed returns the number of bytes that the
-- kernel took, and these are the first bytes of the buffers, also after an error.
pub send-partial :
    (policy : Policy) (base : AsyncOperationBase) (socket : ℤ) (buffers : BufferSequence)
    (cqes : List Cqe)
    → let op = async_msg base socket buffers in
      let r = run on_send_completed cqes op in
      policy.enable_error_code ≡ true
      → is_error base.error ≡ false
      → length (addresses buffers.pending) < 2 ^ 31
      → Answers on_send_completed cqes op
      → (r.sent ++ offered r.op ≡ addresses buffers.pending)
        × (get_result policy r.op ≡ returns (length r.sent))
unfolding async_msg get_result
send-partial policy base socket buffers cqes with_code clear room ok =
    let op : AsyncMsg = async_msg base socket buffers in
    let r = run on_send_completed cqes op in
    let whole = run-offered cqes op clear in
    let counted = run-bytes cqes op clear ok (omega arith) in
    let shorter = length-append r.sent (offered r.op) in
    (whole, ground (arith, counted, shorter, ap length whole))

submit-pending :
    (cqe : Cqe) (op : AsyncMsg)
    → NonEmpty op.m_buffers.pending
    → (on_send_completed cqe op).1 ≡ submit
    → let op' = (on_send_completed cqe op).0 in
      NonEmpty op'.m_buffers.pending × (0 < length (offered op'))
unfolding on_send_completed set_value get_iov_span
submit-pending cqe op h e =
    let c = commit (to_size cqe.res) op.m_buffers in
    let kept = commit-NonEmpty (to_size cqe.res) op.m_buffers h in
    ground (arith, kept, null_iff c.passed c.pending kept)

submit-accepted :
    (cqe : Cqe) (op : AsyncMsg)
    → IsAnswer cqe op
    → (on_send_completed cqe op).1 ≡ submit
    → 0 < length (accepted cqe op)
submit-accepted cqe op fits e =
    omega
      (arith, length-take (pos_part cqe.res) (offered op), (on_send_completed-submit cqe op e).1)

resumes_within :
    (cqes : List Cqe) (op : AsyncMsg)
    → is_error op.base.error ≡ false
    → NonEmpty op.m_buffers.pending
    → Answers on_send_completed cqes op
    → 0 < length (offered op)
    → length (offered op) ≤ length cqes
    → (run on_send_completed cqes op).resumed ≡ true
resumes_within [] op clear h ok some_bytes enough = absurd (omega arith)
resumes_within (cqe ∷ cqes) op clear h ok some_bytes enough =
    elim (Next-cases (on_send_completed cqe op).1) [
      | inl e ↦ rw (run-resume cqe cqes op e) refl
      | inr e ↦
          let op' = (on_send_completed cqe op).0 in
          let (h', some_bytes') = submit-pending cqe op h e in
          let moved = submit-accepted cqe op (unfold Answers in ok.0) e in
          let left = after_offered cqe op clear in
          rw (run_submit cqe cqes op e) (
            resumes_within cqes op' (on_send_completed-submit cqe op e).0 h'
              (unfold Answers in ok.1) some_bytes' (omega arith))
    ]

-- A send ends: where no buffer is empty and there is a byte to send, the coroutine is resumed
-- after as many answers as there are bytes at the latest.
pub send-resumes :
    (base : AsyncOperationBase) (socket : ℤ) (buffers : BufferSequence) (cqes : List Cqe)
    → let op = async_msg base socket buffers in
      is_error base.error ≡ false
      → NonEmpty buffers.pending
      → Answers on_send_completed cqes op
      → 0 < length (addresses buffers.pending)
      → length (addresses buffers.pending) ≤ length cqes
      → (run on_send_completed cqes op).resumed ≡ true
unfolding async_msg
send-resumes base socket buffers cqes clear h ok some_bytes enough =
    resumes_within cqes (async_msg base socket buffers) clear h ok some_bytes enough

-- With an error code of the caller that is set when the send starts, the first answer ends the
-- send, whatever it is: the kernel has taken `n + 1` bytes, the code is still set, and the send
-- returns 0.
send-stale :
    (thread_io_service : ℕ) (policy : Policy) (callers : ErrorCode) (socket flags : ℤ)
    (buffers : BufferSequence) (n : ℕ) (cqes : List Cqe)
    → let base = async_operation policy (some thread_io_service) callers in
      let op = async_msg base socket buffers in
      let r = run on_send_completed (record { res = pos (suc n); flags = flags } ∷ cqes) op in
      policy.enable_error_code ≡ true
      → is_error callers ≡ true
      → suc n ≤ length (addresses buffers.pending)
      → (r.resumed ≡ true)
        × (length r.sent ≡ suc n)
        × (r.op.base.error ≡ callers)
        × (get_result policy r.op ≡ returns 0)
unfolding async_msg async_operation run on_send_completed set_value get_result
send-stale thread_io_service policy callers socket flags buffers n cqes with_code stale fits =
    ground (arith, length-take (suc n) (addresses buffers.pending))
