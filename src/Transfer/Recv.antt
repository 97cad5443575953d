-- ===== src/Transfer/Recv.antt =====
-- The members of async_recvmsg of socket/impl/recv_all.h. The state and the answers of the kernel
-- are those of a send; `accepted` is then what the kernel has filled.
pub mod Filled
use xynet.Prelude.{if◌then◌else◌, ◌||◌, Bool, ◌≡◌, refl, ℕ}
use xynet.Prelude.Int.{ℤ, pos, negsuc, to_size}
use xynet.Operation.{Cqe, ErrorCode, Policy, AsyncOperationBase, is_error, set_value, eof}
use xynet.Operation.{make_error_code, is_negative}
use xynet.Transfer.{
  AsyncMsg, Next, Returned, resume, returns, throws, is_zero, progress, int_to_size,
}

unfoldable pub update_result : AsyncMsg → AsyncMsg × Next
update_result op =
    if is_error op.base.error || is_zero op.base.m_res then (op, resume) else progress op

-- The callback, with the policy's `recv_some_type`.
unfoldable pub on_recv_completed : Bool → Cqe → AsyncMsg → AsyncMsg × Next
unfolding update_result
on_recv_completed recv_some cqe op =
    let op' = record op { base = set_value cqe.res cqe.flags op.base } in
    let count = if is_negative cqe.res then 0 else to_size cqe.res in
    if recv_some then (record op' { m_bytes_transferred = count }, resume) else update_result op'

-- A last answer of 0 becomes the error `eof`; then the error is thrown, or the count returned.
unfoldable pub get_result : Policy → AsyncMsg → AsyncMsg × Returned
get_result policy op =
    let error = if is_zero op.base.m_res then make_error_code eof else op.base.error in
    let op' = record op { base = record (op.base) { error = error } } in
    let bytes = returns (int_to_size op.m_bytes_transferred) in
    if policy.enable_error_code
    then (op', bytes)
    else if is_error error
    then (op', throws error)
    else (op', bytes)
