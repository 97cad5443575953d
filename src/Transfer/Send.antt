-- ===== src/Transfer/Send.antt =====
-- update_result and get_result of async_sendmsg.
pub mod Progress
pub mod Complete
use xynet.Prelude.{if◌then◌else◌, ◌||◌}
use xynet.Operation.{Cqe, Policy, is_error, set_value}
use xynet.Transfer.{
  AsyncMsg, Next, Returned, resume, returns, throws, is_zero, progress, int_to_size,
}

unfoldable pub update_result : AsyncMsg → AsyncMsg × Next
update_result op =
    if is_error op.base.error || is_zero op.base.m_res then (op, resume) else progress op

-- A completion of the kernel: `set_value`, then the callback `on_send_completed`.
unfoldable pub on_send_completed : Cqe → AsyncMsg → AsyncMsg × Next
unfolding update_result
on_send_completed cqe op = update_result (record op { base = set_value cqe.res cqe.flags op.base })

unfoldable pub get_result : Policy → AsyncMsg → Returned
get_result policy op =
    let bytes = returns (int_to_size op.m_bytes_transferred) in
    if policy.enable_error_code
    then bytes
    else if is_error op.base.error
    then throws op.base.error
    else bytes
