-- ===== src/Transfer.antt =====
-- async_sendmsg of socket/impl/send_all.h and async_recvmsg of socket/impl/recv_all.h.
-- `m_bytes_transferred` is an `int`, kept as its bit pattern below 2 ^ 32; C++ leaves its
-- overflow undefined, and the pattern wraps.
mod Tests
pub mod Rounds
pub mod Calls
pub mod Send
pub mod Recv
use xynet.Prelude.{ℕ, ◌+◌, ◌-◌, ◌%◌, ◌^◌, ltb, if◌then◌else◌, Bool, true, false, ◌||◌, ◌==◌, Option}
use xynet.Prelude.{List, none, some}
use xynet.Prelude.Int.{ℤ, pos, negsuc, to_size}
use xynet.Buffer.{BufferSequence, commit, get_iov_ptr, get_iov_cnt, get_iov_span}
use xynet.Operation.{AsyncOperationBase, ErrorCode, Policy, is_error, set_value}

pub record AsyncMsg : Type 0 where
  pub base : AsyncOperationBase
  pub m_socket : ℤ
  pub m_buffers : BufferSequence
  pub m_bytes_transferred : ℕ
  pub msg_iov : Option ℕ
  pub msg_iovlen : ℕ

-- The constructors.
unfoldable pub async_msg : AsyncOperationBase → ℤ → BufferSequence → AsyncMsg
async_msg base socket buffers = record {
  base = base;
  m_socket = socket;
  m_buffers = buffers;
  m_bytes_transferred = 0;
  msg_iov = get_iov_ptr buffers;
  msg_iovlen = get_iov_cnt buffers;
}

-- What a completion leads to: the coroutine is resumed, or the operation is submitted again.
pub data Next : Type 0 where
  resume submit : Next

-- What `get_result` does.
pub data Returned : Type 0 where
  returns : ℕ → Returned
  throws : ErrorCode → Returned

abbrev pub is_zero : ℤ → Bool
is_zero (pos n) = n == 0
is_zero (negsuc n) = false

-- `m_bytes_transferred += get_res()` on an `int`.
abbrev pub add_int : ℕ → ℤ → ℕ
add_int a r = (a + to_size r) % 2 ^ 32

-- The conversion of the `int` to `size_t`, which extends the sign.
abbrev pub int_to_size : ℕ → ℕ
int_to_size a = if ltb a (2 ^ 31) then a else a + (2 ^ 64 - 2 ^ 32)

-- The branch of `update_result` for progress.
abbrev pub next_of : Option ℕ → Next
next_of none = resume
next_of (some p) = submit

abbrev pub progress : AsyncMsg → AsyncMsg × Next
progress op =
    let buffers = commit (to_size op.base.m_res) op.m_buffers in
    let (iov, iovlen) = get_iov_span buffers in
    (
      record op {
        m_bytes_transferred = add_int op.m_bytes_transferred op.base.m_res;
        m_buffers = buffers;
        msg_iov = iov;
        msg_iovlen = iovlen;
      },
      next_of iov,
    )
