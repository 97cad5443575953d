-- ===== src/Submission.antt =====
-- How operations reach the kernel: `try_submit_io` and `schedule_operation` of
-- include/xynet/io_service.h, `submit` of detail/async_operation.h, and the `try_start` of the
-- operations of socket/impl. An operation is the address of its `async_operation_base`.
pub mod Entries
pub mod Links
pub mod Schedule
mod Tests
use xynet.Prelude.{
  ℕ, ◌≤◌, ◌<◌, ◌≡◌, ◌==◌, if◌then◌else◌, Bool, true, false, List, [], ◌∷◌, ◌++◌, length, Option,
  none, some,
}
use xynet.Prelude.Int.{ℤ}
use xynet.Operation.{Policy, Cqe}
use xynet.Timeout.{Timespec}
use xynet.Socket.{Socket}
use xynet.IoService.{Completion, eventfd_poll, link_timeout, io}

-- What a submission queue entry asks for; a message is the address of its `msghdr`.
pub data Request : Type 0 where
  prep_accept prep_connect : ℤ → Request
  prep_recv : ℤ → ℕ → Request
  prep_recvmsg prep_sendmsg : ℤ → ℕ → Request
  prep_timeout prep_link_timeout : Timespec → Request
  prep_poll_add : ℕ → Request

-- `io_link` is the flag `IOSQE_IO_LINK`.
pub record Sqe : Type 0 where
  pub request : Request
  pub io_link : Bool
  pub user_data : ℕ

-- What the code relies on of the submission queue: `io_uring_get_sqe` hands out an entry until as
-- many are out as `io_uring_queue_init` was asked for, and then a null pointer. `fill` takes an
-- entry and fills it.
pub record SubmissionRing (R : Type 0) : Type 0 where
  pub entries : ℕ
  pub sqes : R → List Sqe
  pub fill : Sqe → R → Option R
  pub fill_room :
      (sqe : Sqe) (ring : R)
      → length (sqes ring) < entries
      → (next : R) × (fill sqe ring ≡ some next) × (sqes next ≡ sqes ring ++ (sqe ∷ []))
  pub fill_full : (sqe : Sqe) (ring : R) → entries ≤ length (sqes ring) → fill sqe ring ≡ none

-- The entries that `io_service` asks for.
abbrev pub queue_entries : ℕ
queue_entries = 32768

-- The functions that `try_start` returns, on a cleared entry.
abbrev pub started : ℕ → Request → Sqe
started op request = record { request = request; io_link = false; user_data = op }

abbrev pub accept_start : ℕ → Socket → Sqe
accept_start op listen_socket = started op (prep_accept listen_socket.m_fd)

abbrev pub connect_start : ℕ → Socket → Sqe
connect_start op s = started op (prep_connect s.m_fd)

-- `null_buffer::size`
abbrev pub null_buffer_size : ℕ
null_buffer_size = 1024

-- `async_close` reads into its `null_buffer`.
abbrev pub close_start : ℕ → Socket → Sqe
close_start op s = started op (prep_recv s.m_fd null_buffer_size)

abbrev pub send_start : ℕ → Socket → ℕ → Sqe
send_start op s msghdr = started op (prep_sendmsg s.m_fd msghdr)

abbrev pub recv_start : ℕ → Socket → ℕ → Sqe
recv_start op s msghdr = started op (prep_recvmsg s.m_fd msghdr)

-- An operation, by its address, with what its `try_start` reads.
pub data Operation : Type 0 where
  async_accept async_connect async_close : ℕ → Socket → Operation
  async_sendmsg async_recvmsg : ℕ → Socket → ℕ → Operation

unfoldable pub try_start : Operation → Sqe
try_start (async_accept op s) = accept_start op s
try_start (async_connect op s) = connect_start op s
try_start (async_close op s) = close_start op s
try_start (async_sendmsg op s msghdr) = send_start op s msghdr
try_start (async_recvmsg op s msghdr) = recv_start op s msghdr

-- An entry with the link timeout behind it.
abbrev pub linked : Sqe → Sqe
linked sqe = record sqe { io_link = true }

abbrev pub link_timeout_sqe : Timespec → Sqe
link_timeout_sqe ts = started 0 (prep_link_timeout ts)

-- A call that submits: `async_operation::submit`, the poll of the eventfd with its descriptor and
-- its `user_data`, or the timeout of a `schedule_operation`.
pub data Call : Type 0 where
  submit : Policy → Timespec → Operation → Call
  submit_eventfd_poll : ℕ → ℕ → Call
  submit_timeout : ℕ → Timespec → Call

-- Where the two `user_data` that are no operations lead, and the rest to its operation.
unfoldable pub completion_of : ℕ → ℕ → Cqe → Completion
completion_of eventfd_user_data user_data cqe =
    if user_data == eventfd_user_data
    then eventfd_poll
    else if user_data == 0
    then link_timeout
    else io user_data cqe

module _ {R : Type 0} (ring : SubmissionRing R) where
  -- The two forms of `try_submit_io`; `none` is a null pointer that the code writes through.
  unfoldable pub try_submit_io : Sqe → R → Option R
  try_submit_io sqe r = ring.fill sqe r

  unfoldable pub try_submit_io_timeout : Sqe → Timespec → R → Option R
  try_submit_io_timeout io_sqe ts r = elim (ring.fill (linked io_sqe) r) [
    | none ↦ none
    | some r' ↦ ring.fill (link_timeout_sqe ts) r'
  ]

  unfoldable pub submit_call : Call → R → Option R
  unfolding try_submit_io try_submit_io_timeout try_start
  submit_call (submit policy ts op) r =
      if policy.enable_timeout
      then try_submit_io_timeout (try_start op) ts r
      else try_submit_io (try_start op) r
  submit_call (submit_eventfd_poll eventfd user_data) r =
      try_submit_io (started user_data (prep_poll_add eventfd)) r
  submit_call (submit_timeout op ts) r = try_submit_io (started op (prep_timeout ts)) r

  -- The calls of a round of the loop, one after another.
  unfoldable pub submit_calls : List Call → R → Option R
  unfolding submit_call
  submit_calls [] r = some r
  submit_calls (call ∷ calls) r = elim (submit_call call r) [
    | none ↦ none
    | some r' ↦ submit_calls calls r'
  ]
