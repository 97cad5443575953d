-- ===== src/Serving.antt =====
-- The servers of example/simple and example/pingpong: how a coroutine awaits its transfers, and the
-- loops of a session. A buffer of a session is the list of its bytes, and a span of it starts at
-- its first byte. An operation takes one answer of the kernel for each of its submissions.
pub mod Await
pub mod Echo
pub mod Finish
pub mod Acceptor
pub mod Lines
pub mod Pingpong
pub mod Memory
pub mod Time
mod Tests
use xynet.Prelude.{
  ℕ, ◌+◌, ◌≤◌, ◌≡◌, ◌≢◌, Bool, true, false, List, [], ◌∷◌, ◌++◌, map, length, drop, get_or, some,
  All,
}
use xynet.Prelude.Int.{ℤ, pos, pos_part}
use xynet.Buffer.{BufferSequence}
use xynet.Operation.{AsyncOperationBase, Cqe, Policy, async_operation, no_error}
use xynet.Transfer.{AsyncMsg, async_msg, Returned, returns, throws}
use xynet.Transfer.Rounds.{run, Answers}
use xynet.Transfer.Send
use xynet.Transfer.Send.{on_send_completed}
use xynet.Transfer.Recv
use xynet.Transfer.Recv.{on_recv_completed}

-- Where a `co_await` of a transfer is: before its end, at an exception, or at a count.
pub data Awaited : Type 0 where
  pending threw : Awaited
  counted : ℕ → Awaited

abbrev pub awaited : Bool → Returned → Awaited
awaited false result = pending
awaited true (returns n) = counted n
awaited true (throws error) = threw

-- The operations of these servers have no timeout and no error code of the caller.
abbrev pub throwing : Policy
throwing = record { enable_timeout = false; enable_error_code = false }

-- `span{buf.begin(), n}`
abbrev pub span : ℕ → BufferSequence
span n = record { passed = []; pending = record { iov_base = 0; iov_len = n } ∷ [] }

-- A socket's descriptor, in the thread of an io_service.
module _ (service : ℕ) (fd : ℤ) where
  abbrev pub transfer : ℕ → AsyncMsg
  transfer n = async_msg (async_operation throwing (some service) no_error) fd (span n)

  -- `co_await peer_socket.send(span{buf.begin(), n})`, with the bytes that the kernel takes.
  unfoldable pub await_send : ℕ → List Cqe → List ℕ → List ℕ × Awaited
  await_send n cqes buf =
      let r = run on_send_completed cqes (transfer n) in
      (map (λ a. get_or buf a 0) r.sent, awaited r.resumed (Send.get_result throwing r.op))

  -- `co_await peer_socket.recv_some(buf)` of a buffer of `n` bytes, which the kernel answers at once.
  unfoldable pub await_recv_some : ℕ → Cqe → Awaited
  await_recv_some n cqe =
      let r = run (on_recv_completed true) (cqe ∷ []) (transfer n) in
      awaited r.resumed (Recv.get_result throwing r.op).1

  -- What a kernel may answer to a send of `n` bytes: it takes at most what is left, and never
  -- nothing.
  abbrev pub SendAnswers : ℕ → List Cqe → Type 0
  SendAnswers n cqes =
      Answers on_send_completed cqes (transfer n) × All (λ (c : Cqe). c.res ≢ pos 0) cqes

-- A turn of the loop of a session that echoes: the answer to its `recv_some`, the bytes that the
-- kernel has filled, and the answers to its `send`.
pub record EchoTurn : Type 0 where
  pub recv_cqe : Cqe
  pub bytes : List ℕ
  pub send_cqes : List Cqe

-- Where a loop is: in `recv_some`, in `send`, or at an exception of one of them.
pub data LoopEnd : Type 0 where
  in_recv in_send recv_threw send_threw : LoopEnd

-- What a session has received and sent.
pub record Echoed : Type 0 where
  pub received : List ℕ
  pub sent : List ℕ
  pub end : LoopEnd

abbrev pub filled : List ℕ → List ℕ → List ℕ
filled bytes buf = bytes ++ drop (length bytes) buf

-- The loop of `echo` and of `pingpong_server`, over a buffer of `size` bytes.
unfoldable pub echo_loop : ℕ → ℤ → ℕ → List EchoTurn → List ℕ → Echoed
echo_loop service fd size [] buf = record { received = []; sent = []; end = in_recv }
echo_loop service fd size (turn ∷ turns) buf =
    let buf' = filled turn.bytes buf in
    let rest = echo_loop service fd size turns buf' in
    elim (await_recv_some service fd size turn.recv_cqe) [
      | pending ↦ record { received = turn.bytes; sent = []; end = in_recv }
      | threw ↦ record { received = turn.bytes; sent = []; end = recv_threw }
      | counted recv_bytes ↦
          let (sent, result) = await_send service fd recv_bytes turn.send_cqes buf' in
          elim result [
            | pending ↦ record { received = turn.bytes; sent = sent; end = in_send }
            | threw ↦ record { received = turn.bytes; sent = sent; end = send_threw }
            | counted sent_bytes ↦ record rest {
              received = turn.bytes ++ rest.received;
              sent = sent ++ rest.sent;
            }
          ]
    ]
