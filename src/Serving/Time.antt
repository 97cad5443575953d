-- ===== src/Serving/Time.antt =====
-- example/simple/time.cpp: the server that sends its time, and a client. The spans are made of a
-- pointer to one `time_t` and of its size in bytes, and so have eight values of eight bytes.
-- What the C++ standard leaves undefined is what a little-endian machine does with its memory.
pub mod Agree
use xynet.Prelude.{
  ℕ, suc, ◌+◌, ◌*◌, ◌^◌, ◌<◌, ◌≤◌, ◌≡◌, ◌≢◌, refl, arith, ap, sym, ◌∙◌, Bool, true, false, List, [],
  ◌∷◌, ◌++◌, map, length, Option, none, some, All, length-append,
}
use mathlib.Core.List.{append-nil}
use mathlib.Core.Path.{subst}
use xynet.Prelude.Int.{ℤ, pos}
use xynet.Buffer.{Range, buffer_sequence, to_iovec}
use xynet.Buffer.Commit.{addresses, region, length-region}
use xynet.Operation.{Cqe, async_operation, no_error, is_error}
use xynet.Transfer.{AsyncMsg, async_msg}
use xynet.Transfer.Rounds.{run, Answers}
use xynet.Transfer.Send
use xynet.Transfer.Send.{on_send_completed}
use xynet.Transfer.Send.Complete.{send_complete}
use xynet.Transfer.Recv
use xynet.Transfer.Recv.{on_recv_completed}
use xynet.Transfer.Recv.Filled.{recv-filled}
use xynet.Socket.{Socket, Answer, Outcome, returned, thrown, destroy, file_descriptor}
use xynet.Socket.Address.{SocketAddress}
use xynet.Serving.{Awaited, pending, threw, counted, awaited, throwing}
use xynet.Serving.Finish.{finish}
use xynet.Serving.Await.{counted-clear, run-nonzero}
use xynet.Serving.Pingpong.{connected, returned_count, counted_is}
use xynet.Serving.Memory.{
  Memory, store, to_bytes, from_bytes, from_bytes-to_bytes, length-to_bytes, store-region,
  map-region, get_or-map-region, map-store,
}

-- `span{&now, sizeof(now)}`
unfoldable pub time_span : ℕ → Range
time_span now = record { ranges_data = now; ranges_size = 8; value_size = 8 }

-- An operation over that span.
abbrev pub time_transfer : ℕ → ℤ → ℕ → AsyncMsg
time_transfer service fd now =
    async_msg (async_operation throwing (some service) no_error) fd
      (buffer_sequence (time_span now ∷ []))

abbrev pub after_time : ℕ → Awaited → Socket → Answer → List (Cqe × ℤ) → Option (List ℤ)
after_time service pending s shut answers = none
after_time service threw s shut answers = some (destroy s)
after_time service (counted sent_bytes) s shut answers = finish service shut answers s

-- What the server has sent, and what it has closed, for a time `t` that it keeps at `now`.
pub record TimeServer : Type 0 where
  pub memory : Memory
  pub sent : List ℕ
  pub result : Awaited
  pub closed : Option (List ℤ)

unfoldable pub time_server :
    ℕ → Socket → Memory → ℕ → ℕ → List Cqe → Answer → List (Cqe × ℤ) → TimeServer
time_server service peer_socket stack now t cqes shut answers =
    let memory = store (region now 8) (to_bytes 8 t) stack in
    let r = run on_send_completed cqes (time_transfer service peer_socket.m_fd now) in
    let result = awaited r.resumed (Send.get_result throwing r.op) in
    record {
      memory = memory;
      sent = map memory r.sent;
      result = result;
      closed = after_time service result peer_socket shut answers;
    }

-- The client: its memory, the time that it prints, what it has closed, and whether it has asked the
-- service to stop.
pub record TimeClient : Type 0 where
  pub memory : Memory
  pub result : Awaited
  pub printed : Option ℕ
  pub closed : Option (List ℤ)
  pub stop_requested : Bool

abbrev pub printed_of : Awaited → ℕ → Option ℕ
printed_of pending t = none
printed_of threw t = none
printed_of (counted recv_bytes) t = some t

abbrev pub is_some : Option (List ℤ) → Bool
is_some none = false
is_some (some fds) = true

abbrev pub closed_of : ℕ → Awaited → Socket → Answer → List (Cqe × ℤ) → Option (List ℤ)
closed_of service pending s shut answers = none
closed_of service threw s shut answers = finish service shut answers s
closed_of service (counted recv_bytes) s shut answers = finish service shut answers s

abbrev pub time_client_result :
    ℕ → Memory → ℕ → Awaited → Socket → Answer → List (Cqe × ℤ) → TimeClient
time_client_result service memory t result s shut answers =
    let closed = closed_of service result s shut answers in
    record {
      memory = memory;
      result = result;
      printed = printed_of result (from_bytes (map memory (region t 8)));
      closed = closed;
      stop_requested = is_some closed;
    }

-- What follows `connect`, with the bytes that the kernel has for the socket.
abbrev pub after_connect :
    ℕ → Memory → ℕ → List Cqe → List ℕ → Answer → List (Cqe × ℤ) → Outcome Socket → TimeClient
after_connect service stack t cqes stream shut answers (thrown s error) =
    time_client_result service stack t threw s shut answers
after_connect service stack t cqes stream shut answers (returned s) =
    let r = run (on_recv_completed false) cqes (time_transfer service s.m_fd t) in
    let memory = store r.sent stream (store (region t 8) (to_bytes 8 0) stack) in
    let result = awaited r.resumed (Recv.get_result throwing r.op).1 in
    time_client_result service memory t result s shut answers

unfoldable pub time_client :
    ℕ
    → Answer
    → Cqe
    → SocketAddress
    → Memory
    → ℕ
    → List Cqe
    → List ℕ
    → Answer
    → List (Cqe × ℤ)
    → TimeClient
time_client service init_answer cqe address stack t cqes stream shut answers =
    after_connect service stack t cqes stream shut answers
      (connected service init_answer cqe address)
