-- ===== src/Serving/Tests.antt =====
-- Runs of the servers of example/simple and example/pingpong, and their theorems at concrete inputs.
use xynet.Prelude.{ℕ, ◌%◌, ◌≡◌, inr, refl, arith, List, [], ◌∷◌, ◌++◌, some}
use xynet.Prelude.Int.{ℤ, pos, negsuc}
use xynet.Buffer.{commit, get_iov_span}
use xynet.Operation.{Cqe, async_operation, set_value}
use xynet.Transfer.{async_msg}
use xynet.Transfer.Rounds.{Answers}
use xynet.Transfer.Send.{on_send_completed}
use xynet.Socket.{Socket, Answer, file_descriptor, destroy}
use xynet.Socket.Address.{SocketAddress, ByteOrder}
use xynet.Serving.{EchoTurn, SendAnswers, echo_loop}
use xynet.Serving.Echo.{IsTurn, Owes, echo_loop-Owes}
use xynet.Transfer.Send
use xynet.Transfer.Recv
use xynet.Serving.Memory.{Memory}
use xynet.Serving.Time.{TimeServer, TimeClient, time_server, time_client}
use xynet.Serving.Finish.{finish, finish-closes}
use xynet.Serving.Acceptor.{Setup, Accepted, acceptor}
use xynet.Serving.Acceptor.Clients.{
  acceptor-clients, clients_after, setup_error, or_later, accept_error, opened,
}

abbrev answer : ℤ → Cqe
answer res = record { res = res; flags = pos 0 }

-- Three bytes come in, and go out in two steps.
abbrev turn : EchoTurn
turn = record {
  recv_cqe = answer (pos 3);
  bytes = 7 ∷ 8 ∷ 9 ∷ [];
  send_cqes = answer (pos 2) ∷ answer (pos 1) ∷ [];
}

turn-SendAnswers : SendAnswers 1 (pos 5) 3 turn.send_cqes
unfolding Answers on_send_completed async_msg set_value commit get_iov_span async_operation
turn-SendAnswers = (omega arith, (λ e. cc e, (λ e. cc e, tt)))

turn-IsTurn : IsTurn 1 (pos 5) 16 turn
turn-IsTurn = record { fits = omega arith; fills = refl; answers = turn-SendAnswers }

echo_loop-Owes_example :
    (left : List ℕ) × Owes (echo_loop 1 (pos 5) 16 (turn ∷ turn ∷ []) (0 ∷ [])) left
echo_loop-Owes_example =
    echo_loop-Owes 1 (pos 5) 16 (omega arith) (turn ∷ turn ∷ []) (0 ∷ [])
      (turn-IsTurn, (turn-IsTurn, tt))

abbrev succeeds : ℕ → Answer
succeeds n = record { ret = pos n; errno = 11 }

abbrev fails : Answer
fails = record { ret = negsuc 0; errno = 9 }

abbrev peer : Socket
peer = record file_descriptor { m_fd = pos 5 }

-- The peer sends something more, and ends its stream.
abbrev closing : List (Cqe × ℤ)
closing = (answer (pos 4), pos 0) ∷ (answer (pos 0), pos 0) ∷ []

finish-closes_example : finish 1 (succeeds 0) closing peer ≡ some (pos 5 ∷ pos 5 ∷ [])
finish-closes_example = finish-closes 1 5 (succeeds 0) closing peer refl (inr (λ e. cc e))

abbrev sends_line : List Cqe
sends_line = answer (pos 90) ∷ answer (pos 5) ∷ []

sends_line-SendAnswers : SendAnswers 1 (pos 5) 95 sends_line
unfolding Answers on_send_completed async_msg set_value commit get_iov_span async_operation
sends_line-SendAnswers = (omega arith, (λ e. cc e, (λ e. cc e, tt)))

abbrev any_name : SocketAddress
any_name = record { sin_port = 0; s_addr = 0 }

abbrev setup : Setup
setup = record {
  socket_answer = succeeds 3;
  setsockopt_answer = succeeds 0;
  bind_answer = succeeds 0;
  listen_answer = succeeds 0;
  name = any_name;
}

abbrev same_order : ByteOrder
same_order = record {
  htons = λ n. n;
  ntohs = λ n. n;
  htonl = λ n. n;
  ntohs-htons = λ n small. refl;
}

-- Two clients, and an error.
abbrev accepts : List Accepted
accepts =
    record { cqe = answer (pos 6); peer_addr = any_name }
    ∷ record { cqe = answer (pos 7); peer_addr = any_name }
    ∷ record { cqe = answer (negsuc 23); peer_addr = any_name }
    ∷ []

acceptor-clients_example :
    let left = acceptor same_order 2007 1 setup accepts in
    (left.spawned ≡ clients_after (setup_error setup) accepts)
    × (left.ex ≡ or_later (setup_error setup) (accept_error accepts))
    × (destroy left.listen_socket ≡ opened (pos 3))
acceptor-clients_example = acceptor-clients same_order 2007 1 setup accepts (omega arith)

-- A time at 1000 on the server, in two sends, and at 2000 on the client, in two pieces.
abbrev noise : Memory
noise a = a % 251

abbrev time_sends : List Cqe
time_sends = answer (pos 60) ∷ answer (pos 4) ∷ []

abbrev time_recvs : List Cqe
time_recvs = answer (pos 10) ∷ answer (pos 54) ∷ []

abbrev client_socket : Socket
client_socket = record file_descriptor { m_fd = pos 7; m_peer_address = any_name }

abbrev times : TimeServer
times = time_server 1 peer noise 1000 1588000000 time_sends (succeeds 0) closing

abbrev gets_time : TimeClient
gets_time =
    time_client 2 (succeeds 7) (answer (pos 0)) any_name noise 2000 time_recvs (times.sent ++ [])
      (succeeds 0) closing
