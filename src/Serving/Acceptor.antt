-- ===== src/Serving/Acceptor.antt =====
-- `acceptor` of example/include/common/server.h, with `reuse_address` of
-- socket/impl/setsockopt.h.
pub mod Clients
use xynet.Prelude.{
  ℕ, ◌<◌, ◌^◌, ◌≡◌, ◌≢◌, ◌⊎◌, refl, arith, ◌∙◌, ap, false, if◌then◌else◌, List, [], ◌∷◌, ◌+◌, ◌==◌,
  Option, none, some,
}
use xynet.Prelude.Int.{ℤ, pos, negsuc}
use xynet.Operation.{
  Cqe, ErrorCode, async_operation, no_error, system_error, set_value, is_negative,
}
use xynet.Socket.{
  Socket, Answer, Outcome, returned, thrown, destroy, close__, or_throw, sync_operation,
  file_descriptor,
}
use xynet.Socket.Address.{SocketAddress, ByteOrder, any_address, port}
use xynet.Socket.Sync.{init, init_throwing, bind_throwing, listen_throwing, setsockopt}
use xynet.Socket.Async.{accept_result, accepted}
use xynet.Serving.{throwing}

-- `reuse_address`, the two overloads.
unfoldable pub reuse_address : Answer → Socket → Socket × ErrorCode
unfolding setsockopt
reuse_address answer s = setsockopt answer s

unfoldable pub reuse_address_throwing : Answer → Socket → Outcome Socket
unfolding reuse_address
reuse_address_throwing answer s = or_throw (reuse_address answer s)

-- What the four system calls answer, and what `::getsockname` gives.
pub record Setup : Type 0 where
  pub socket_answer : Answer
  pub setsockopt_answer : Answer
  pub bind_answer : Answer
  pub listen_answer : Answer
  pub name : SocketAddress

infixl 5 ◌>>=◌
abbrev ◌>>=◌ : Outcome Socket → (Socket → Outcome Socket) → Outcome Socket
returned s >>= f = f s
thrown s error >>= f = thrown s error

-- The `try` of `acceptor` up to its loop.
unfoldable pub set_up : ByteOrder → ℕ → Setup → Socket → Outcome Socket
set_up order port_number setup s = do
  s1 ← init_throwing setup.socket_answer s
  s2 ← reuse_address_throwing setup.setsockopt_answer s1
  s3 ← bind_throwing order (any_address order port_number) setup.name setup.bind_answer s2
  listen_throwing setup.listen_answer s3

-- The completion of an `accept`, and the address that the kernel wrote.
pub record Accepted : Type 0 where
  pub cqe : Cqe
  pub peer_addr : SocketAddress

abbrev pub accept_one : ℕ → Accepted → Outcome Socket
accept_one service a =
    let base = async_operation throwing (some service) no_error in
    accept_result throwing (set_value a.cqe.res a.cqe.flags base) a.peer_addr file_descriptor

-- What `acceptor` has come to: the listening socket, the sockets of the clients that it has
-- spawned, and the exception that it keeps, if it has left its loop.
pub record Acceptor : Type 0 where
  pub listen_socket : Socket
  pub spawned : List Socket
  pub ex : Option ErrorCode

abbrev pub after_accept : Socket → Outcome Socket → Acceptor → Acceptor
after_accept s (returned peer_socket) rest = record rest { spawned = peer_socket ∷ rest.spawned }
after_accept s (thrown peer_socket error) rest = record {
  listen_socket = s;
  spawned = [];
  ex = some error;
}

-- The `for` loop.
unfoldable pub accept_loop : ℕ → Socket → List Accepted → Acceptor
accept_loop service s [] = record { listen_socket = s; spawned = []; ex = none }
accept_loop service s (a ∷ answers) =
    after_accept s (accept_one service a) (accept_loop service s answers)

abbrev pub after_set_up : ℕ → List Accepted → Outcome Socket → Acceptor
after_set_up service answers (returned s) = accept_loop service s answers
after_set_up service answers (thrown s error) = record {
  listen_socket = s;
  spawned = [];
  ex = some error;
}

unfoldable pub acceptor : ByteOrder → ℕ → ℕ → Setup → List Accepted → Acceptor
acceptor order port_number service setup answers =
    after_set_up service answers (set_up order port_number setup file_descriptor)

-- Behind the loop `acceptor` waits for its clients, asks the service to stop and throws again what
-- it caught.
pub data AcceptorEnd : Type 0 where
  accepting joining : AcceptorEnd
  rethrows : ErrorCode → AcceptorEnd

abbrev end_of : ℕ → Option ErrorCode → AcceptorEnd
end_of running none = accepting
end_of running (some error) = if running == 0 then rethrows error else joining

-- With the number of clients that still run; the socket that listens is destroyed at the end.
pub acceptor_end : ℕ → Acceptor → AcceptorEnd
acceptor_end running a = end_of running a.ex
