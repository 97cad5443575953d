-- ===== src/Serving/Acceptor/Clients.antt =====
-- Which clients the acceptor of example/include/common/server.h serves, and how it ends.
use xynet.Prelude.{
  ℕ, ◌<◌, ◌^◌, ◌≡◌, ◌≢◌, ◌⊎◌, refl, arith, ◌∙◌, ap, false, if◌then◌else◌, List, [], ◌∷◌, ◌+◌,
  Option, none, some,
}
use xynet.Prelude.Int.{ℤ, pos, negsuc}
use xynet.Operation.{ErrorCode, async_operation, no_error, system_error, set_value, is_negative}
use xynet.Socket.{
  Socket, Answer, Outcome, returned, thrown, destroy, close__, or_throw, sync_operation,
  file_descriptor,
}
use xynet.Socket.Address.{SocketAddress, ByteOrder, any_address, port}
use xynet.Socket.Sync.{
  init, init_throwing, bind_throwing, listen_throwing, bind, listen, setsockopt,
}
use xynet.Socket.Async.{accept_result, accepted}
use xynet.Serving.{throwing}
use xynet.Serving.Acceptor.{
  reuse_address, reuse_address_throwing, Setup, set_up, Accepted, accept_one, Acceptor, accept_loop,
  after_set_up, acceptor,
}

-- A failing system call sets `errno`.
abbrev pub IsAnswered : Answer → Type 0
IsAnswered answer = (is_negative answer.ret ≡ false) ⊎ (answer.errno ≢ 0)

-- The first system call that fails.
abbrev error_or : Answer → Option ErrorCode → Option ErrorCode
error_or answer later = if is_negative answer.ret then some (system_error answer.errno) else later

abbrev pub setup_error : Setup → Option ErrorCode
setup_error setup = error_or setup.socket_answer (
    error_or setup.setsockopt_answer
      (error_or setup.bind_answer (error_or setup.listen_answer none)))

-- The sockets of the accepts up to the first that fails, and its error.
abbrev client : ℤ → SocketAddress → Socket
client fd peer_addr = record file_descriptor { m_fd = fd; m_peer_address = peer_addr }

abbrev pub clients : List Accepted → List Socket
clients [] = []
clients (a ∷ answers) =
    let later = clients answers in
    if is_negative a.cqe.res then [] else client a.cqe.res a.peer_addr ∷ later

abbrev error_code_of : ℤ → ErrorCode
error_code_of (pos n) = no_error
error_code_of (negsuc k) = system_error (k + 1)

abbrev pub accept_error : List Accepted → Option ErrorCode
accept_error [] = none
accept_error (a ∷ answers) =
    let later = accept_error answers in
    if is_negative a.cqe.res then some (error_code_of a.cqe.res) else later

accept_one_lem :
    (service : ℕ) (res : ℤ) (a : Accepted)
    → a.cqe.res ≡ res
    → accept_one service a ≡ accepted throwing a.peer_addr res
unfolding accept_result set_value async_operation
accept_one_lem service res a e = ground arith

accept_loop_lem :
    (service : ℕ) (s : Socket) (answers : List Accepted)
    → accept_loop service s answers
      ≡ record { listen_socket = s; spawned = clients answers; ex = accept_error answers }
unfolding accept_loop
accept_loop_lem service s [] = refl
accept_loop_lem service s (a ∷ answers) =
    ground (arith, accept_one_lem service a.cqe.res a refl, accept_loop_lem service s answers)

abbrev pub opened : ℤ → List ℤ
opened (pos fd) = pos fd ∷ []
opened (negsuc k) = []

abbrev left_by : Outcome Socket → Socket
left_by (returned s) = s
left_by (thrown s error) = s

abbrev error_in : Outcome Socket → Option ErrorCode
error_in (returned s) = none
error_in (thrown s error) = some error

abbrev pub IsSetup : Setup → Type 0
IsSetup setup =
    IsAnswered setup.socket_answer
    × IsAnswered setup.setsockopt_answer
    × IsAnswered setup.bind_answer
    × IsAnswered setup.listen_answer

module _ (order : ByteOrder) (port_number : ℕ) (setup : Setup) (ok : IsSetup setup) where
  abbrev prepared : Outcome Socket
  prepared = set_up order port_number setup file_descriptor

  set_up-error : error_in prepared ≡ setup_error setup
  unfolding set_up init_throwing init reuse_address_throwing reuse_address setsockopt bind_throwing
      listen_throwing bind listen or_throw sync_operation
  set_up-error = ground arith

  set_up-opened : destroy (left_by prepared) ≡ opened setup.socket_answer.ret
  unfolding set_up init_throwing init reuse_address_throwing reuse_address setsockopt bind_throwing
      listen_throwing bind listen or_throw sync_operation destroy close__ file_descriptor
  set_up-opened = ground arith

  set_up-port :
      port_number < 2 ^ 16
      → port_number ≢ 0
      → setup_error setup ≡ none
      → port order (left_by prepared).m_local_address ≡ port_number
  unfolding set_up init_throwing init reuse_address_throwing reuse_address setsockopt bind_throwing
      listen_throwing bind listen or_throw sync_operation any_address port
  set_up-port small given e = ground (arith, order.ntohs-htons port_number small)

abbrev pub or_later : Option ErrorCode → Option ErrorCode → Option ErrorCode
or_later none later = later
or_later (some error) later = some error

abbrev pub clients_after : Option ErrorCode → List Accepted → List Socket
clients_after none answers = clients answers
clients_after (some error) answers = []

module _ (order : ByteOrder) (port_number service : ℕ) (setup : Setup)
    (answers : List Accepted) where
  abbrev left : Acceptor
  left = acceptor order port_number service setup answers

  after_set_up_lem :
      (r : Outcome Socket)
      → after_set_up service answers r ≡ record {
        listen_socket = left_by r;
        spawned = clients_after (error_in r) answers;
        ex = or_later (error_in r) (accept_error answers);
      }
  after_set_up_lem (returned s) = accept_loop_lem service s answers
  after_set_up_lem (thrown s error) = refl

  -- Where a system call that fails sets `errno`: the clients that are spawned are those of the
  -- accepts before the first that fails, in order, each on its own descriptor and with the address
  -- of its peer, and none where the set-up failed; the exception is that of the first failure, and
  -- there is none as long as nothing fails; the end of the listening socket closes the descriptor
  -- that `::socket` gave, if it gave one.
  pub acceptor-clients :
      IsSetup setup
      → (left.spawned ≡ clients_after (setup_error setup) answers)
        × (left.ex ≡ or_later (setup_error setup) (accept_error answers))
        × (destroy left.listen_socket ≡ opened setup.socket_answer.ret)
  unfolding acceptor
  acceptor-clients ok =
      let e = set_up-error order port_number setup ok in
      let same = after_set_up_lem (set_up order port_number setup file_descriptor) in
      (
        ap (λ a. a.spawned) same ∙ ap (λ error. clients_after error answers) e,
        ap (λ a. a.ex) same ∙ ap (λ error. or_later error (accept_error answers)) e,
        ap (λ a. destroy a.listen_socket) same ∙ set_up-opened order port_number setup ok,
      )

  -- A server that is set up listens at its port, where that is below 2 ^ 16 and not 0.
  acceptor-port :
      IsSetup setup
      → port_number < 2 ^ 16
      → port_number ≢ 0
      → setup_error setup ≡ none
      → port order left.listen_socket.m_local_address ≡ port_number
  unfolding acceptor
  acceptor-port ok small given e =
      ap (λ a. port order a.listen_socket.m_local_address)
        (after_set_up_lem (set_up order port_number setup file_descriptor))
      ∙ set_up-port order port_number setup ok small given e
