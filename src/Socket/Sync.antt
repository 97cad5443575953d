-- ===== src/Socket/Sync.antt =====
-- The operations that are one system call: init, bind, listen, shutdown and setsockopt.
use xynet.Prelude.{
  ℕ, ◌<◌, ◌^◌, ◌⊎◌, ◌==◌, if◌then◌else◌, Bool, true, false, List, [], ◌∷◌, ◌++◌, ◌≡◌, ◌≢◌, arith,
}
use xynet.Prelude.Int.{ℤ, pos, negsuc}
use xynet.Operation.{ErrorCode, no_error, system_error}
use xynet.Socket.{
  set_local_address, Socket, no_fd, set_fd, valid, destroy, close__, Answer, sync_operation,
  Outcome, thrown, or_throw,
}
use xynet.Socket.Address.{SocketAddress, ByteOrder, port, any_address}

abbrev pub is_no_fd : ℤ → Bool
is_no_fd (pos n) = false
is_no_fd (negsuc n) = n == 0

-- `init`, with what it closes.
unfoldable pub init : Answer → Socket → (Socket × ErrorCode) × List ℤ
init answer s = (sync_operation answer set_fd s, if is_no_fd s.m_fd then [] else s.m_fd ∷ [])

-- `bind`; `name` is what `::getsockname` gives.
unfoldable pub bind :
    ByteOrder → SocketAddress → SocketAddress → Answer → Socket → Socket × ErrorCode
bind order address name answer s =
    let bound = if port order address == 0 then name else address in
    sync_operation answer (λ ret file. set_local_address bound file) s

unfoldable pub listen : Answer → Socket → Socket × ErrorCode
listen answer s = sync_operation answer (λ ret file. file) s

-- The overloads that throw.
unfoldable pub bind_throwing :
    ByteOrder → SocketAddress → SocketAddress → Answer → Socket → Outcome Socket
unfolding bind
bind_throwing order address name answer s = or_throw (bind order address name answer s)

unfoldable pub listen_throwing : Answer → Socket → Outcome Socket
unfolding listen
listen_throwing answer s = or_throw (listen answer s)

unfoldable pub shutdown : Answer → Socket → Socket × ErrorCode
shutdown answer s = sync_operation answer (λ ret file. file) s

unfoldable pub shutdown_throwing : Answer → Socket → Outcome Socket
shutdown_throwing answer s = or_throw (shutdown answer s)

-- The overload with an error code alone calls the one that throws; what becomes of its error code.
unfoldable pub shutdown_write : Answer → ErrorCode → Socket → Outcome Socket × ErrorCode
shutdown_write answer error s = (shutdown_throwing answer s, error)

unfoldable pub setsockopt : Answer → Socket → Socket × ErrorCode
setsockopt answer s = sync_operation answer (λ ret file. file) s

unfoldable pub init_throwing : Answer → Socket → Outcome Socket
init_throwing answer s = or_throw (init answer s).0

-- Where `::socket` gives a descriptor, `init` clears the error code, has closed what the socket
-- held (a descriptor or none), once, and the new descriptor is what the end of its life closes.
destroy-init :
    (answer : Answer) (s : Socket) (fd : ℕ)
    → answer.ret ≡ pos fd
    → (valid s ≡ true) ⊎ (s.m_fd ≡ no_fd)
    → let ((s', error), closed) = init answer s in
      (error ≡ no_error) × (closed ≡ destroy s) × (destroy s' ≡ pos fd ∷ [])
unfolding init sync_operation destroy close__
destroy-init answer s fd e held = ground arith

-- Where `::socket` fails on a socket that was open, the socket keeps the closed descriptor: it is
-- closed again at the end of the socket's life.
init_failure :
    (answer : Answer) (s : Socket) (fd k : ℕ)
    → s.m_fd ≡ pos fd
    → answer.ret ≡ negsuc k
    → let ((s', error), closed) = init answer s in
      (error ≡ system_error answer.errno) × (closed ++ destroy s' ≡ pos fd ∷ pos fd ∷ [])
unfolding init sync_operation destroy close__
init_failure answer s fd k e f = ground arith

-- The overload of `shutdown` with an error code alone throws where the system call fails with an
-- `errno` other than 0, and leaves the caller's error code as it was, whatever happens.
shutdown_write-error :
    (answer : Answer) (error : ErrorCode) (s : Socket) (k : ℕ)
    → answer.ret ≡ negsuc k
    → answer.errno ≢ 0
    → shutdown_write answer error s ≡ (thrown s (system_error answer.errno), error)
unfolding shutdown_write shutdown_throwing shutdown sync_operation or_throw
shutdown_write-error answer error s k e set = ground arith

-- A successful `bind` to a port under 2 ^ 16 other than 0 leaves an address with that port as the
-- local address.
port-bind :
    (order : ByteOrder) (n k : ℕ) (name : SocketAddress) (answer : Answer) (s : Socket)
    → n < 2 ^ 16
    → n ≢ 0
    → answer.ret ≡ pos k
    → let (s', error) = bind order (any_address order n) name answer s in
      (error ≡ no_error) × (s'.m_fd ≡ s.m_fd) × (port order s'.m_local_address ≡ n)
unfolding bind sync_operation any_address port
port-bind order n k name answer s small given e = ground (arith, order.ntohs-htons n small)
