-- ===== src/Socket/Async.antt =====
-- The results of async_accept, async_connect and async_close of socket/impl.
use xynet.Prelude.{ℕ, ◌+◌, ◌⊎◌, if◌then◌else◌, true, false, List, [], ◌∷◌, ◌++◌, ◌≡◌, ◌≢◌, arith}
use xynet.Prelude.Int.{ℤ, pos, negsuc}
use xynet.Operation.{AsyncOperationBase, Cqe, Policy, is_error, set_value, system_error}
use xynet.Transfer.{Next, resume, submit, is_zero}
use xynet.Socket.{
  set_fd, set_peer_address, Socket, destroy, close__, Outcome, returned, thrown, file_descriptor,
}
use xynet.Socket.Address.{SocketAddress}

abbrev pub result_error {ℓ} : {A : Type ℓ} → Policy → AsyncOperationBase → A → Outcome A
result_error policy base a = if policy.enable_error_code then returned a else thrown a base.error

-- `async_accept::get_result`; `peer_addr` is what the kernel wrote.
unfoldable pub accept_result : Policy → AsyncOperationBase → SocketAddress → Socket → Outcome Socket
accept_result policy base peer_addr peer =
    if is_error base.error
    then result_error policy base peer
    else returned (set_peer_address peer_addr (set_fd base.m_res peer))

-- `async_connect::get_result`
unfoldable pub connect_result :
    Policy → AsyncOperationBase → SocketAddress → Socket → Outcome Socket
connect_result policy base addr s =
    if is_error base.error then result_error policy base s else returned (set_peer_address addr s)

pub record AsyncClose : Type 0 where
  pub base : AsyncOperationBase
  pub m_socket : Socket
  pub closed : List ℤ

-- `async_close::update_result`, with what `::close` returns and the list of what it was called with.
unfoldable pub close_update_result : ℤ → AsyncClose → AsyncClose × Next
close_update_result close_ret op =
    if is_error op.base.error
    then (op, resume)
    else if is_zero op.base.m_res
    then (
      record op {
        base = set_value close_ret op.base.m_flags op.base;
        closed = op.closed ++ (op.m_socket.m_fd ∷ []);
      },
      resume,
    )
    else (op, submit)

-- A completion of the kernel, and the callback.
unfoldable pub on_close_completed : Cqe → ℤ → AsyncClose → AsyncClose × Next
on_close_completed cqe close_ret op =
    close_update_result close_ret (record op { base = set_value cqe.res cqe.flags op.base })

unfoldable pub close_result : Policy → AsyncClose → Outcome AsyncClose
close_result policy op =
    if is_error op.base.error then result_error policy op.base op else returned op

-- What an accept into a new socket comes to, by the answer of the kernel.
abbrev pub accepted : Policy → SocketAddress → ℤ → Outcome Socket
accepted policy peer_addr (pos fd) =
    returned (record file_descriptor { m_fd = pos fd; m_peer_address = peer_addr })
accepted policy peer_addr (negsuc k) =
    if policy.enable_error_code
    then returned file_descriptor
    else thrown file_descriptor (system_error (k + 1))

-- An accept into a new socket that starts with a clear error code: with a descriptor the socket
-- has it, and the peer's address; an error of the kernel leaves the socket without a descriptor,
-- and is thrown where the caller gave no error code.
accept_result-set_value :
    (policy : Policy) (base : AsyncOperationBase) (cqe : Cqe) (peer_addr : SocketAddress)
    → is_error base.error ≡ false
    → accept_result policy (set_value cqe.res cqe.flags base) peer_addr file_descriptor
      ≡ accepted policy peer_addr cqe.res
unfolding accept_result set_value
accept_result-set_value policy base cqe peer_addr clear = ground arith

-- After a `close` that ends at the end of the stream, the socket still holds the descriptor that
-- was closed: it is closed again at the end of the socket's life.
close_twice :
    (base : AsyncOperationBase) (s : Socket) (fd : ℕ) (cqe : Cqe) (close_ret : ℤ)
    → is_error base.error ≡ false
    → s.m_fd ≡ pos fd
    → cqe.res ≡ pos 0
    → let (op, next) =
        on_close_completed cqe close_ret (record { base = base; m_socket = s; closed = [] }) in
      (next ≡ resume) × (op.closed ++ destroy op.m_socket ≡ pos fd ∷ pos fd ∷ [])
unfolding on_close_completed close_update_result set_value destroy close__
close_twice base s fd cqe close_ret clear e z = ground arith

-- A close that starts with a clear error code closes nothing before the end of the stream: data
-- leads to another read, an error to the end.
close_read :
    (op : AsyncClose) (cqe : Cqe) (close_ret : ℤ)
    → is_error op.base.error ≡ false
    → cqe.res ≢ pos 0
    → let (op', next) = on_close_completed cqe close_ret op in
      (op'.closed ≡ op.closed)
      × ((next ≡ submit) ⊎ ((next ≡ resume) × (is_error op'.base.error ≡ true)))
unfolding on_close_completed close_update_result set_value
close_read op cqe close_ret clear more = ground arith
