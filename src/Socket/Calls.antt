-- ===== src/Socket/Calls.antt =====
-- `co_await` of the members `accept` and `connect` of socket/impl, by the arguments before which the
-- library chooses a policy: `await_ready`, the submission, the completion and `get_result`.
use xynet.Prelude.{
  ℕ, suc, ◌≡◌, refl, arith, Bool, true, false, if◌then◌else◌, List, [], ◌∷◌, Option, none, some,
}
use xynet.Prelude.Int.{ℤ, pos, negsuc}
use xynet.Operation.{
  AsyncOperationBase, Cqe, ErrorCode, Policy, TraitArgument, duration, error_code, async_operation,
  async_operation_traits, await_ready, is_error, no_error, system_error, set_value,
}
use xynet.Socket.{
  Socket, Outcome, returned, thrown, file_descriptor, destroy, close__, set_peer_address,
}
use xynet.Socket.Address.{SocketAddress}
use xynet.Socket.Async.{accept_result, connect_result}

-- How an awaited call ends: no overload takes the arguments, the submission goes through the null
-- pointer of a thread without an io_service, or a result with what is then in the error code.
pub data Called : Type 0 where
  no_overload null_service : Called
  finished : Outcome Socket → ErrorCode → Called

-- An operation with one completion.
abbrev after_submit :
    (AsyncOperationBase → Outcome Socket) → Cqe → AsyncOperationBase → Option ℕ → Called
after_submit get_result cqe base none = null_service
after_submit get_result cqe base (some service) =
    let base' = set_value cqe.res cqe.flags base in finished (get_result base') base'.error

unfoldable pub co_await :
    (AsyncOperationBase → Outcome Socket) → Bool → Cqe → AsyncOperationBase → Called
co_await get_result initial_check cqe base =
    if await_ready base initial_check
    then finished (get_result base) base.error
    else after_submit get_result cqe base base.mp_service

-- The arguments for which `async_operation` has a constructor.
abbrev has_constructor : List TraitArgument → Bool
has_constructor [] = true
has_constructor (duration ∷ []) = true
has_constructor (error_code ∷ []) = true
has_constructor (duration ∷ error_code ∷ []) = true
has_constructor _ = false

abbrev constructor_policy : List TraitArgument → Option Policy
constructor_policy arguments =
    if has_constructor arguments then async_operation_traits arguments else none

abbrev accept_under : Option ℕ → ErrorCode → Cqe → SocketAddress → Socket → Option Policy → Called
accept_under thread_io_service callers cqe peer_addr peer none = no_overload
accept_under thread_io_service callers cqe peer_addr peer (some policy) =
    co_await (λ base. accept_result policy base peer_addr peer) true cqe
      (async_operation policy thread_io_service callers)

-- `co_await s.accept(peer, arguments...)`; `peer_addr` is what the kernel writes.
unfoldable pub accept :
    Option ℕ → ErrorCode → List TraitArgument → Cqe → SocketAddress → Socket → Called
accept thread_io_service callers arguments cqe peer_addr peer =
    accept_under thread_io_service callers cqe peer_addr peer (constructor_policy arguments)

abbrev connect_under : Option ℕ → ErrorCode → Cqe → SocketAddress → Socket → Option Policy → Called
connect_under thread_io_service callers cqe address s none = no_overload
connect_under thread_io_service callers cqe address s (some policy) =
    co_await (λ base. connect_result policy base address s) true cqe
      (async_operation policy thread_io_service callers)

-- `co_await s.connect(address, arguments...)`
unfoldable pub connect :
    Option ℕ → ErrorCode → List TraitArgument → Cqe → SocketAddress → Socket → Called
connect thread_io_service callers arguments cqe address s =
    connect_under thread_io_service callers cqe address s (constructor_policy arguments)

-- The documented forms of the arguments: nothing, a duration, an error code, or both in this order.
pub data IsForm : List TraitArgument → Bool → Type 0 where
  throwing : IsForm [] false
  throwing_within : IsForm (duration ∷ []) false
  with_code : IsForm (error_code ∷ []) true
  with_code_within : IsForm (duration ∷ error_code ∷ []) true

form_policy :
    (arguments : List TraitArgument) (code : Bool)
    → IsForm arguments code
    → (policy : Policy) × (constructor_policy arguments ≡ some policy)
      × (policy.enable_error_code ≡ code)
unfolding async_operation_traits
form_policy _ _ throwing =
    (record { enable_timeout = false; enable_error_code = false }, refl, refl)
form_policy _ _ throwing_within =
    (record { enable_timeout = true; enable_error_code = false }, refl, refl)
form_policy _ _ with_code =
    (record { enable_timeout = false; enable_error_code = true }, refl, refl)
form_policy _ _ with_code_within =
    (record { enable_timeout = true; enable_error_code = true }, refl, refl)

-- How a call ends, by the answer of the kernel, with what a success and a failure leave of a socket.
abbrev described : Bool → ErrorCode → (ℕ → Socket) → Socket → ℤ → Called
described code callers succeeded failed (pos n) =
    finished (returned (succeeded n)) (if code then callers else no_error)
described code callers succeeded failed (negsuc k) =
    let error = system_error (suc k) in
    finished (if code then returned failed else thrown failed error) error

abbrev client : SocketAddress → ℕ → Socket
client peer_addr fd = record file_descriptor { m_fd = pos fd; m_peer_address = peer_addr }

module _ (service : ℕ) (arguments : List TraitArgument) (code : Bool) (callers : ErrorCode) where
  -- An accept into a new socket, with any documented arguments, in a thread with an io_service and
  -- with an error code that is clear, if one is given: a descriptor of the kernel is that of the
  -- socket, with the address of its peer; an error leaves the socket closed, and is in the caller's
  -- code, or thrown where there is none.
  pub accept-described :
      (cqe : Cqe) (peer_addr : SocketAddress)
      → IsForm arguments code
      → (code ≡ true → is_error callers ≡ false)
      → accept (some service) callers arguments cqe peer_addr file_descriptor
        ≡ described code callers (client peer_addr) file_descriptor cqe.res
  unfolding accept co_await await_ready accept_result set_value async_operation
  accept-described cqe peer_addr form clear =
      let (policy, e, coded) = form_policy arguments code form in rw e (ground arith)

  -- A connect, likewise: a success keeps the address of the peer, and an error changes nothing.
  connect-described :
      (cqe : Cqe) (address : SocketAddress) (s : Socket)
      → IsForm arguments code
      → (code ≡ true → is_error callers ≡ false)
      → connect (some service) callers arguments cqe address s
        ≡ described code callers (λ n. set_peer_address address s) s cqe.res
  unfolding connect co_await await_ready connect_result set_value async_operation
  connect-described cqe address s form clear =
      let (policy, e, coded) = form_policy arguments code form in rw e (ground arith)

  -- An accept with an error code that an earlier error has set: whatever descriptor the kernel
  -- gives, it is in no socket, so that nothing closes it.
  accept_stale :
      (cqe : Cqe) (fd : ℕ) (peer_addr : SocketAddress)
      → IsForm arguments code
      → code ≡ true
      → is_error callers ≡ true
      → cqe.res ≡ pos fd
      → (accept (some service) callers arguments cqe peer_addr file_descriptor
          ≡ finished (returned file_descriptor) callers)
        × (destroy file_descriptor ≡ [])
  unfolding accept co_await await_ready accept_result set_value async_operation destroy close__
      file_descriptor
  accept_stale cqe fd peer_addr form coded stale answer =
      let (policy, e, same) = form_policy arguments code form in (rw e (ground arith), refl)
