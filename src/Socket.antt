-- ===== src/Socket.antt =====
-- file_descriptor_base of include/xynet/file_descriptor.h, detail/sync_operation.h and the
-- operations of include/xynet/socket/impl. A descriptor is an `int`; what `::close` is called with
-- is kept as a list, in order.
pub mod Address
pub mod Sync
pub mod Async
pub mod Calls
pub mod Text
pub mod DecimalText
mod Tests
use xynet.Prelude.{ℕ, ◌+◌, Bool, true, false, not, if◌then◌else◌, List, [], ◌∷◌, ◌≡◌, refl}
use xynet.Prelude.Int.{ℤ, pos, negsuc}
use xynet.Operation.{ErrorCode, is_error, is_negative, no_error, system_error}
use xynet.Socket.Address.{SocketAddress, socket_address}

-- A file descriptor with the module `address`.
pub record Socket : Type 0 where
  pub m_fd : ℤ
  pub m_local_address : SocketAddress
  pub m_peer_address : SocketAddress

abbrev pub no_fd : ℤ
no_fd = negsuc 0

unfoldable pub file_descriptor : Socket
unfolding socket_address
file_descriptor = record {
  m_fd = no_fd;
  m_local_address = socket_address;
  m_peer_address = socket_address;
}

abbrev pub set_fd : ℤ → Socket → Socket
set_fd fd s = record s { m_fd = fd }

-- The members of `address`.
abbrev pub set_local_address : SocketAddress → Socket → Socket
set_local_address local_address s = record s { m_local_address = local_address }

abbrev pub set_peer_address : SocketAddress → Socket → Socket
set_peer_address peer_address s = record s { m_peer_address = peer_address }

abbrev pub valid : Socket → Bool
valid s = not (is_negative s.m_fd)

-- `close__`, with what it closes.
unfoldable pub close__ : Socket → Socket × List ℤ
close__ s = (set_fd no_fd s, s.m_fd ∷ [])

-- The destructor, with what it closes.
unfoldable pub destroy : Socket → List ℤ
unfolding close__
destroy s = if valid s then (close__ s).1 else []

-- The move constructor of the descriptor: the new number, and the other descriptor.
unfoldable pub move_fd : Socket → ℤ × Socket
move_fd other = (other.m_fd, set_fd no_fd other)

-- What a system call returns, with `errno` after it.
pub record Answer : Type 0 where
  pub ret : ℤ
  pub errno : ℕ

-- `sync_operation`, on what `on_success` changes.
unfoldable pub sync_operation {ℓ} : {A : Type ℓ} → Answer → (ℤ → A → A) → A → A × ErrorCode
sync_operation answer on_success a =
    if is_negative answer.ret
    then (a, system_error answer.errno)
    else (on_success answer.ret a, no_error)

-- What a function leaves, and whether it throws.
pub data Outcome {ℓ} (A : Type ℓ) : Type ℓ where
  returned : A → Outcome A
  thrown : A → ErrorCode → Outcome A

-- The overloads that throw call the others with a clear error code.
unfoldable pub or_throw {ℓ} : {A : Type ℓ} → A × ErrorCode → Outcome A
or_throw (a, error) = if is_error error then thrown a error else returned a
