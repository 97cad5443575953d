-- ===== src/Socket/Address.antt =====
-- socket_address of socket/impl/address.h, with the byte order of detail/endian.h. A `sockaddr_in`
-- is its port and address as they are stored, in network order.
use xynet.Prelude.{ℕ, ◌<◌, ◌^◌, ltb, ◌==◌, if◌then◌else◌, Bool, true, false, ◌≡◌, ◌↔◌, ◌⊎◌, arith}

-- What the code relies on of the C library's conversions.
pub record ByteOrder : Type 0 where
  pub htons : ℕ → ℕ
  pub ntohs : ℕ → ℕ
  pub htonl : ℕ → ℕ
  pub ntohs-htons : (port : ℕ) → port < 2 ^ 16 → ntohs (htons port) ≡ port

pub record SocketAddress : Type 0 where
  pub sin_port : ℕ
  pub s_addr : ℕ

unfoldable pub socket_address : SocketAddress
socket_address = record { sin_port = 0; s_addr = 0 }

-- `INADDR_ANY` is 0.
unfoldable pub any_address : ByteOrder → ℕ → SocketAddress
any_address order port = record { sin_port = order.htons port; s_addr = order.htonl 0 }

unfoldable pub port : ByteOrder → SocketAddress → ℕ
port order a = order.ntohs a.sin_port

pub data StrongOrdering : Type 0 where
  less equal greater : StrongOrdering

abbrev pub compare_numbers : ℕ → ℕ → StrongOrdering
compare_numbers a b = if a == b then equal else if ltb a b then less else greater

abbrev pub is_eq : StrongOrdering → Bool
is_eq less = false
is_eq equal = true
is_eq greater = false

-- `operator<=>`, with the places of the two objects.
unfoldable pub compare_addresses : ℕ → SocketAddress → ℕ → SocketAddress → StrongOrdering
compare_addresses this a rhs b =
    let same_object = compare_numbers this rhs in
    let same_address = compare_numbers a.s_addr b.s_addr in
    if is_eq same_object
    then same_object
    else if is_eq same_address
    then same_address
    else compare_numbers a.sin_port b.sin_port

-- Two addresses at different places compare as equal when they have the same IP or the same port,
-- not only when they have both.
compare_addresses-equal :
    (this rhs : ℕ) (a b : SocketAddress)
    → (this == rhs) ≡ false
    → (compare_addresses this a rhs b ≡ equal) ↔ ((a.s_addr ≡ b.s_addr) ⊎ (a.sin_port ≡ b.sin_port))
unfolding compare_addresses
compare_addresses-equal this rhs a b apart = ground arith
