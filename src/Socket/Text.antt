-- ===== src/Socket/Text.antt =====
-- The text of an address: `to_str` of socket/impl/address.h, and the conversions of detail/endian.h.
-- A text is the list of its bytes.
use xynet.Prelude.{
  ℕ, zero, suc, ◌+◌, ◌-◌, ◌*◌, ◌/◌, ◌%◌, ◌^◌, ◌<◌, ◌≤◌, ◌≡◌, refl, arith, ◌∙◌, ap, sym, ltb,
  if◌then◌else◌, List, [], ◌∷◌, ◌++◌, length, length-append, take, take_all, Option, none, some,
  count, Bool-cases, Option-cases, inl, inr, ◌==◌,
}
use xynet.Socket.Address.{SocketAddress, ByteOrder}

-- What the code relies on of `inet_ntop` and `inet_pton`: the text of an IPv4 address has at most
-- 15 bytes, with no colon in it, and is read back; `none` is a failure.
pub record InetText : Type 0 where
  pub inet_ntop : ℕ → Option (List ℕ)
  pub inet_pton : List ℕ → Option ℕ
  pub short : (a : ℕ) (text : List ℕ) → inet_ntop a ≡ some text → length text ≤ 15
  pub plain : (a : ℕ) (text : List ℕ) → inet_ntop a ≡ some text → count b':' text ≡ 0
  pub read : (a : ℕ) (text : List ℕ) → inet_ntop a ≡ some text → inet_pton text ≡ some a

-- `%u` of a number with at most `fuel` digits.
unfoldable pub digits : ℕ → ℕ → List ℕ
digits zero n = []
digits (suc fuel) n =
    let front = digits fuel (n / 10) in
    if ltb n 10 then (48 + n) ∷ [] else front ++ ((48 + n % 10) ∷ [])

-- `ip_str_to_in_addr`: a text that is no address is 0.0.0.0.
abbrev or_zero : Option ℕ → ℕ
or_zero none = 0
or_zero (some a) = a

pub ip_str_to_in_addr : InetText → List ℕ → ℕ
ip_str_to_in_addr inet str = or_zero (inet.inet_pton str)

-- The constructor from a text and a port.
pub from_ip : InetText → ByteOrder → List ℕ → ℕ → SocketAddress
unfolding ip_str_to_in_addr
from_ip inet order ip port = record {
  sin_port = order.htons port;
  s_addr = ip_str_to_in_addr inet ip;
}

-- "INVALID"
abbrev invalid : List ℕ
invalid = b'I' ∷ b'N' ∷ b'V' ∷ b'A' ∷ b'L' ∷ b'I' ∷ b'D' ∷ []

abbrev host_of : Option (List ℕ) → List ℕ
host_of none = invalid
host_of (some text) = text

-- `sockaddr_in_to_c_str` into a buffer of `size` bytes: `snprintf` keeps one of them for the zero.
unfoldable pub sockaddr_in_to_c_str : InetText → ByteOrder → ℕ → SocketAddress → List ℕ
unfolding digits
sockaddr_in_to_c_str inet order size a =
    take (size - 1)
      (host_of (inet.inet_ntop a.s_addr) ++ (b':' ∷ digits 5 (order.ntohs a.sin_port)))

unfoldable pub to_str : InetText → ByteOrder → SocketAddress → List ℕ
unfolding sockaddr_in_to_c_str
to_str inet order a = sockaddr_in_to_c_str inet order 32 a

-- The number that digits write.
abbrev pub number_from : ℕ → List ℕ → ℕ
number_from acc [] = acc
number_from acc (c ∷ cs) = number_from (10 * acc + (c - 48)) cs

number_from-append :
    (acc : ℕ) (xs ys : List ℕ) → number_from acc (xs ++ ys) ≡ number_from (number_from acc xs) ys
number_from-append acc [] ys = refl
number_from-append acc (x ∷ xs) ys = number_from-append (10 * acc + (x - 48)) xs ys

pub number-digits : (fuel n : ℕ) → n < 10 ^ fuel → number_from 0 (digits fuel n) ≡ n
unfolding digits
number-digits zero n h = omega arith
number-digits (suc fuel) n h = elim (Bool-cases (ltb n 10)) [
  | inl one ↦ rw one (omega arith)
  | inr more ↦ rw more (
      number_from-append 0 (digits fuel (n / 10)) ((48 + n % 10) ∷ [])
      ∙ ap (λ acc. number_from acc ((48 + n % 10) ∷ [])) (number-digits fuel (n / 10) (omega arith))
      ∙ omega arith)
]

pub length-digits : (fuel n : ℕ) → length (digits fuel n) ≤ fuel
unfolding digits
length-digits zero n = omega arith
length-digits (suc fuel) n =
    ground (
      arith,
      length-digits fuel (n / 10),
      length-append (digits fuel (n / 10)) ((48 + n % 10) ∷ []),
    )

-- What stands before the first colon of a text, and what behind it.
abbrev pub before_colon : List ℕ → List ℕ
before_colon [] = []
before_colon (c ∷ cs) = let rest = before_colon cs in if c == b':' then [] else c ∷ rest

abbrev pub after_colon : List ℕ → List ℕ
after_colon [] = []
after_colon (c ∷ cs) = let rest = after_colon cs in if c == b':' then cs else rest

split_colon :
    (host rest : List ℕ)
    → count b':' host ≡ 0
    → (before_colon (host ++ (b':' ∷ rest)) ≡ host) × (after_colon (host ++ (b':' ∷ rest)) ≡ rest)
split_colon [] rest h = (refl, refl)
split_colon (c ∷ host) rest h = ground (arith, split_colon host rest)

module _ (inet : InetText) (order : ByteOrder) (a : SocketAddress) where
  abbrev written : List ℕ
  written = host_of (inet.inet_ntop a.s_addr) ++ (b':' ∷ digits 5 (order.ntohs a.sin_port))

  length-host : length (host_of (inet.inet_ntop a.s_addr)) ≤ 15
  length-host = elim (Option-cases (inet.inet_ntop a.s_addr)) [
    | inl e ↦ rw e (omega arith)
    | inr (text, e) ↦ rw e (inet.short a.s_addr text e)
  ]

  length-written : length written ≤ 21
  length-written = omega (
    arith,
    length-host,
    length-digits 5 (order.ntohs a.sin_port),
    length-append (host_of (inet.inet_ntop a.s_addr)) (b':' ∷ digits 5 (order.ntohs a.sin_port)),
  )

  to_str-written : to_str inet order a ≡ written
  unfolding to_str
  to_str-written = take_all 31 written (omega (arith, length-written))

  -- The text of an address has at most 21 bytes, so that the buffer of 32 cuts nothing off.
  pub length-to_str : length (to_str inet order a) ≤ 21
  length-to_str = rw to_str-written length-written

  -- An address is read back from its text, where the C library has one for its IP and its port is
  -- that of a number below 2 ^ 16.
  pub from_ip-to_str :
      (text : List ℕ) (p : ℕ)
      → inet.inet_ntop a.s_addr ≡ some text
      → a.sin_port ≡ order.htons p
      → p < 2 ^ 16
      → let str = to_str inet order a in
        from_ip inet order (before_colon str) (number_from 0 (after_colon str)) ≡ a
  unfolding from_ip ip_str_to_in_addr
  from_ip-to_str text p e named small =
      let bound : order.ntohs a.sin_port ≡ p = rw named (order.ntohs-htons p small) in
      let str : to_str inet order a ≡ text ++ (b':' ∷ digits 5 p) =
        to_str-written ∙ (λ i. host_of (e i) ++ (b':' ∷ digits 5 (bound i))) in
      let (before, after) = split_colon text (digits 5 p) (inet.plain a.s_addr text e) in
      let host : before_colon (to_str inet order a) ≡ text = ap before_colon str ∙ before in
      let number : number_from 0 (after_colon (to_str inet order a)) ≡ p =
        ap (λ l. number_from 0 (after_colon l)) str
        ∙ ap (number_from 0) after
        ∙ number-digits 5 p (omega arith) in
      let ip : or_zero (inet.inet_pton (before_colon (to_str inet order a))) ≡ a.s_addr =
        ap (λ l. or_zero (inet.inet_pton l)) host ∙ ap or_zero (inet.read a.s_addr text e) in
      λ i. record { sin_port = (ap order.htons number ∙ sym named) i; s_addr = ip i }
