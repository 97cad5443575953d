-- ===== src/Handshake/Base64.antt =====
-- base64_encode of websocket_request_handler.h, and the encoding of RFC 4648, section 4.
use xynet.Prelude.{
  ℕ, ◌+◌, ◌-◌, ◌*◌, ap, ◌∙◌, ltb, ◌==◌, if◌then◌else◌, ◌/◌, ◌%◌, ◌<◌, ◌^◌, ◌≡◌, refl, arith, List,
  [], ◌∷◌, get_or, bit_and, bit_or, All, length,
}
use xynet.Prelude.Bits.{table, bit_or_shifted}
use xynet.Handshake.Strings.{basis_64}
use xynet.Prelude.Bits.{every_below}

abbrev pub digit : ℕ → ℕ
digit n = get_or basis_64 n 0

unfoldable pub base64_encode : List ℕ → List ℕ
base64_encode [] = []
base64_encode (a ∷ []) = digit (bit_and (a / 4) 0x3F) ∷ digit (bit_and a 0x3 * 16) ∷ 61 ∷ 61 ∷ []
base64_encode (a ∷ b ∷ []) =
    digit (bit_and (a / 4) 0x3F)
    ∷ digit (bit_or (bit_and a 0x3 * 16) (bit_and b 0xF0 / 16))
    ∷ digit (bit_and b 0xF * 4)
    ∷ 61
    ∷ []
base64_encode (a ∷ b ∷ c ∷ rest) =
    digit (bit_and (a / 4) 0x3F)
    ∷ digit (bit_or (bit_and a 0x3 * 16) (bit_and b 0xF0 / 16))
    ∷ digit (bit_or (bit_and b 0xF * 4) (bit_and c 0xC0 / 64))
    ∷ digit (bit_and c 0x3F)
    ∷ base64_encode rest

-- The alphabet of RFC 4648, table 1: the capital letters, the small ones, the decimal digits, `+`
-- and `/`.
abbrev pub alphabet : ℕ → ℕ
alphabet v =
    if ltb v 26
    then b'A' + v
    else if ltb v 52
    then b'a' + (v - 26)
    else if ltb v 62
    then b'0' + (v - 52)
    else if v == 62
    then b'+'
    else b'/'

digit-alphabet : (v : ℕ) → v < 64 → digit v ≡ alphabet v
unfolding every_below
digit-alphabet = table 64 digit alphabet refl

-- 24 bits as four values of 6 bits, the last group filled up with zeros and `=`.
abbrev sextet : ℕ → ℕ → ℕ
sextet group k = alphabet (group / 64 ^ k % 64)

-- A digit of the code whose index is such a value.
digit-sextet : (n group k : ℕ) → n ≡ group / 64 ^ k % 64 → digit n ≡ sextet group k
digit-sextet n group k e = ap digit e ∙ digit-alphabet (group / 64 ^ k % 64) (omega arith)

pub base64 : List ℕ → List ℕ
base64 [] = []
base64 (a ∷ []) = let g = a * 65536 in sextet g 3 ∷ sextet g 2 ∷ 61 ∷ 61 ∷ []
base64 (a ∷ b ∷ []) = let g = a * 65536 + b * 256 in sextet g 3 ∷ sextet g 2 ∷ sextet g 1 ∷ 61 ∷ []
base64 (a ∷ b ∷ c ∷ rest) =
    let g = a * 65536 + b * 256 + c in
    sextet g 3 ∷ sextet g 2 ∷ sextet g 1 ∷ sextet g 0 ∷ base64 rest

high_six : (a : ℕ) → a < 256 → bit_and (a / 4) 0x3F ≡ a / 4
unfolding every_below
high_six = table 256 (λ a. bit_and (a / 4) 0x3F) (λ a. a / 4) refl

low_two : (a : ℕ) → a < 256 → bit_and a 0x3 ≡ a % 4
unfolding every_below
low_two = table 256 (λ a. bit_and a 0x3) (λ a. a % 4) refl

high_four : (b : ℕ) → b < 256 → bit_and b 0xF0 / 16 ≡ b / 16
unfolding every_below
high_four = table 256 (λ b. bit_and b 0xF0 / 16) (λ b. b / 16) refl

low_four : (b : ℕ) → b < 256 → bit_and b 0xF ≡ b % 16
unfolding every_below
low_four = table 256 (λ b. bit_and b 0xF) (λ b. b % 16) refl

high_two : (c : ℕ) → c < 256 → bit_and c 0xC0 / 64 ≡ c / 64
unfolding every_below
high_two = table 256 (λ c. bit_and c 0xC0 / 64) (λ c. c / 64) refl

low_six : (c : ℕ) → c < 256 → bit_and c 0x3F ≡ c % 64
unfolding every_below
low_six = table 256 (λ c. bit_and c 0x3F) (λ c. c % 64) refl

-- Two digits of a group, as the code computes them and as numbers.
second_digit :
    (a b c : ℕ)
    → a < 256
    → b < 256
    → c < 256
    → bit_or (bit_and a 0x3 * 16) (bit_and b 0xF0 / 16) ≡ (a * 65536 + b * 256 + c) / 64 ^ 2 % 64
second_digit a b c h k m = omega (
  arith,
  low_two a h,
  high_four b k,
  bit_or_shifted 4 (bit_and a 0x3 * 16) (bit_and a 0x3) (bit_and b 0xF0 / 16) (omega arith)
      (omega (arith, high_four b k)),
)

third_digit :
    (a b c : ℕ)
    → b < 256
    → c < 256
    → bit_or (bit_and b 0xF * 4) (bit_and c 0xC0 / 64) ≡ (a * 65536 + b * 256 + c) / 64 ^ 1 % 64
third_digit a b c k m = omega (
  arith,
  low_four b k,
  high_two c m,
  bit_or_shifted 2 (bit_and b 0xF * 4) (bit_and b 0xF) (bit_and c 0xC0 / 64) (omega arith)
      (omega (arith, high_two c m)),
)

-- On bytes, the code encodes as RFC 4648 says, with the alphabet of its table 1.
pub base64_encode-base64 :
    (bytes : List ℕ) → All (λ b. b < 256) bytes → base64_encode bytes ≡ base64 bytes
unfolding base64_encode base64
base64_encode-base64 [] h = refl
base64_encode-base64 (a ∷ []) (ha, _) =
    let e0 : bit_and (a / 4) 0x3F ≡ a * 65536 / 64 ^ 3 % 64 = omega (arith, high_six a ha) in
    let e1 : bit_and a 0x3 * 16 ≡ a * 65536 / 64 ^ 2 % 64 = omega (arith, low_two a ha) in
    let g = a * 65536 in λ i. digit-sextet _ g 3 e0 i ∷ digit-sextet _ g 2 e1 i ∷ 61 ∷ 61 ∷ []
base64_encode-base64 (a ∷ b ∷ []) (ha, (hb, _)) =
    let e0 : bit_and (a / 4) 0x3F ≡ (a * 65536 + b * 256) / 64 ^ 3 % 64 =
      omega (arith, high_six a ha) in
    let e1 : bit_or (bit_and a 0x3 * 16) (bit_and b 0xF0 / 16)
        ≡ (a * 65536 + b * 256) / 64 ^ 2 % 64 =
      omega (arith, second_digit a b 0 ha hb (omega arith)) in
    let e2 : bit_and b 0xF * 4 ≡ (a * 65536 + b * 256) / 64 ^ 1 % 64 =
      omega (arith, low_four b hb) in
    let g = a * 65536 + b * 256 in
    λ i. digit-sextet _ g 3 e0 i ∷ digit-sextet _ g 2 e1 i ∷ digit-sextet _ g 1 e2 i ∷ 61 ∷ []
base64_encode-base64 (a ∷ b ∷ c ∷ rest) (ha, (hb, (hc, h))) =
    let e0 : bit_and (a / 4) 0x3F ≡ (a * 65536 + b * 256 + c) / 64 ^ 3 % 64 =
      omega (arith, high_six a ha) in
    let e3 : bit_and c 0x3F ≡ (a * 65536 + b * 256 + c) / 64 ^ 0 % 64 =
      omega (arith, low_six c hc) in
    let g = a * 65536 + b * 256 + c in
    λ i.
      digit-sextet _ g 3 e0 i
      ∷ digit-sextet _ g 2 (second_digit a b c ha hb hc) i
      ∷ digit-sextet _ g 1 (third_digit a b c hb hc) i
      ∷ digit-sextet _ g 0 e3 i
      ∷ base64_encode-base64 rest h i

pub length-base64_encode :
    (bytes : List ℕ) → length (base64_encode bytes) ≡ 4 * ((length bytes + 2) / 3)
unfolding base64_encode
length-base64_encode [] = omega arith
length-base64_encode (a ∷ []) = omega arith
length-base64_encode (a ∷ b ∷ []) = omega arith
length-base64_encode (a ∷ b ∷ c ∷ rest) = omega (arith, length-base64_encode rest)
