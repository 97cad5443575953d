-- ===== src/Socket/DecimalText.antt =====
-- An instance of the conversions that the text of an address relies on (detail/endian.h): the text
-- of an address is its number.
use xynet.Prelude.{
  ℕ, zero, suc, ◌+◌, ◌/◌, ◌%◌, ◌^◌, ◌<◌, ◌≤◌, ◌≡◌, refl, arith, ap, ◌∙◌, ltb, ltb_iff,
  if◌then◌else◌, List, [], ◌∷◌, length, count, count-append, Option, none, some, sym, Bool-cases,
  inl, inr,
}
use xynet.Socket.Text.{InetText, digits, number_from, number-digits, length-digits}

count-digits : (fuel n : ℕ) → count b':' (digits fuel n) ≡ 0
unfolding digits
count-digits zero n = refl
count-digits (suc fuel) n = ground (
  arith,
  count-digits fuel (n / 10),
  count-append b':' (digits fuel (n / 10)) ((48 + n % 10) ∷ []),
)

-- The text of a number below 10 ^ 10.
abbrev pub decimal : ℕ → Option (List ℕ)
decimal a = if ltb a (10 ^ 10) then some (digits 10 a) else none

decimal-digits :
    (a : ℕ) (text : List ℕ) → decimal a ≡ some text → (a < 10 ^ 10) × (digits 10 a ≡ text)
decimal-digits a text e = elim (Bool-cases (ltb a (10 ^ 10))) [
  | inl small ↦ ((ltb_iff a (10 ^ 10)).0 small, cc (rw small at e))
  | inr large ↦ absurd (cc (rw large at e))
]

pub decimal-short : (a : ℕ) (text : List ℕ) → decimal a ≡ some text → length text ≤ 15
decimal-short a text e =
    let (_, same) = decimal-digits a text e in omega (arith, ap length same, length-digits 10 a)

pub decimal-plain : (a : ℕ) (text : List ℕ) → decimal a ≡ some text → count b':' text ≡ 0
decimal-plain a text e =
    let (_, same) = decimal-digits a text e in
    omega (arith, ap (count b':') same, count-digits 10 a)

pub decimal-read :
    (a : ℕ) (text : List ℕ) → decimal a ≡ some text → some (number_from 0 text) ≡ some a
decimal-read a text e =
    let (small, same) = decimal-digits a text e in
    ap some (ap (number_from 0) (sym same) ∙ number-digits 10 a small)

abbrev pub decimal_text : InetText
decimal_text = record {
  inet_ntop = decimal;
  inet_pton = λ text. some (number_from 0 text);
  short = decimal-short;
  plain = decimal-plain;
  read = decimal-read;
}
