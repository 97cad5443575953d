-- ===== src/Prelude/Bits.antt =====
-- Facts about the bit operations: tables over a byte, and digit laws at every width.
use Prim.Native.Nat.{ℕ, zero, suc, ◌+◌, ◌*◌, ◌/◌, ◌%◌, ◌^◌, ◌≤◌, ◌<◌, max}
use Prim.Native.Nat.{bit_or, bit_xor, digits, differ, bit_or-bitwise, bit_xor-bitwise}
use native.Mathlib.Nat.{pow-suc}
use mathlib.Core.Path.{◌≡◌, refl, ap}
use mathlib.Core.Bool.{Bool, true, ◌&&◌}
use native.Mathlib.Omega.{arith}
use xynet.Prelude.Tests.{◌==◌, ==_iff}

-- A test of every number below `n`, by evaluation.
unfoldable pub every_below : (ℕ → Bool) → ℕ → Bool
every_below test zero = true
every_below test (suc n) = every_below test n && test n

every_below-test : (test : ℕ → Bool) (n x : ℕ) → x < n → every_below test n ≡ true → test x ≡ true
unfolding every_below
every_below-test test zero x small tested = absurd (omega arith)
every_below-test test (suc n) x small tested = ground (arith, every_below-test test n x)

-- Two functions that a table finds equal are equal below its size.
pub table :
    (n : ℕ) (f g : ℕ → ℕ) → every_below (λ x. f x == g x) n ≡ true → (x : ℕ) → x < n → f x ≡ g x
table n f g tested x small =
    (==_iff (f x) (g x)).0 (every_below-test (λ y. f y == g y) n x small tested)

-- The native `|` and `^` are recursions over digits on fuel, and any two amounts that are enough
-- agree.
enough_fuel :
    (f : ℕ → ℕ → ℕ) (a b n m : ℕ)
    → a ≤ n
    → a ≤ m
    → digits (λ y. y) f n a b ≡ digits (λ y. y) f m a b
enough_fuel f zero b zero zero = λ _ _. refl
enough_fuel f zero b zero (suc m) = λ _ _. refl
enough_fuel f zero b (suc n) zero = λ _ _. refl
enough_fuel f zero b (suc n) (suc m) = λ _ _. refl
enough_fuel f (suc a) b zero m = λ short _. absurd (omega arith)
enough_fuel f (suc a) b (suc n) zero = λ _ short. absurd (omega arith)
enough_fuel f (suc a) b (suc n) (suc m) = λ h k.
    ap (λ d. d * 2 + f (suc a % 2) (b % 2))
      (enough_fuel f (suc a / 2) (b / 2) n m (omega arith) (omega arith))

zero-bit_or : (b : ℕ) → bit_or 0 b ≡ b
zero-bit_or b = bit_or-bitwise 0 b

-- The lowest binary digit of a disjunction.
bit_or_digit : (a b : ℕ) → bit_or a b ≡ bit_or (a / 2) (b / 2) * 2 + max (a % 2) (b % 2)
bit_or_digit zero b = omega (arith, zero-bit_or b, zero-bit_or (b / 2))
bit_or_digit (suc a) b = omega (
  arith,
  bit_or-bitwise (suc a) b,
  bit_or-bitwise (suc a / 2) (b / 2),
  enough_fuel max (suc a / 2) (b / 2) a (suc a / 2) (omega arith) (omega arith),
)

bit_or-zero : (a : ℕ) → bit_or a 0 ≡ a
bit_or-zero a = up_to a a (omega arith)
  where
    up_to : (bound b : ℕ) → b ≤ bound → bit_or b 0 ≡ b
    up_to bound zero small = zero-bit_or 0
    up_to zero (suc b) small = absurd (omega arith)
    up_to (suc bound) (suc b) small =
        omega (arith, up_to bound (suc b / 2) (omega arith), bit_or_digit (suc b) 0)

half_shifted : (k a q : ℕ) → a ≡ q * 2 ^ suc k → (a / 2 ≡ q * 2 ^ k) × (a % 2 ≡ 0)
half_shifted k a q e =
    let f : q * 2 ^ suc k ≡ 2 * (q * 2 ^ k) = omega (arith, ap (λ (t : ℕ). q * t) (pow-suc 2 k)) in
    omega arith

-- `(q << k) | r` is a sum where `r` fits the low `k` bits.
pub bit_or_shifted : (k a q r : ℕ) → a ≡ q * 2 ^ k → r < 2 ^ k → bit_or a r ≡ a + r
bit_or_shifted zero a q r e h =
    let none_left : r ≡ 0 = omega arith in rw none_left (omega (arith, bit_or-zero a))
bit_or_shifted (suc k) a q r e h =
    ground
      (arith, bit_or_digit a r, pow-suc 2 k, half_shifted k a q, bit_or_shifted k (a / 2) q (r / 2))

differ_digits : (x y : ℕ) → x < 2 → y < 2 → (differ x y < 2) × (differ (differ x y) y ≡ x)
differ_digits zero zero h k = omega arith
differ_digits zero (suc zero) h k = omega arith
differ_digits zero (suc (suc y)) h k = absurd (omega arith)
differ_digits (suc zero) zero h k = omega arith
differ_digits (suc zero) (suc zero) h k = omega arith
differ_digits (suc zero) (suc (suc y)) h k = absurd (omega arith)
differ_digits (suc (suc x)) y h k = absurd (omega arith)

zero-bit_xor : (b : ℕ) → bit_xor 0 b ≡ b
zero-bit_xor b = bit_xor-bitwise 0 b

differ-zero : (y : ℕ) → differ 0 y ≡ y
differ-zero y = refl

bit_xor_digit : (a b : ℕ) → bit_xor a b ≡ bit_xor (a / 2) (b / 2) * 2 + differ (a % 2) (b % 2)
bit_xor_digit zero b = omega (arith, zero-bit_xor b, zero-bit_xor (b / 2), differ-zero (b % 2))
bit_xor_digit (suc a) b = omega (
  arith,
  bit_xor-bitwise (suc a) b,
  bit_xor-bitwise (suc a / 2) (b / 2),
  enough_fuel differ (suc a / 2) (b / 2) a (suc a / 2) (omega arith) (omega arith),
)

bit_xor_twice_fuel : (n a b : ℕ) → a ≤ n → b ≤ n → bit_xor (bit_xor a b) b ≡ a
bit_xor_twice_fuel zero zero zero p q = refl
bit_xor_twice_fuel zero zero (suc b) p q = absurd (omega arith)
bit_xor_twice_fuel zero (suc a) b p q = absurd (omega arith)
bit_xor_twice_fuel (suc n) a b p q = ground (
  arith,
  bit_xor_digit a b,
  bit_xor_digit (bit_xor a b) b,
  differ_digits (a % 2) (b % 2),
  bit_xor_twice_fuel n (a / 2) (b / 2) (omega arith) (omega arith),
)

pub bit_xor_twice : (a b : ℕ) → bit_xor (bit_xor a b) b ≡ a
bit_xor_twice a b = bit_xor_twice_fuel (a + b) a b (omega arith) (omega arith)
