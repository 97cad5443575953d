-- ===== src/Serving/Memory.antt =====
-- The memory of a process, as a function from addresses to bytes, and the value of eight of them.
use xynet.Prelude.{
  ℕ, zero, suc, ◌+◌, ◌*◌, ◌/◌, ◌%◌, ◌^◌, ◌<◌, ◌≤◌, ◌≡◌, refl, arith, ap, sym, ◌∙◌, List, [], ◌∷◌,
  ◌++◌, map, length, get_or, ◌==◌, if◌then◌else◌,
}
use xynet.Buffer.Commit.{region}

abbrev pub Memory : Type 0
Memory = ℕ → ℕ

-- Bytes that come in, stored at addresses one after another.
unfoldable pub store : List ℕ → List ℕ → Memory → Memory
store [] bytes m = m
store (a ∷ addrs) [] m = m
store (a ∷ addrs) (x ∷ bytes) m = store addrs bytes (λ p. if p == a then x else m p)

-- The bytes of a number, and the number of bytes, on a little-endian machine.
unfoldable pub to_bytes : ℕ → ℕ → List ℕ
to_bytes zero n = []
to_bytes (suc k) n = n % 256 ∷ to_bytes k (n / 256)

unfoldable pub from_bytes : List ℕ → ℕ
from_bytes [] = 0
from_bytes (b ∷ bytes) = b + 256 * from_bytes bytes

pub from_bytes-to_bytes : (k n : ℕ) → n < 256 ^ k → from_bytes (to_bytes k n) ≡ n
unfolding to_bytes from_bytes
from_bytes-to_bytes zero n h = omega arith
from_bytes-to_bytes (suc k) n h =
    let rest : from_bytes (to_bytes k (n / 256)) ≡ n / 256 =
      from_bytes-to_bytes k (n / 256) (omega arith) in
    ap (λ v. n % 256 + 256 * v) rest ∙ omega arith

pub length-to_bytes : (k n : ℕ) → length (to_bytes k n) ≡ k
unfolding to_bytes
length-to_bytes zero n = refl
length-to_bytes (suc k) n = ap suc (length-to_bytes k (n / 256))

-- What is stored from an address on leaves what is before it, and is read back.
store-before :
    (n base p : ℕ) (bytes : List ℕ) (m : Memory) → p < base → store (region base n) bytes m p ≡ m p
unfolding store
store-before zero base p bytes m h = refl
store-before (suc n) base p [] m h = refl
store-before (suc n) base p (x ∷ bytes) m h =
    store-before n (base + 1) p bytes (λ q. if q == base then x else m q) (omega arith)
    ∙ ground arith

pub store-region :
    (n base i : ℕ) (bytes : List ℕ) (m : Memory)
    → i < n
    → n ≤ length bytes
    → store (region base n) bytes m (base + i) ≡ get_or bytes i 0
unfolding store
store-region zero base i bytes m h enough = absurd (omega arith)
store-region (suc n) base i [] m h enough = absurd (omega arith)
store-region (suc n) base zero (x ∷ bytes) m h enough =
    store-before n (base + 1) (base + 0) bytes (λ q. if q == base then x else m q) (omega arith)
    ∙ ground arith
store-region (suc n) base (suc i) (x ∷ bytes) m h enough =
    ap (store (region (base + 1) n) bytes (λ q. if q == base then x else m q)) (omega arith)
    ∙ store-region n (base + 1) i bytes (λ q. if q == base then x else m q) (omega arith)
        (omega arith)

-- Two regions that hold the same bytes.
pub map-region :
    (n a b : ℕ) (f g : Memory)
    → ((i : ℕ) → i < n → f (a + i) ≡ g (b + i))
    → map f (region a n) ≡ map g (region b n)
map-region zero a b f g h = refl
map-region (suc n) a b f g h =
    let next : (x i : ℕ) → x + 1 + i ≡ x + suc i = λ x i. omega arith in
    let here : (x : ℕ) → x ≡ x + 0 = λ x. omega arith in
    let first : f a ≡ g b = ap f (here a) ∙ h 0 (omega arith) ∙ ap g (sym (here b)) in
    let later : (i : ℕ) → i < n → f (a + 1 + i) ≡ g (b + 1 + i) =
      λ i small. ap f (next a i) ∙ h (suc i) (omega arith) ∙ ap g (sym (next b i)) in
    let rest = map-region n (a + 1) (b + 1) f g later in λ i. first i ∷ rest i

pub get_or-map-region :
    (n a i : ℕ) (f : Memory) (later : List ℕ)
    → i < n
    → get_or (map f (region a n) ++ later) i 0 ≡ f (a + i)
get_or-map-region zero a i f later h = absurd (omega arith)
get_or-map-region (suc n) a zero f later h = ap f (omega arith)
get_or-map-region (suc n) a (suc i) f later h =
    get_or-map-region n (a + 1) i f later (omega arith) ∙ ap f (omega arith)

pub map-store :
    (base : ℕ) (bytes : List ℕ) (m : Memory)
    → map (store (region base (length bytes)) bytes m) (region base (length bytes)) ≡ bytes
unfolding store
map-store base [] m = refl
map-store base (x ∷ bytes) m =
    let m' : Memory = λ q. if q == base then x else m q in
    let first : store (region (base + 1) (length bytes)) bytes m' base ≡ x =
      store-before (length bytes) (base + 1) base bytes m' (omega arith) ∙ ground arith in
    let rest = map-store (base + 1) bytes m' in λ i. first i ∷ rest i
