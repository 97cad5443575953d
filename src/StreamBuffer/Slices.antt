-- ===== src/StreamBuffer/Slices.antt =====
-- Slices of a list, and what writes, moves and growth do to them.
use xynet.Prelude.{ℕ, zero, suc, ◌+◌, ◌-◌, ◌≤◌, ◌<◌, ◌≡◌, refl, arith, ◌∙◌, ap, sym}
use xynet.Prelude.{
  List, [], ◌∷◌, ◌++◌, length, take, drop, set, get_elem?, length-append, length-take, length-drop,
}
use xynet.Prelude.{drop-drop}
use xynet.StreamBuffer.{slice}

-- `bytes` written over a list from the offset `p` on.
pub write_at : ℕ → List ℕ → List ℕ → List ℕ
write_at zero bytes xs = bytes ++ drop (length bytes) xs
write_at (suc p) bytes [] = []
write_at (suc p) bytes (x ∷ xs) = x ∷ write_at p bytes xs

pub length-write_at :
    (p : ℕ) (bytes xs : List ℕ)
    → p + length bytes ≤ length xs
    → length (write_at p bytes xs) ≡ length xs
unfolding write_at
length-write_at zero bytes xs h =
    omega (arith, length-append bytes (drop (length bytes) xs), length-drop (length bytes) xs)
length-write_at (suc p) bytes [] h = refl
length-write_at (suc p) bytes (x ∷ xs) h = ap suc (length-write_at p bytes xs (omega arith))

pub take-append_le : (n : ℕ) (xs ys : List ℕ) → n ≤ length xs → take n (xs ++ ys) ≡ take n xs
take-append_le zero xs ys h = refl
take-append_le (suc n) [] ys h = absurd (omega arith)
take-append_le (suc n) (x ∷ xs) ys h = ap (λ t. x ∷ t) (take-append_le n xs ys (omega arith))

pub take_whole : (n : ℕ) (xs ys : List ℕ) → n ≡ length xs → take n (xs ++ ys) ≡ xs
take_whole zero [] ys e = refl
take_whole zero (x ∷ xs) ys e = absurd (omega arith)
take_whole (suc n) [] ys e = absurd (omega arith)
take_whole (suc n) (x ∷ xs) ys e = ap (λ t. x ∷ t) (take_whole n xs ys (omega arith))

take-write_at :
    (p n : ℕ) (bytes xs : List ℕ)
    → p ≤ length xs
    → n ≡ p + length bytes
    → take n (write_at p bytes xs) ≡ take p xs ++ bytes
unfolding write_at
take-write_at zero n bytes xs h e = take_whole n bytes _ (omega arith)
take-write_at (suc p) n bytes [] h e = absurd (omega arith)
take-write_at (suc p) zero bytes (x ∷ xs) h e = absurd (omega arith)
take-write_at (suc p) (suc n) bytes (x ∷ xs) h e =
    ap (λ t. x ∷ t) (take-write_at p n bytes xs (omega arith) (omega arith))

drop-write_at :
    (g p : ℕ) (bytes xs : List ℕ)
    → g ≤ p
    → p ≤ length xs
    → drop g (write_at p bytes xs) ≡ write_at (p - g) bytes (drop g xs)
unfolding write_at
drop-write_at zero p bytes xs h k = ap (λ (m : ℕ). write_at m bytes xs) (omega arith)
drop-write_at (suc g) zero bytes xs h k = absurd (omega arith)
drop-write_at (suc g) (suc p) bytes [] h k = absurd (omega arith)
drop-write_at (suc g) (suc p) bytes (x ∷ xs) h k =
    drop-write_at g p bytes xs (omega arith) (omega arith)
    ∙ ap (λ (m : ℕ). write_at m bytes (drop g xs)) (omega arith)

-- A slice that ends where the write starts grows by what is written.
pub slice-write_at :
    (g p n : ℕ) (bytes xs : List ℕ)
    → g ≤ p
    → p ≤ length xs
    → n ≡ p + length bytes
    → slice g n (write_at p bytes xs) ≡ slice g p xs ++ bytes
slice-write_at g p n bytes xs h k e =
    ap (take (n - g)) (drop-write_at g p bytes xs h k)
    ∙ take-write_at (p - g) (n - g) bytes (drop g xs) (omega (arith, length-drop g xs))
        (omega arith)

pub length-slice : (g p : ℕ) (xs : List ℕ) → g ≤ p → p ≤ length xs → length (slice g p xs) ≡ p - g
length-slice g p xs h k = omega (arith, length-take (p - g) (drop g xs), length-drop g xs)

-- One character.
pub set-write_at : (p c : ℕ) (xs : List ℕ) → p < length xs → set xs p c ≡ write_at p (c ∷ []) xs
unfolding write_at
set-write_at p c [] h = absurd (omega arith)
set-write_at zero c (x ∷ xs) h = refl
set-write_at (suc p) c (x ∷ xs) h = ap (λ t. x ∷ t) (set-write_at p c xs (omega arith))

take-take : (m n : ℕ) (xs : List ℕ) → m ≤ n → take m (take n xs) ≡ take m xs
take-take zero n xs h = refl
take-take (suc m) zero xs h = absurd (omega arith)
take-take (suc m) (suc n) [] h = refl
take-take (suc m) (suc n) (x ∷ xs) h = ap (λ t. x ∷ t) (take-take m n xs (omega arith))

take-nil : (n : ℕ) → take {A = ℕ} n [] ≡ []
take-nil zero = refl
take-nil (suc n) = refl

drop-take : (m n : ℕ) (xs : List ℕ) → drop m (take n xs) ≡ take (n - m) (drop m xs)
drop-take zero n xs = ap (λ (k : ℕ). take k xs) (omega arith)
drop-take (suc m) zero xs =
    let e : 0 ≡ 0 - suc m = omega arith in ap (λ k. take k (drop (suc m) xs)) e
drop-take (suc m) (suc n) [] = sym (take-nil (suc n - suc m))
drop-take (suc m) (suc n) (x ∷ xs) =
    drop-take m n xs ∙ ap (λ (k : ℕ). take k (drop m xs)) (omega arith)

pub slice-drop : (n g p : ℕ) (xs : List ℕ) → drop n (slice g p xs) ≡ slice (g + n) p xs
slice-drop n g p xs =
    drop-take n (p - g) (drop g xs)
    ∙ rw (drop-drop n g xs) (ap (λ (k : ℕ). take k (drop (g + n) xs)) (omega arith))

first-take : (n : ℕ) (xs : List ℕ) → 0 < n → get_elem? (take n xs) 0 ≡ get_elem? xs 0
first-take zero xs h = absurd (omega arith)
first-take (suc n) [] h = refl
first-take (suc n) (x ∷ xs) h = refl

first-drop : (g : ℕ) (xs : List ℕ) → get_elem? (drop g xs) 0 ≡ get_elem? xs g
first-drop zero [] = refl
first-drop zero (x ∷ xs) = refl
first-drop (suc g) [] = refl
first-drop (suc g) (x ∷ xs) = first-drop g xs

-- The first element of a slice.
pub first-slice : (g p : ℕ) (xs : List ℕ) → g < p → get_elem? (slice g p xs) 0 ≡ get_elem? xs g
first-slice g p xs h = first-take (p - g) (drop g xs) (omega arith) ∙ first-drop g xs
