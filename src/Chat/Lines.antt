-- ===== src/Chat/Lines.antt =====
-- The lines of a stream of bytes, against which the parser of example/chat/chat_server.cpp is held.
use xynet.Prelude.{ℕ, suc, ◌+◌, ◌≤◌, ◌<◌, ◌≡◌, refl, arith, ◌∙◌, ap, sym}
use xynet.Prelude.{◌==◌, Bool-cases, inl, inr, true, false}
use xynet.Prelude.{List, [], ◌∷◌, ◌++◌, length, length-append, take, drop, none, some, Option-cases}
use mathlib.Core.List.{append-nil, append_assoc}
use mathlib.Core.Path.{subst}
use xynet.Chat.{find}

-- The finished lines, each with its newline, and the unfinished rest; `line` is read already.
unfoldable pub lines_from : List ℕ → List ℕ → List (List ℕ) × List ℕ
lines_from line [] = ([], line)
lines_from line (c ∷ cs) = elim (c == 10) [
  | true ↦ let (ls, rest) = lines_from [] cs in ((line ++ (c ∷ [])) ∷ ls, rest)
  | false ↦ lines_from (line ++ (c ∷ [])) cs
]

lines_from_newline :
    (line : List ℕ) (c : ℕ) (cs : List ℕ)
    → (c == 10) ≡ true
    → lines_from line (c ∷ cs) ≡ ((line ++ (c ∷ [])) ∷ (lines_from [] cs).0, (lines_from [] cs).1)
unfolding lines_from
lines_from_newline line c cs e = rw (e, lines_from) refl

lines_from_more :
    (line : List ℕ) (c : ℕ) (cs : List ℕ)
    → (c == 10) ≡ false
    → lines_from line (c ∷ cs) ≡ lines_from (line ++ (c ∷ [])) cs
unfolding lines_from
lines_from_more line c cs e = rw (e, lines_from) refl

-- The bytes have no newline.
abbrev pub IsOpen : List ℕ → Type 0
IsOpen bytes = find 10 bytes ≡ none

find_head : (c : ℕ) (bs : List ℕ) → IsOpen (c ∷ bs) → ((c == 10) ≡ false) × IsOpen bs
unfolding find
find_head c bs h = elim (Bool-cases (c == 10)) [
  | inl e ↦ absurd (ground (arith, h, e))
  | inr e ↦ (e, ground (arith, h, e))
]

pub lines_from-append :
    (line xs ys : List ℕ)
    → lines_from line (xs ++ ys) ≡ (
      (lines_from line xs).0 ++ (lines_from (lines_from line xs).1 ys).0,
      (lines_from (lines_from line xs).1 ys).1,
    )
unfolding lines_from
lines_from-append line [] ys = refl
lines_from-append line (x ∷ xs) ys = elim (Bool-cases (x == 10)) [
  | inl e ↦
      simp (lines_from_newline line x _ e)
        (ap (λ r. ((line ++ (x ∷ [])) ∷ r.0, r.1)) (lines_from-append [] xs ys))
  | inr e ↦ simp (lines_from_more line x _ e) (lines_from-append (line ++ (x ∷ [])) xs ys)
]

pub lines_from_open : (line xs : List ℕ) → IsOpen xs → lines_from line xs ≡ ([], line ++ xs)
unfolding lines_from
lines_from_open line [] h = ap (λ l. ([], l)) (sym (append-nil line))
lines_from_open line (x ∷ xs) h =
    let (e, later) = find_head x xs h in
    lines_from_more line x xs e
    ∙ (lines_from_open (line ++ (x ∷ [])) xs later
        ∙ ap (λ l. ([], l)) (append_assoc line (x ∷ []) xs))

-- A newline at `pos` ends the line that is being read.
abbrev EndsAt : ℕ → List ℕ → List ℕ → Type 0
EndsAt pos line xs =
    (pos < length xs)
    × (lines_from line xs ≡ (
      (line ++ take (suc pos) xs) ∷ (lines_from [] (drop (suc pos) xs)).0,
      (lines_from [] (drop (suc pos) xs)).1,
    ))

find_tail :
    (c : ℕ) (bs : List ℕ) (pos : ℕ)
    → (c == 10) ≡ false
    → find 10 (c ∷ bs) ≡ some pos
    → (later : ℕ) × (find 10 bs ≡ some later) × (pos ≡ suc later)
unfolding find
find_tail c bs pos e h = elim (Option-cases (find 10 bs)) [
  | inl missing ↦ absurd (ground (arith, h, e, missing))
  | inr (later, q) ↦ (later, q, ground (arith, h, e, q))
]

pub lines_from_found : (line xs : List ℕ) (pos : ℕ) → find 10 xs ≡ some pos → EndsAt pos line xs
unfolding lines_from find
lines_from_found line [] pos h = absurd (cc)
lines_from_found line (x ∷ xs) pos h = elim (Bool-cases (x == 10)) [
  | inl e ↦
      let at_once : 0 ≡ pos = ground (arith, h, e) in
      subst (λ p. EndsAt p line (x ∷ xs)) at_once (omega arith, lines_from_newline line x xs e)
  | inr e ↦
      let (later, found, q) = find_tail x xs pos e h in
      let (short, ih) = lines_from_found (line ++ (x ∷ [])) xs later found in
      subst (λ p. EndsAt p line (x ∷ xs)) (sym q)
        (
          omega arith,
          lines_from_more line x xs e
              ∙ (ih
                  ∙ ap
                      (λ l. (
                        l ∷ (lines_from [] (drop (suc later) xs)).0,
                        (lines_from [] (drop (suc later) xs)).1,
                      ))
                      (append_assoc line (x ∷ []) (take (suc later) xs))),
        )
]

-- The unfinished rest is no longer than what was read.
pub length-lines_from : (line xs : List ℕ) → length (lines_from line xs).1 ≤ length line + length xs
unfolding lines_from
length-lines_from line [] = omega arith
length-lines_from line (x ∷ xs) = elim (Bool-cases (x == 10)) [
  | inl e ↦
      omega (arith, ap (λ r. length r.1) (lines_from_newline line x xs e), length-lines_from [] xs)
  | inr e ↦ omega (
    arith,
    ap (λ r. length r.1) (lines_from_more line x xs e),
    length-lines_from (line ++ (x ∷ [])) xs,
    length-append line (x ∷ []),
  )
]

-- A rest without a newline may be read again, with what follows it.
pub lines_from_again :
    (line xs : List ℕ) → IsOpen line → lines_from [] (line ++ xs) ≡ lines_from line xs
lines_from_again line xs h =
    lines_from-append [] line xs
    ∙ ap (λ r. (r.0 ++ (lines_from r.1 xs).0, (lines_from r.1 xs).1)) (lines_from_open [] line h)
