-- ===== src/Buffer/Commit.antt =====
-- commit on the addresses of the bytes that are still to be transferred.
use xynet.Prelude.{ℕ, zero, suc, ◌+◌, ◌-◌, ◌≤◌, ◌<◌, ◌≡◌, ◌≢◌, ◌↔◌, refl, arith, ◌∙◌, ap, sym}
use xynet.Prelude.{leb, ◌==◌, if◌then◌else◌}
use xynet.Prelude.{
  List, [], ◌∷◌, ◌++◌, length, drop, All, length-append, drop-nil, length-drop, none,
}
use xynet.Buffer.{Iovec, BufferSequence, commit_loop, commit, get_iov_ptr, iov_ptr}

-- `len` addresses from `base` on.
abbrev pub region : ℕ → ℕ → List ℕ
region base zero = []
region base (suc len) = base ∷ region (base + 1) len

abbrev pub addresses : List Iovec → List ℕ
addresses [] = []
addresses (v ∷ vs) = region v.iov_base v.iov_len ++ addresses vs

pub length-region : (base len : ℕ) → length (region base len) ≡ len
length-region base zero = refl
length-region base (suc len) = ap suc (length-region (base + 1) len)

-- Within one entry, and past it.
drop-region :
    (n base len : ℕ) (rest : List ℕ)
    → n ≤ len
    → drop n (region base len ++ rest) ≡ region (base + n) (len - n) ++ rest
drop-region zero base len rest h = ap (λ (p : ℕ × ℕ). region p.0 p.1 ++ rest) (ground arith)
drop-region (suc n) base zero rest h = absurd (omega arith)
drop-region (suc n) base (suc len) rest h =
    drop-region n (base + 1) len rest (omega arith)
    ∙ ap (λ (p : ℕ × ℕ). region p.0 p.1 ++ rest) (ground arith)

drop_past :
    (n base len : ℕ) (rest : List ℕ)
    → len ≤ n
    → drop n (region base len ++ rest) ≡ drop (n - len) rest
drop_past n base zero rest h = ap (λ (m : ℕ). drop m rest) (omega arith)
drop_past zero base (suc len) rest h = absurd (omega arith)
drop_past (suc n) base (suc len) rest h =
    drop_past n (base + 1) len rest (omega arith) ∙ ap (λ (m : ℕ). drop m rest) (omega arith)

regroup : (n m len : ℕ) → len ≤ n → (n - len) + m ≡ (n + m) - len
regroup n m len h = omega arith

-- The entries that `commit` leaves, by themselves.
remaining : ℕ → List Iovec → List Iovec
remaining len [] = []
remaining len (v ∷ vs) =
    let advanced = remaining (len - v.iov_len) vs in
    if len == 0
    then v ∷ vs
    else if leb v.iov_len len
    then advanced
    else record { iov_base = v.iov_base + len; iov_len = v.iov_len - len } ∷ vs

commit_loop-remaining :
    (len : ℕ) (passed pending : List Iovec)
    → (commit_loop len passed pending).pending ≡ remaining len pending
unfolding commit_loop remaining
commit_loop-remaining len passed [] = refl
commit_loop-remaining len passed (v ∷ vs) =
    ground (arith, commit_loop-remaining (len - v.iov_len) (passed ++ (v ∷ [])) vs)

commit-remaining : (len : ℕ) (b : BufferSequence) → (commit len b).pending ≡ remaining len b.pending
unfolding commit
commit-remaining len b = commit_loop-remaining len b.passed b.pending

remaining-addresses :
    (len : ℕ) (pending : List Iovec)
    → addresses (remaining len pending) ≡ drop len (addresses pending)
unfolding remaining
remaining-addresses len [] = sym (drop-nil len)
remaining-addresses len (v ∷ vs) = ground (
  arith,
  drop_past len v.iov_base v.iov_len (addresses vs),
  drop-region len v.iov_base v.iov_len (addresses vs),
  remaining-addresses (len - v.iov_len) vs,
)

-- `commit` takes the first `n` bytes off what is to be transferred, across entries of any length,
-- empty ones too, and everything if there are fewer.
pub commit-addresses :
    (n : ℕ) (b : BufferSequence) → addresses (commit n b).pending ≡ drop n (addresses b.pending)
commit-addresses n b = rw (commit-remaining n b) (remaining-addresses n b.pending)

remaining-remaining :
    (n m : ℕ) (pending : List Iovec) → remaining m (remaining n pending) ≡ remaining (n + m) pending
unfolding remaining
remaining-remaining n m [] = refl
remaining-remaining n m (v ∷ vs) = ground (arith, remaining-remaining (n - v.iov_len) m vs)

-- The entries that are left depend on the sum of the commits only.
commit-commit :
    (n m : ℕ) (b : BufferSequence) → (commit m (commit n b)).pending ≡ (commit (n + m) b).pending
commit-commit n m b =
    rw (commit-remaining m (commit n b), commit-remaining n b, commit-remaining (n + m) b)
      (remaining-remaining n m b.pending)

abbrev pub NonEmpty : List Iovec → Type 0
NonEmpty = All (λ v. 0 < v.iov_len)

remaining-NonEmpty :
    (len : ℕ) (pending : List Iovec) → NonEmpty pending → NonEmpty (remaining len pending)
unfolding remaining
remaining-NonEmpty len [] h = tt
remaining-NonEmpty len (v ∷ vs) h = ground (arith, remaining-NonEmpty (len - v.iov_len) vs h.1)

pub commit-NonEmpty :
    (n : ℕ) (b : BufferSequence) → NonEmpty b.pending → NonEmpty (commit n b).pending
commit-NonEmpty n b h = rw (commit-remaining n b) (remaining-NonEmpty n b.pending h)

pub some_left : (v : Iovec) (vs : List Iovec) → 0 < v.iov_len → 0 < length (addresses (v ∷ vs))
some_left v vs h = omega (
  arith,
  length-append (region v.iov_base v.iov_len) (addresses vs),
  length-region v.iov_base v.iov_len,
)

pub null_iff :
    (passed pending : List Iovec)
    → NonEmpty pending
    → (iov_ptr passed pending ≡ none) ↔ (length (addresses pending) ≡ 0)
null_iff passed [] h = (λ _. refl, λ _. refl)
null_iff passed (v ∷ vs) h = (λ e. absurd (cc e), λ e. absurd (omega (arith, some_left v vs h.0)))

-- Where no entry is empty, the pointer is null after a commit exactly when the commit took
-- everything that was left.
get_iov_ptr-commit :
    (n : ℕ) (b : BufferSequence)
    → NonEmpty b.pending
    → (get_iov_ptr (commit n b) ≡ none) ↔ (length (addresses b.pending) ≤ n)
unfolding get_iov_ptr
get_iov_ptr-commit n b h =
    let c = commit n b in
    let (null, zero_left) = null_iff c.passed c.pending (commit-NonEmpty n b h) in
    let e : length (addresses c.pending) ≡ length (addresses b.pending) - n =
      ap length (commit-addresses n b) ∙ length-drop n (addresses b.pending) in
    (λ p. omega (arith, null p), λ p. zero_left (omega arith))

length-addresses :
    (v : Iovec) (vs : List Iovec) → length (addresses (v ∷ vs)) ≡ v.iov_len + length (addresses vs)
length-addresses v vs = omega (
  arith,
  length-append (region v.iov_base v.iov_len) (addresses vs),
  length-region v.iov_base v.iov_len,
)

past_entry :
    (v : Iovec) (vs : List Iovec) → length (addresses (v ∷ vs)) - v.iov_len ≡ length (addresses vs)
past_entry v vs = omega (arith, length-addresses v vs)

remaining_front :
    (front rest : List Iovec)
    → NonEmpty front
    → remaining (length (addresses front)) (front ++ rest) ≡ rest
unfolding remaining
remaining_front [] [] h = refl
remaining_front [] (e ∷ rest) h = refl
remaining_front (v ∷ vs) rest h = ground (
  arith,
  length-addresses v vs,
  remaining_front vs rest h.1,
  ap (λ (k : ℕ). remaining k (vs ++ rest)) (past_entry v vs),
)

-- A commit of all the bytes of entries that are not empty leaves the entries behind them, empty
-- ones too: where the sequence ends in an empty entry, all its bytes are committed and the
-- pointer is not null.
pub commit_empty_entry :
    (b : BufferSequence) (front rest : List Iovec) (e : Iovec)
    → b.pending ≡ front ++ (e ∷ rest)
    → NonEmpty front
    → let c = commit (length (addresses front)) b in (c.pending ≡ e ∷ rest) × (get_iov_ptr c ≢ none)
unfolding get_iov_ptr
commit_empty_entry b front rest e p h =
    let n = length (addresses front) in
    let left : (commit n b).pending ≡ e ∷ rest =
      commit-remaining n b ∙ ap (remaining n) p ∙ remaining_front front (e ∷ rest) h in
    (left, λ null. cc (left, null))
