-- ===== src/StreamBuffer/Queue.antt =====
-- A stream buffer as a queue of bytes: prepare, commit, consume, Placement, overflow and underflow.
use xynet.Prelude.{ℕ, ◌+◌, ◌-◌, ◌^◌, ◌≤◌, ◌<◌, ◌≡◌, refl, arith, ◌∙◌, ap, sym, min}
use xynet.Prelude.{ltb, ◌==◌, Bool-cases, inl, inr}
use xynet.Prelude.{List, [], ◌∷◌, ◌++◌, length, take, drop, set, get_elem?, some}
use xynet.Prelude.{drop_all}
use xynet.StreamBuffer.{StreamBuffer, stream_buffer, delta, bump, pbump, slice}
use xynet.StreamBuffer.{
  size, data_view, reserve, prepare, commit, consume, Placement, overflow, underflow,
}
use xynet.StreamBuffer.Slices.{
  write_at, length-write_at, slice-write_at, length-slice, set-write_at,
}
use xynet.StreamBuffer.Slices.{slice-drop, first-slice}
use xynet.StreamBuffer.Room.{IsValid, reserve-HasRoom}

-- The bytes that the caller writes into the span that `prepare` returned.
abbrev pub written : List ℕ → StreamBuffer → StreamBuffer
written bytes s = record s { m_buffer = write_at s.pptr bytes s.m_buffer }

commit-written :
    (bytes : List ℕ) (s : StreamBuffer)
    → IsValid s
    → length bytes ≤ s.epptr - s.pptr
    → let s' = commit (length bytes) (written bytes s) in
      IsValid s' × (data_view s' ≡ data_view s ++ bytes)
unfolding commit data_view
commit-written bytes s v room =
    let n = length bytes in
    let e : bump s.pptr (min n (s.epptr - s.pptr)) ≡ s.pptr + n = ground arith in
    (
      record {
        get_order = omega arith;
        end_order = omega arith;
        put_order = omega arith;
        at_end = v.at_end ∙ sym (length-write_at s.pptr bytes s.m_buffer (omega arith));
        small = v.small;
      },
      ap (λ (p : ℕ). slice s.gptr p (write_at s.pptr bytes s.m_buffer)) e
          ∙ slice-write_at s.gptr s.pptr (s.pptr + n) bytes s.m_buffer (omega arith) (omega arith)
              refl,
    )

-- To prepare room for `n` bytes, write at most so many there and commit them appends them to what
-- can be read, as long as the room stays below 2 ^ 31 bytes; the buffer stays valid.
pub commit-prepare :
    (n : ℕ) (bytes : List ℕ) (s : StreamBuffer)
    → IsValid s
    → length bytes ≤ n
    → size s + n < 2 ^ 31
    → let s' = commit (length bytes) (written bytes (prepare n s).0) in
      IsValid s' × (data_view s' ≡ data_view s ++ bytes)
unfolding prepare size
commit-prepare n bytes s v few fits =
    let (v', same, room, _) = reserve-HasRoom n s v fits in
    let (v'', appended) = commit-written bytes (reserve n s) v' (omega arith) in
    (v'', appended ∙ ap (λ l. l ++ bytes) same)

-- The length of what can be read.
pub length-data_view : (s : StreamBuffer) → IsValid s → length (data_view s) ≡ size s
unfolding data_view size
length-data_view s v = length-slice s.gptr s.pptr s.m_buffer (omega arith) (omega arith)

-- A new stream buffer has nothing to read.
pub stream_buffer_empty : (size stream_buffer ≡ 0) × (data_view stream_buffer ≡ [])
unfolding size data_view stream_buffer
stream_buffer_empty = (refl, refl)

-- `prepare` itself changes nothing that can be read, and leaves room for `n` bytes from `pptr` on.
pub prepare-IsValid :
    (n : ℕ) (s : StreamBuffer)
    → IsValid s
    → size s + n < 2 ^ 31
    → let s' = (prepare n s).0 in IsValid s' × (data_view s' ≡ data_view s)
unfolding prepare size
prepare-IsValid n s v fits = let (v', same, _, _) = reserve-HasRoom n s v fits in (v', same)

consume_fields :
    (place : Placement) (n : ℕ) (s : StreamBuffer)
    → IsValid s
    → place.address s + s.gptr + n < 2 ^ 64
    → let s' = consume place n s in
      (s'.gptr ≡ s.gptr + min n (s.pptr - s.gptr))
      × (s'.egptr ≡ s.pptr)
      × (s'.pptr ≡ s.pptr)
      × (s'.epptr ≡ s.epptr)
      × (s'.m_buffer ≡ s.m_buffer)
unfolding consume
consume_fields place n s v inside =
    (ground arith, ground arith, ground arith, ground arith, ground arith)

-- No more than can be read does not wrap.
pub consume_fits :
    (place : Placement) (n : ℕ) (s : StreamBuffer)
    → IsValid s
    → n ≤ size s
    → place.address s + s.gptr + n < 2 ^ 64
unfolding size
consume_fits place n s v few = omega (arith, place.low s)

drop-min : (n k : ℕ) (xs : List ℕ) → length xs ≡ k → drop (min n k) xs ≡ drop n xs
drop-min n k xs e = elim (Bool-cases (ltb n k)) [
  | inl fewer ↦ let m : min n k ≡ n = ground arith in ap (λ j. drop j xs) m
  | inr all_of_them ↦
      let m : min n k ≡ k = ground arith in
      ap (λ j. drop j xs) m ∙ drop_all k xs (omega arith) ∙ sym (drop_all n xs (ground arith))
]

-- `consume` drops the first `n` bytes that can be read, all of them if there are fewer, and the
-- buffer stays valid, where the address of the first byte to read and `n` do not wrap.
pub consume-drop :
    (place : Placement) (n : ℕ) (s : StreamBuffer)
    → IsValid s
    → place.address s + s.gptr + n < 2 ^ 64
    → IsValid (consume place n s) × (data_view (consume place n s) ≡ drop n (data_view s))
unfolding data_view
consume-drop place n s v inside =
    let (g, eg, p, ep, b) = consume_fields place n s v inside in
    let k = s.pptr - s.gptr in
    let sliced = length-slice s.gptr s.pptr s.m_buffer (omega arith) (omega arith) in
    (
      record {
        get_order = omega arith;
        end_order = omega arith;
        put_order = omega arith;
        at_end = ep ∙ v.at_end ∙ sym (ap length b);
        small = omega arith;
      },
      (λ i. slice (g i) (p i) (b i))
          ∙ sym (slice-drop (min n k) s.gptr s.pptr s.m_buffer)
          ∙ drop-min n k (slice s.gptr s.pptr s.m_buffer) sliced,
    )

-- With the largest `n` the sum wraps, and `consume` moves the pointer back by one.
consume_wraps :
    (place : Placement) (s : StreamBuffer)
    → IsValid s
    → 0 < s.gptr
    → (consume place (2 ^ 64 - 1) s).gptr ≡ s.gptr - 1
unfolding consume
consume_wraps place s v some_read = ground (arith, place.low s)

-- A character put where there is room.
abbrev put_char : ℕ → StreamBuffer → StreamBuffer
put_char c s = pbump 1 (record s { m_buffer = set s.m_buffer s.pptr c })

put_char-data :
    (c : ℕ) (s : StreamBuffer)
    → IsValid s
    → 1 ≤ s.epptr - s.pptr
    → IsValid (put_char c s) × (data_view (put_char c s) ≡ data_view s ++ (c ∷ []))
unfolding data_view
put_char-data c s v room =
    let e : bump s.pptr 1 ≡ s.pptr + 1 = ground arith in
    let put = set-write_at s.pptr c s.m_buffer (omega arith) in
    (
      record {
        get_order = v.get_order;
        end_order = omega arith;
        put_order = omega arith;
        at_end =
            v.at_end
            ∙ sym (length-write_at s.pptr (c ∷ []) s.m_buffer (omega arith))
            ∙ sym (ap length put);
        small = v.small;
      },
      (λ i. slice s.gptr (e i) (put i))
          ∙ slice-write_at s.gptr s.pptr (s.pptr + 1) (c ∷ []) s.m_buffer (omega arith)
              (omega arith) refl,
    )

-- `overflow` appends its character, and makes room for it where there is none; it returns the
-- character.
overflow-append :
    (c : ℕ) (s : StreamBuffer)
    → IsValid s
    → size s + delta < 2 ^ 31
    → let (s', result) = overflow (some c) s in
      IsValid s' × (data_view s' ≡ data_view s ++ (c ∷ [])) × (result ≡ some c)
unfolding overflow size
overflow-append c s v fits = elim (Bool-cases (s.pptr == s.epptr)) [
  | inl full ↦
      let (v', same, room, _) = reserve-HasRoom delta s v fits in
      let (v'', appended) = put_char-data c (reserve delta s) v' (omega arith) in
      rw full (v'', appended ∙ ap (λ l. l ++ (c ∷ [])) same, refl)
  | inr room ↦
      let (v', appended) = put_char-data c s v (ground arith) in rw room (v', appended, refl)
]

-- `underflow` returns the first byte that can be read, if there is one, and takes nothing.
underflow-first :
    (s : StreamBuffer)
    → IsValid s
    → let (s', result) = underflow s in
      IsValid s' × (data_view s' ≡ data_view s) × (result ≡ get_elem? (data_view s) 0)
unfolding underflow data_view
underflow-first s v = elim (Bool-cases (ltb s.gptr s.pptr)) [
  | inl some_left ↦ rw some_left (
    record {
      get_order = omega arith;
      end_order = omega arith;
      put_order = omega arith;
      at_end = v.at_end;
      small = v.small;
    },
    refl,
    sym (first-slice s.gptr s.pptr s.m_buffer (ground arith)),
  )
  | inr none_left ↦
      let nothing : 0 ≡ s.pptr - s.gptr = ground arith in
      rw none_left (v, refl, ap (λ (k : ℕ). get_elem? (take k (drop s.gptr s.m_buffer)) 0) nothing)
]
