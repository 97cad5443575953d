-- ===== src/StreamBuffer/Room.antt =====
-- The validity of a stream buffer, and what `reserve` does to it.
use xynet.Prelude.{ℕ, ◌+◌, ◌-◌, ◌^◌, ◌≤◌, ◌<◌, ◌≡◌, refl, arith, ◌∙◌, ap, sym}
use xynet.Prelude.{ltb, leb, ◌==◌, ◌||◌, Bool-cases, inl, inr}
use xynet.Prelude.{List, length, take, drop, replicate}
use xynet.Prelude.{length-append, length-drop, length-replicate, length-take, take_all}
use xynet.StreamBuffer.{StreamBuffer, slice, resize, grow, shift_back, stream_buffer}
use xynet.StreamBuffer.{data_view, reserve}
use xynet.StreamBuffer.Slices.{length-slice}
use xynet.StreamBuffer.Slices.{take-append_le, take_whole}

-- The pointers are in order, `epptr` is at the end of the vector, and the vector is small enough
-- for `pbump` and `gbump`.
pub record IsValid (s : StreamBuffer) : Type 0 where
  pub get_order : s.gptr ≤ s.egptr
  pub end_order : s.egptr ≤ s.pptr
  pub put_order : s.pptr ≤ s.epptr
  pub at_end : s.epptr ≡ length s.m_buffer
  pub small : s.epptr < 2 ^ 31

pub stream_buffer-IsValid : IsValid stream_buffer
unfolding stream_buffer
stream_buffer-IsValid = omega arith

length-resize : (n : ℕ) (xs : List ℕ) → length (resize n xs) ≡ n
length-resize n xs = ground (
  arith,
  length-take n xs,
  length-append xs (replicate (n - length xs) 0),
  length-replicate {A = ℕ} (n - length xs) 0,
)

take-resize :
    (k n : ℕ) (xs : List ℕ) → k ≤ length xs → length xs ≤ n → take k (resize n xs) ≡ take k xs
take-resize k n xs h g =
    ground (arith, take-append_le k xs (replicate (n - length xs) 0), take_all n xs)

slice-zero : (g p : ℕ) (xs : List ℕ) → g ≡ 0 → take p xs ≡ slice g p xs
slice-zero g p xs e =
    ap (λ (k : ℕ). take k xs) (omega arith) ∙ ap (λ (k : ℕ). take (p - g) (drop k xs)) (sym e)

-- What the shift to the front leaves.
shift_back-data :
    (s : StreamBuffer)
    → IsValid s
    → let (bytes, pptr_pos) = shift_back s in
      (take pptr_pos bytes ≡ data_view s)
      × (length bytes ≡ length s.m_buffer)
      × (pptr_pos ≡ s.pptr - s.gptr)
unfolding data_view
shift_back-data s v = elim (Bool-cases (ltb 0 s.gptr)) [
  | inl shifted ↦
      let sliced = length-slice s.gptr s.pptr s.m_buffer (omega arith) (omega arith) in
      rw shifted (
        take_whole (s.pptr - s.gptr) (slice s.gptr s.pptr s.m_buffer) _ (sym sliced),
        omega (
          arith,
          sliced,
          length-append (slice s.gptr s.pptr s.m_buffer) (drop (s.pptr - s.gptr) s.m_buffer),
          length-drop (s.pptr - s.gptr) s.m_buffer,
        ),
        refl,
      )
  | inr still ↦
      let at_front : s.gptr ≡ 0 = ground arith in
      rw still (slice-zero s.gptr s.pptr s.m_buffer at_front, refl, omega arith)
]

-- The reserved form, where there is not room enough.
abbrev reserved : ℕ → StreamBuffer → StreamBuffer
reserved n s =
    let (shifted, pptr_pos) = shift_back s in
    let (grown, epptr_pos) = grow n shifted pptr_pos s.epptr in
    record {
      m_buffer = grown;
      eback = 0;
      gptr = 0;
      egptr = pptr_pos;
      pbase = pptr_pos;
      pptr = pptr_pos;
      epptr = epptr_pos;
    }

abbrev pub HasRoom : ℕ → StreamBuffer → StreamBuffer → Type 0
HasRoom n s s' =
    IsValid s' × (data_view s' ≡ data_view s) × (n ≤ s'.epptr - s'.pptr) × (s'.gptr ≤ s.gptr)

reserved-HasRoom :
    (n : ℕ) (s : StreamBuffer)
    → IsValid s
    → (s.pptr - s.gptr) + n < 2 ^ 31
    → HasRoom n s (reserved n s)
unfolding data_view
reserved-HasRoom n s v fits =
    let (shifted, kept, place) = shift_back-data s v in
    let bytes = (shift_back s).0 in
    let p = (shift_back s).1 in
    elim (Bool-cases (ltb (s.epptr - p) n)) [
      | inl more ↦
          let sized = length-resize (p + n) bytes in
          rw more (
            record {
              get_order = omega arith;
              end_order = omega arith;
              put_order = omega arith;
              at_end = sym sized;
              small = omega arith;
            },
            sym (slice-zero 0 p _ refl)
                ∙ take-resize p (p + n) bytes (omega arith) (ground arith)
                ∙ shifted,
            omega arith,
            omega arith,
          )
      | inr enough ↦ rw enough (
        record {
          get_order = omega arith;
          end_order = omega arith;
          put_order = omega arith;
          at_end = v.at_end ∙ sym kept;
          small = v.small;
        },
        sym (slice-zero 0 p _ refl) ∙ shifted,
        ground arith,
        omega arith,
      )
    ]

pub reserve-HasRoom :
    (n : ℕ) (s : StreamBuffer)
    → IsValid s
    → (s.pptr - s.gptr) + n < 2 ^ 31
    → HasRoom n s (reserve n s)
unfolding reserve
reserve-HasRoom n s v fits = elim (Bool-cases ((n == 0) || leb n (s.epptr - s.pptr))) [
  | inl room ↦ rw room (v, refl, ground arith, omega arith)
  | inr none_left ↦ rw none_left (reserved-HasRoom n s v fits)
]
