-- ===== src/StreamBuffer/Tests.antt =====
-- Runs of the stream buffer, and its theorems at concrete inputs.
use xynet.Prelude.{◌≡◌, refl, arith, [], ◌∷◌, ◌++◌, drop}
use xynet.StreamBuffer.{Placement, StreamBuffer, size, data_view, prepare, commit, consume, reserve}
use xynet.StreamBuffer.Room.{IsValid}
use xynet.StreamBuffer.Queue.{written, commit-prepare, prepare-IsValid, consume-drop}

-- A full vector of four bytes, of which the first two are read.
abbrev full : StreamBuffer
full = record {
  m_buffer = 1 ∷ 2 ∷ 3 ∷ 4 ∷ [];
  eback = 0;
  gptr = 2;
  egptr = 4;
  pbase = 0;
  pptr = 4;
  epptr = 4;
}

full-IsValid : IsValid full
full-IsValid = record {
  get_order = omega arith;
  end_order = omega arith;
  put_order = omega arith;
  at_end = refl;
  small = omega arith;
}

size-full : size full ≡ 2
unfolding size
size-full = refl

prepare-full : (prepare 3 full).0 ≡ record {
  m_buffer = 3 ∷ 4 ∷ 3 ∷ 4 ∷ 0 ∷ [];
  eback = 0;
  gptr = 0;
  egptr = 2;
  pbase = 2;
  pptr = 2;
  epptr = 5;
}
unfolding prepare reserve
prepare-full = refl

commit-prepare_example :
    let s' = commit 3 (written (7 ∷ 8 ∷ 9 ∷ []) (prepare 5 full).0) in
    IsValid s' × (data_view s' ≡ data_view full ++ (7 ∷ 8 ∷ 9 ∷ []))
commit-prepare_example =
    commit-prepare 5 (7 ∷ 8 ∷ 9 ∷ []) full full-IsValid (omega arith) (omega (arith, size-full))

prepare-IsValid_example :
    let s' = (prepare 3 full).0 in IsValid s' × (data_view s' ≡ data_view full)
prepare-IsValid_example = prepare-IsValid 3 full full-IsValid (omega (arith, size-full))

-- Every vector at one address.
abbrev fixed : Placement
fixed = record { address = λ s. 0x7f0000001000; low = λ s. omega arith }

consume-drop_example :
    IsValid (consume fixed 1 full) × (data_view (consume fixed 1 full) ≡ drop 1 (data_view full))
consume-drop_example = consume-drop fixed 1 full full-IsValid (omega arith)
