-- ===== src/Buffer.antt =====
-- The buffer sequences of include/xynet/buffer.h. `m_iterator` splits the vector `m_val`: the
-- entries that it has passed, and those from it to the end. An address is a number.
pub mod Commit
mod Tests
use xynet.Prelude.{ℕ, ◌+◌, ◌-◌, ◌*◌, ◌==◌, leb, if◌then◌else◌, List, [], ◌∷◌, ◌++◌, map, length}
use xynet.Prelude.{Option, none, some}

pub record Iovec : Type 0 where
  pub iov_base : ℕ
  pub iov_len : ℕ

pub record BufferSequence : Type 0 where
  pub passed : List Iovec
  pub pending : List Iovec

-- A contiguous range: its address, its size and the size of a value.
pub record Range : Type 0 where
  pub ranges_data : ℕ
  pub ranges_size : ℕ
  pub value_size : ℕ

-- The entry that a constructor makes of a range, and the sequence of a list of ranges.
unfoldable pub to_iovec : Range → Iovec
to_iovec r = record { iov_base = r.ranges_data; iov_len = r.ranges_size * r.value_size }

unfoldable pub buffer_sequence : List Range → BufferSequence
unfolding to_iovec
buffer_sequence ranges = record { passed = []; pending = map to_iovec ranges }

-- `m_sequence.m_val`
abbrev pub m_val : BufferSequence → List Iovec
m_val b = b.passed ++ b.pending

-- A pointer to an entry is its place in `m_val`; `none` is the null pointer.
abbrev pub iov_ptr : List Iovec → List Iovec → Option ℕ
iov_ptr passed [] = none
iov_ptr passed (v ∷ vs) = some (length passed)

unfoldable pub get_iov_ptr : BufferSequence → Option ℕ
get_iov_ptr b = iov_ptr b.passed b.pending

unfoldable pub get_iov_cnt : BufferSequence → ℕ
get_iov_cnt b = length b.pending

unfoldable pub get_iov_span : BufferSequence → Option ℕ × ℕ
get_iov_span b = (iov_ptr b.passed b.pending, length b.pending)

-- The loop of `commit`, on the entries from the iterator on.
commit_loop : ℕ → List Iovec → List Iovec → BufferSequence
commit_loop len passed [] = record { passed = passed; pending = [] }
commit_loop len passed (v ∷ vs) =
    let advanced = commit_loop (len - v.iov_len) (passed ++ (v ∷ [])) vs in
    if len == 0
    then record { passed = passed; pending = v ∷ vs }
    else if leb v.iov_len len
    then advanced
    else record {
      passed = passed;
      pending = record { iov_base = v.iov_base + len; iov_len = v.iov_len - len } ∷ vs;
    }

unfoldable pub commit : ℕ → BufferSequence → BufferSequence
unfolding commit_loop
commit len b = commit_loop len b.passed b.pending
