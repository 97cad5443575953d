-- ===== src/StreamBuffer.antt =====
-- stream_buffer of include/xynet/stream_buffer.h. The six pointers of `std::streambuf` are offsets
-- from `m_buffer.data()`; a character is a number, and `eof` is `none`.
pub mod Slices
pub mod Room
pub mod Queue
mod Tests
use xynet.Prelude.{
  ℕ, zero, suc, ◌+◌, ◌-◌, ◌*◌, ◌%◌, ◌^◌, ◌<◌, min, ltb, leb, ◌==◌, if◌then◌else◌, ◌||◌,
}
use xynet.Prelude.{
  List, [], ◌∷◌, ◌++◌, length, take, drop, replicate, set, get_elem?, Option, none, some,
}

abbrev pub delta : ℕ
delta = 128

pub record StreamBuffer : Type 0 where
  pub m_buffer : List ℕ
  pub eback : ℕ
  pub gptr : ℕ
  pub egptr : ℕ
  pub pbase : ℕ
  pub pptr : ℕ
  pub epptr : ℕ

-- The members of `std::streambuf`; `pbump` and `gbump` take an `int`.
abbrev pub setg : ℕ → ℕ → ℕ → StreamBuffer → StreamBuffer
setg begin current end s = record s { eback = begin; gptr = current; egptr = end }

abbrev pub setp : ℕ → ℕ → StreamBuffer → StreamBuffer
setp begin end s = record s { pbase = begin; pptr = begin; epptr = end }

abbrev pub bump : ℕ → ℕ → ℕ
bump pointer n =
    let k = n % 2 ^ 32 in if ltb k (2 ^ 31) then pointer + k else (pointer + k) - 2 ^ 32

abbrev pub pbump : ℕ → StreamBuffer → StreamBuffer
pbump n s = record s { pptr = bump s.pptr n }

abbrev pub gbump : ℕ → StreamBuffer → StreamBuffer
gbump n s = record s { gptr = bump s.gptr n }

pub stream_buffer : StreamBuffer
stream_buffer = record {
  m_buffer = replicate delta 0;
  eback = 0;
  gptr = 0;
  egptr = 0;
  pbase = 0;
  pptr = 0;
  epptr = delta;
}

-- The elements from `a` up to `b`.
abbrev pub slice : ℕ → ℕ → List ℕ → List ℕ
slice a b bytes = take (b - a) (drop a bytes)

pub size : StreamBuffer → ℕ
size s = s.pptr - s.gptr

-- `data()` and `data_string_view()`.
pub data_view : StreamBuffer → List ℕ
data_view s = slice s.gptr s.pptr s.m_buffer

-- `std::vector::resize`
abbrev pub resize : ℕ → List ℕ → List ℕ
resize n bytes =
    if leb n (length bytes) then take n bytes else bytes ++ replicate (n - length bytes) 0

-- The shift to the front of the vector, with the new place of `pptr`.
abbrev pub shift_back : StreamBuffer → List ℕ × ℕ
shift_back s =
    if ltb 0 s.gptr
    then (slice s.gptr s.pptr s.m_buffer ++ drop (s.pptr - s.gptr) s.m_buffer, s.pptr - s.gptr)
    else (s.m_buffer, s.pptr)

-- The growth of the vector, with the new place of `epptr`.
abbrev pub grow : ℕ → List ℕ → ℕ → ℕ → List ℕ × ℕ
grow n bytes pptr_pos epptr_pos =
    if ltb (epptr_pos - pptr_pos) n
    then (resize (pptr_pos + n) bytes, pptr_pos + n)
    else (bytes, epptr_pos)

pub reserve : ℕ → StreamBuffer → StreamBuffer
reserve n s =
    if (n == 0) || leb n (s.epptr - s.pptr)
    then s
    else let (shifted, pptr_pos) = shift_back s in
      let (grown, epptr_pos) = grow n shifted pptr_pos s.epptr in
      setp pptr_pos epptr_pos (setg 0 0 pptr_pos (record s { m_buffer = grown }))

-- The returned span: where it starts, and its size.
pub prepare : ℕ → StreamBuffer → StreamBuffer × (ℕ × ℕ)
unfolding reserve
prepare n s = let s' = reserve n s in (s', (s'.pptr, n))

pub commit : ℕ → StreamBuffer → StreamBuffer
commit n s = let s' = pbump (min n (s.epptr - s.pptr)) s in setg s'.eback s'.gptr s'.pptr s'

-- Where the vector of a buffer lies, `m_buffer.data()`, for which the allocator chooses addresses of
-- the lower half.
pub record Placement : Type 0 where
  pub address : StreamBuffer → ℕ
  pub low : (s : StreamBuffer) → address s < 2 ^ 63

-- The sum of `gptr()` and `n` is one of addresses, and wraps.
pub consume : Placement → ℕ → StreamBuffer → StreamBuffer
consume place n s =
    let s' = if ltb s.egptr s.pptr then setg 0 s.gptr s.pptr s else s in
    let begin = place.address s in
    let n' =
      if ltb (begin + s'.pptr) ((begin + s'.gptr + n) % 2 ^ 64) then s'.pptr - s'.gptr else n in
    gbump n' s'

-- `overflow`, with what it returns; `not_eof(eof)` is 0.
pub overflow : Option ℕ → StreamBuffer → StreamBuffer × Option ℕ
unfolding reserve
overflow none s = (s, some 0)
overflow (some c) s =
    let s' = if s.pptr == s.epptr then reserve delta s else s in
    (pbump 1 (record s' { m_buffer = set s'.m_buffer s'.pptr c }), some c)

pub underflow : StreamBuffer → StreamBuffer × Option ℕ
underflow s =
    if ltb s.gptr s.pptr then (setg 0 s.gptr s.pptr s, get_elem? s.m_buffer s.gptr) else (s, none)
