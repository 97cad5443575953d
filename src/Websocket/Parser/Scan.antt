-- ===== src/Websocket/Parser/Scan.antt =====
-- The parser as a machine that takes one byte at a time, and the nested loops as runs of it.
use xynet.Prelude.{ℕ, ◌≤◌, ◌<◌, ◌≡◌, refl, arith}
use xynet.Prelude.{◌==◌, Bool-cases, inl, inr}
use xynet.Prelude.{List, [], ◌∷◌, none, some}
use xynet.Websocket.Parser.{WebsocketFrameHeaderParser, ParserState, Outcome, resume}
use xynet.Websocket.Parser.{s_start, s_head, s_length, s_mask, s_finished}
use xynet.Websocket.Parser.{start_byte, head_byte, length_byte, length_loop, after_length}
use xynet.Websocket.Parser.{mask_byte, mask_loop, after_mask}

-- One byte in the state `st`.
abbrev pub feed_at : ParserState → WebsocketFrameHeaderParser → ℕ → WebsocketFrameHeaderParser
feed_at s_start s b = start_byte s b
feed_at s_head s b = head_byte s b
feed_at s_length s b = after_length (length_byte s b)
feed_at s_mask s b = after_mask (mask_byte s b)
feed_at s_finished s b = s

-- A finished parser passes over its input; any other stops at the byte that finishes it.
abbrev pub scan_at :
    (WebsocketFrameHeaderParser → Outcome)
    → ParserState
    → WebsocketFrameHeaderParser
    → ℕ
    → List ℕ
    → Outcome
scan_at go s_finished s b bs = go s
scan_at go st s b bs = let s' = feed_at st s b in resume (s', some bs) go s'

unfoldable pub scan : WebsocketFrameHeaderParser → List ℕ → Outcome
scan s [] = (s, none)
scan s (b ∷ bs) = scan_at (λ t. scan t bs) s.m_state s b bs

-- Where a loop is under way, a byte is still wanted.
abbrev IsOpenAt : ParserState → WebsocketFrameHeaderParser → Type 0
IsOpenAt s_length s = 0 < s.m_require
IsOpenAt s_mask s = (0 < s.m_require) × (s.m_require ≤ 4)
IsOpenAt _ s = Unit {0}

abbrev pub IsOpen : WebsocketFrameHeaderParser → Type 0
IsOpen s = IsOpenAt s.m_state s

pub feed-IsOpen :
    (s : WebsocketFrameHeaderParser) (b : ℕ) → IsOpen s → IsOpen (feed_at s.m_state s b)
unfolding start_byte head_byte length_byte after_length mask_byte after_mask
feed-IsOpen s b h = ground arith

abbrev pub settle : WebsocketFrameHeaderParser → List ℕ → Outcome
settle s rest = resume (s, some rest) (λ t. scan t rest) s

pub length_loop_done :
    (s : WebsocketFrameHeaderParser) (bytes : List ℕ)
    → s.m_require ≡ 0
    → length_loop s bytes ≡ (s, bytes)
unfolding length_loop
length_loop_done s [] e = refl
length_loop_done s (b ∷ bs) e = rw e

mask_loop_done :
    (s : WebsocketFrameHeaderParser) (bytes : List ℕ)
    → s.m_require ≡ 0
    → mask_loop s bytes ≡ (s, bytes)
unfolding mask_loop
mask_loop_done s [] e = refl
mask_loop_done s (b ∷ bs) e = rw e

pub length_loop_step :
    (s : WebsocketFrameHeaderParser) (b : ℕ) (bs : List ℕ)
    → 0 < s.m_require
    → length_loop s (b ∷ bs) ≡ length_loop (length_byte s b) bs
unfolding length_loop
length_loop_step s b bs h = ground arith

pub mask_loop_step :
    (s : WebsocketFrameHeaderParser) (b : ℕ) (bs : List ℕ)
    → 0 < s.m_require
    → mask_loop s (b ∷ bs) ≡ mask_loop (mask_byte s b) bs
unfolding mask_loop
mask_loop_step s b bs h = ground arith

-- A byte in a loop that wants more, and the byte that ends the loop.
scan_length_more :
    (s : WebsocketFrameHeaderParser) (b : ℕ) (bs : List ℕ)
    → s.m_state ≡ s_length
    → 1 < s.m_require
    → scan s (b ∷ bs) ≡ scan (length_byte s b) bs
unfolding scan length_byte after_length
scan_length_more s b bs e h = rw (e, scan) (ground arith)

scan_length_last :
    (s : WebsocketFrameHeaderParser) (b : ℕ) (bs : List ℕ)
    → s.m_state ≡ s_length
    → scan s (b ∷ bs) ≡ settle (after_length (length_byte s b)) bs
unfolding scan
scan_length_last s b bs e = rw (e, scan) refl

scan_mask_more :
    (s : WebsocketFrameHeaderParser) (b : ℕ) (bs : List ℕ)
    → s.m_state ≡ s_mask
    → 1 < s.m_require
    → scan s (b ∷ bs) ≡ scan (mask_byte s b) bs
unfolding scan mask_byte after_mask
scan_mask_more s b bs e h = rw (e, scan) (ground arith)

scan_mask_last :
    (s : WebsocketFrameHeaderParser) (b : ℕ) (bs : List ℕ)
    → s.m_state ≡ s_mask
    → scan s (b ∷ bs) ≡ settle (after_mask (mask_byte s b)) bs
unfolding scan
scan_mask_last s b bs e = rw (e, scan) refl

-- The loop under `s_length` and what follows it come to the same as the bytes one by one.
pub scan-length_loop :
    (s : WebsocketFrameHeaderParser) (bytes : List ℕ)
    → s.m_state ≡ s_length
    → 0 < s.m_require
    → let (looped, rest) = length_loop s bytes in scan s bytes ≡ settle (after_length looped) rest
scan-length_loop s [] e h = unfold length_loop after_length scan in ground arith
scan-length_loop s (b ∷ bs) e h = elim (Bool-cases (s.m_require == 1)) [
  | inl last ↦
      rw
        (
          length_loop_step s b bs h,
          length_loop_done (length_byte s b) bs (unfold length_byte in ground arith),
        )
        (scan_length_last s b bs e)
  | inr more ↦
      rw (length_loop_step s b bs h, scan_length_more s b bs e (ground arith))
        (scan-length_loop (length_byte s b) bs (unfold length_byte in e)
          (unfold length_byte in ground arith))
]

pub scan-mask_loop :
    (s : WebsocketFrameHeaderParser) (bytes : List ℕ)
    → s.m_state ≡ s_mask
    → 0 < s.m_require
    → let (looped, rest) = mask_loop s bytes in scan s bytes ≡ settle (after_mask looped) rest
scan-mask_loop s [] e h = unfold mask_loop after_mask scan in ground arith
scan-mask_loop s (b ∷ bs) e h = elim (Bool-cases (s.m_require == 1)) [
  | inl last ↦
      rw
        (
          mask_loop_step s b bs h,
          mask_loop_done (mask_byte s b) bs (unfold mask_byte in ground arith),
        )
        (scan_mask_last s b bs e)
  | inr more ↦
      rw (mask_loop_step s b bs h, scan_mask_more s b bs e (ground arith))
        (scan-mask_loop (mask_byte s b) bs (unfold mask_byte in e)
          (unfold mask_byte in ground arith))
]
