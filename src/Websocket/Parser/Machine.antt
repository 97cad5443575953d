-- ===== src/Websocket/Parser/Machine.antt =====
-- The nested loops of the parser, against the machine of one byte a step.
use xynet.Prelude.{ℕ, zero, suc, ◌≤◌, ◌<◌, ◌≡◌, refl, arith, ◌∙◌, ap, sym}
use xynet.Prelude.{List, [], ◌∷◌, length, some}
use xynet.Websocket.Parser.{WebsocketFrameHeaderParser, ParserState, resume, report}
use xynet.Websocket.Parser.{s_start, s_head, s_length, s_mask, s_finished}
use xynet.Websocket.Parser.{start_byte, head_byte, length_byte, length_loop, after_length}
use xynet.Websocket.Parser.{mask_byte, mask_loop, after_mask, dispatch, parse_loop, parse}
use xynet.Websocket.Parser.Scan.{
  scan_at, scan, IsOpen, settle, length_loop_step, mask_loop_step, scan-length_loop, scan-mask_loop,
}

-- A loop that wants bytes takes some, and leaves the state open.
length_loop_takes :
    (s : WebsocketFrameHeaderParser) (bytes : List ℕ)
    → let (looped, rest) = length_loop s bytes in
      (looped.m_state ≡ s.m_state) × (length rest ≤ length bytes)
unfolding length_loop length_byte
length_loop_takes s [] = (refl, omega arith)
length_loop_takes s (b ∷ bs) = ground (arith, length_loop_takes (length_byte s b) bs)

mask_loop_takes :
    (s : WebsocketFrameHeaderParser) (bytes : List ℕ)
    → s.m_require ≤ 4
    → let (looped, rest) = mask_loop s bytes in
      (looped.m_state ≡ s.m_state) × (length rest ≤ length bytes) × (looped.m_require ≤ 4)
unfolding mask_loop mask_byte
mask_loop_takes s [] h = (refl, omega arith, h)
mask_loop_takes s (b ∷ bs) h = ground (arith, mask_loop_takes (mask_byte s b) bs)

after_length-IsOpen :
    (s : WebsocketFrameHeaderParser) → s.m_state ≡ s_length → IsOpen (after_length s)
unfolding after_length
after_length-IsOpen s e = ground arith

after_mask-IsOpen :
    (s : WebsocketFrameHeaderParser) → s.m_state ≡ s_mask → s.m_require ≤ 4 → IsOpen (after_mask s)
unfolding after_mask
after_mask-IsOpen s e h = ground arith

-- What `resume` does with two continuations that agree on open states.
settle_agrees :
    (fuel : ℕ) (s : WebsocketFrameHeaderParser) (rest : List ℕ)
    → parse_loop fuel s rest ≡ some (scan s rest)
    → resume (some (s, some rest)) (λ t. parse_loop fuel t rest) s ≡ some (settle s rest)
settle_agrees fuel s rest e = ground arith

-- The loop with `fuel` rounds agrees with the machine.
abbrev Agrees : ℕ → Type 0
Agrees fuel =
    (s : WebsocketFrameHeaderParser) (bytes : List ℕ)
    → IsOpen s
    → length bytes ≤ fuel
    → parse_loop fuel s bytes ≡ some (scan s bytes)

dispatch-length-scan :
    (fuel : ℕ) (s : WebsocketFrameHeaderParser) (b : ℕ) (bs : List ℕ)
    → Agrees fuel
    → s.m_state ≡ s_length
    → 0 < s.m_require
    → length bs ≤ fuel
    → dispatch (parse_loop fuel) s_length s b bs ≡ some (scan s (b ∷ bs))
dispatch-length-scan fuel s b bs ih e wanted hl =
    let looped = (length_loop s (b ∷ bs)).0 in
    let rest = (length_loop s (b ∷ bs)).1 in
    let more : length_loop s (b ∷ bs) ≡ length_loop (length_byte s b) bs =
      length_loop_step s b bs wanted in
    let short : length rest ≤ length bs = rw more (length_loop_takes (length_byte s b) bs).1 in
    let same : looped.m_state ≡ s_length = (length_loop_takes s (b ∷ bs)).0 ∙ e in
    unfold dispatch in
    settle_agrees fuel (after_length looped) rest
      (ih (after_length looped) rest (after_length-IsOpen looped same) (omega arith))
    ∙ ap some (sym (scan-length_loop s (b ∷ bs) e wanted))

dispatch_mask-scan :
    (fuel : ℕ) (s : WebsocketFrameHeaderParser) (b : ℕ) (bs : List ℕ)
    → Agrees fuel
    → s.m_state ≡ s_mask
    → 0 < s.m_require
    → s.m_require ≤ 4
    → length bs ≤ fuel
    → dispatch (parse_loop fuel) s_mask s b bs ≡ some (scan s (b ∷ bs))
dispatch_mask-scan fuel s b bs ih e wanted most hl =
    let looped = (mask_loop s (b ∷ bs)).0 in
    let rest = (mask_loop s (b ∷ bs)).1 in
    let fewer : (mask_byte s b).m_require ≤ 4 = unfold mask_byte in omega arith in
    let short : length rest ≤ length bs =
      rw (mask_loop_step s b bs wanted) (mask_loop_takes (mask_byte s b) bs fewer).1 in
    let (same, _, room) = mask_loop_takes s (b ∷ bs) most in
    unfold dispatch in
    settle_agrees fuel (after_mask looped) rest
      (ih (after_mask looped) rest (after_mask-IsOpen looped (same ∙ e) room) (omega arith))
    ∙ ap some (sym (scan-mask_loop s (b ∷ bs) e wanted))

pub scan_at-scan :
    (st : ParserState) (s : WebsocketFrameHeaderParser) (b : ℕ) (bs : List ℕ)
    → s.m_state ≡ st
    → scan s (b ∷ bs) ≡ scan_at (λ t. scan t bs) st s b bs
unfolding scan
scan_at-scan st s b bs e = ap (λ st'. scan_at (λ t. scan t bs) st' s b bs) e

dispatch-scan_at :
    (fuel : ℕ) (st : ParserState) (s : WebsocketFrameHeaderParser) (b : ℕ) (bs : List ℕ)
    → Agrees fuel
    → s.m_state ≡ st
    → IsOpen s
    → length bs ≤ fuel
    → dispatch (parse_loop fuel) st s b bs ≡ some (scan_at (λ t. scan t bs) st s b bs)
unfolding dispatch start_byte
dispatch-scan_at fuel s_start s b bs ih e h hl = ih (start_byte s b) bs tt hl
dispatch-scan_at fuel s_head s b bs ih e h hl =
    let s' = head_byte s b in
    settle_agrees fuel s' bs (ih s' bs (unfold head_byte in ground arith) hl)
dispatch-scan_at fuel s_length s b bs ih e h hl =
    dispatch-length-scan fuel s b bs ih e (ground arith) hl ∙ ap some (scan_at-scan _ s b bs e)
dispatch-scan_at fuel s_mask s b bs ih e h hl =
    dispatch_mask-scan fuel s b bs ih e (ground arith) (ground arith) hl
    ∙ ap some (scan_at-scan _ s b bs e)
dispatch-scan_at fuel s_finished s b bs ih e h hl = ih s bs (ground arith) hl

parse_loop-scan : (fuel : ℕ) → Agrees fuel
unfolding parse_loop
parse_loop-scan fuel s [] h hl = unfold scan in refl
parse_loop-scan zero s (b ∷ bs) h hl = absurd (omega arith)
parse_loop-scan (suc fuel) s (b ∷ bs) h hl =
    dispatch-scan_at fuel s.m_state s b bs (parse_loop-scan fuel) refl h (omega arith)
    ∙ ap some (sym (scan_at-scan s.m_state s b bs refl))

-- From an open state the fuel suffices: `parse` returns what the machine that takes one byte at
-- a time comes to, whatever the input.
pub parse-scan :
    (s : WebsocketFrameHeaderParser) (bytes : List ℕ)
    → IsOpen s
    → parse s bytes ≡ some (report bytes (scan s bytes))
unfolding parse
parse-scan s bytes h = rw (parse_loop-scan (length bytes) s bytes h (omega arith), parse) refl
