-- ===== src/Websocket/Parser/RoundTrip.antt =====
-- The parser on what the builder wrote.
use xynet.Prelude.{ℕ, ◌+◌, ◌^◌, ◌≤◌, ◌<◌, ◌≡◌, refl, arith, ◌∙◌, ap}
use xynet.Prelude.{◌==◌, ltb, leb, if◌then◌else◌, bit_and, Bool-cases, inl, inr}
use xynet.Prelude.{List, [], ◌∷◌, ◌++◌, length, take, replicate, All, some}
use xynet.Prelude.{length-append}
use xynet.Websocket.Flags.{ws_has_mask, has}
use xynet.Websocket.Header.{websocket_frame_header_builder}
use xynet.Websocket.Header.Layout.{builder-layout, length-layout}
use xynet.Websocket.Header.Layout.{layout, first_byte, length_code, extension, be_bytes}
use xynet.Websocket.Parser.Scan.{scan, scan-length_loop, settle}
use xynet.Websocket.Parser.{WebsocketFrameHeaderParser, ParserState, reset, parse, new_parser}
use xynet.Websocket.Parser.{s_head, s_length, s_mask, s_finished}
use xynet.Websocket.Parser.{start_byte, head_byte, after_length}
use xynet.Websocket.Parser.{mask_byte, after_mask}
use xynet.Websocket.Parser.Machine.{parse-scan}
use xynet.Websocket.Parser.Digits.{
  horner, length_loop-horner, be_bytes-All, horner_two, horner_eight, first_flags, second_flags,
  mask_flag, marked_code, plain_code, marked, not_marked,
}

abbrev at_state : ParserState → ℕ → List ℕ → ℕ → ℕ → WebsocketFrameHeaderParser
at_state st flags mask len require = record {
  m_state = st;
  m_flags = flags;
  m_mask = mask;
  m_length = len;
  m_require = require;
}

abbrev zeros : List ℕ
zeros = replicate 4 0

-- What a finished parser has read: the six bits of the flags that are sent, the key if there is
-- one, and the length.
abbrev pub parsed : ℕ → List ℕ → ℕ → WebsocketFrameHeaderParser
parsed flags key n =
    at_state s_finished (bit_and flags 0x3F) (if has flags ws_has_mask then key else zeros) n 0

scan-first :
    (f : ℕ) (rest : List ℕ)
    → f < 256
    → scan new_parser (first_byte f ∷ rest) ≡ scan (at_state s_head (bit_and f 0x1F) zeros 0 0) rest
unfolding scan start_byte
scan-first f rest h = ap (λ (v : ℕ). scan (at_state s_head v zeros 0 0) rest) (first_flags f h)

abbrev after_head : ℕ → ℕ → WebsocketFrameHeaderParser
after_head f c =
    let flags = bit_and f 0x3F in
    if leb 126 c
    then at_state s_length flags zeros 0 (if c == 127 then 8 else 2)
    else if has f ws_has_mask
    then at_state s_mask flags zeros c 4
    else at_state s_finished flags zeros c 0

head_byte-second :
    (f c : ℕ)
    → f < 256
    → c < 128
    → head_byte
        (at_state s_head (bit_and f 0x1F) zeros 0 0)
        ((if has f ws_has_mask then 128 else 0) + c)
      ≡ after_head f c
unfolding head_byte
head_byte-second f c hf hc =
    ground (arith, second_flags f, mask_flag f, marked_code c, plain_code c, marked c, not_marked c)

scan-mask :
    (flags n k0 k1 k2 k3 : ℕ) (payload : List ℕ)
    → scan (at_state s_mask flags zeros n 4) (k0 ∷ k1 ∷ k2 ∷ k3 ∷ payload)
      ≡ (at_state s_finished flags (k0 ∷ k1 ∷ k2 ∷ k3 ∷ []) n 0, some payload)
unfolding scan mask_byte after_mask
scan-mask flags n k0 k1 k2 k3 payload = refl

abbrev key_part : ℕ → List ℕ → List ℕ
key_part f key = if has f ws_has_mask then key else []

module _ (f n k0 k1 k2 k3 : ℕ) (payload : List ℕ) (hf : f < 256) (hn : n < 2 ^ 64) where
  abbrev pub key : List ℕ
  key = k0 ∷ k1 ∷ k2 ∷ k3 ∷ []

  settle-key :
      settle
        (after_length (at_state s_length (bit_and f 0x3F) zeros n 0))
        (key_part f key ++ payload)
      ≡ (parsed f key n, some payload)
  unfolding after_length
  settle-key = ground (arith, mask_flag f hf, scan-mask (bit_and f 0x3F) n k0 k1 k2 k3 payload)

  scan-extension :
      (bs : List ℕ)
      → 0 < length bs
      → All (λ b. b < 256) bs
      → horner 0 bs ≡ n
      → scan
          (at_state s_length (bit_and f 0x3F) zeros 0 (length bs))
          (bs ++ (key_part f key ++ payload))
        ≡ (parsed f key n, some payload)
  scan-extension bs some_bytes small e =
      let s = at_state s_length (bit_and f 0x3F) zeros 0 (length bs) in
      let rest = key_part f key ++ payload in
      let fits : horner 0 bs < 2 ^ 64 = omega arith in
      scan-length_loop s (bs ++ rest) refl some_bytes
      ∙ ap (λ (p : WebsocketFrameHeaderParser × List ℕ). settle (after_length p.0) p.1)
          (length_loop-horner s bs rest refl small fits)
      ∙ ap (λ (v : ℕ). settle (after_length (at_state s_length (bit_and f 0x3F) zeros v 0)) rest) e
      ∙ settle-key

  -- What follows the second byte.
  abbrev tail_part : List ℕ
  tail_part = (be_bytes (extension n) n ++ key_part f key) ++ payload

  scan_head :
      scan
        (at_state s_head (bit_and f 0x1F) zeros 0 0)
        (((if has f ws_has_mask then 128 else 0) + length_code n) ∷ tail_part)
      ≡ settle (after_head f (length_code n)) tail_part
  unfolding scan
  scan_head = ap (λ t. settle t tail_part) (head_byte-second f (length_code n) hf (ground arith))

  -- The three forms of the length.
  settle-tail : settle (after_head f (length_code n)) tail_part ≡ (parsed f key n, some payload)
  settle-tail = elim (Bool-cases (ltb n 126)) [
    | inl short ↦ ground (arith, scan-mask (bit_and f 0x3F) n k0 k1 k2 k3 payload)
    | inr long ↦ elim (Bool-cases (leb n 0xFFFF)) [
      | inl two ↦
          rw (long, two)
            (scan-extension (be_bytes 2 n) (omega arith) (be_bytes-All 2 n)
              (horner_two n (ground arith)))
      | inr eight ↦
          rw (long, eight)
            (scan-extension (be_bytes 8 n) (omega arith) (be_bytes-All 8 n) (horner_eight n hn))
    ]
  ]

  pub scan-layout : scan new_parser (layout f key n ++ payload) ≡ (parsed f key n, some payload)
  scan-layout = scan-first f _ hf ∙ scan_head ∙ settle-tail

-- The parser on a header as the layout says.
pub parse-layout :
    (flags k0 k1 k2 k3 n : ℕ) (payload : List ℕ)
    → flags < 256
    → n < 2 ^ 64
    → let header = layout flags (k0 ∷ k1 ∷ k2 ∷ k3 ∷ []) n in
      parse new_parser (header ++ payload)
      ≡ some (parsed flags (k0 ∷ k1 ∷ k2 ∷ k3 ∷ []) n, length header)
parse-layout flags k0 k1 k2 k3 n payload hf hn =
    let header = layout flags (k0 ∷ k1 ∷ k2 ∷ k3 ∷ []) n in
    rw (parse-scan new_parser (header ++ payload) tt, scan-layout flags n k0 k1 k2 k3 payload hf hn)
      (ap (λ (m : ℕ). some (parsed flags (k0 ∷ k1 ∷ k2 ∷ k3 ∷ []) n, m))
        (omega (arith, length-append header payload)))

-- A reset parser reads back what the builder wrote into a buffer with room for the longest
-- header, for flags of one byte, a key of four bytes and a length of 64 bits, and whatever bytes
-- follow: it is finished, with the six bits of the flags that are sent, the key if the flags mark
-- one (else zeros) and the length, and it returns the size of the header.
pub parse-builder :
    (s : WebsocketFrameHeaderParser) (frame : List ℕ) (flags k0 k1 k2 k3 n : ℕ) (payload : List ℕ)
    → 14 ≤ length frame
    → flags < 256
    → n < 2 ^ 64
    → let key = k0 ∷ k1 ∷ k2 ∷ k3 ∷ [] in
      let (built, size) = websocket_frame_header_builder frame flags (some key) n in
      parse (reset s) (take size built ++ payload) ≡ some (parsed flags key n, size)
unfolding reset
parse-builder s frame flags k0 k1 k2 k3 n payload room hf hn =
    let (sized, written, _) = builder-layout frame flags k0 k1 k2 k3 n room hf in
    rw written (
      parse-layout flags k0 k1 k2 k3 n payload hf hn
      ∙ ap (λ (m : ℕ). some (parsed flags (k0 ∷ k1 ∷ k2 ∷ k3 ∷ []) n, m))
          (omega (arith, sized, length-layout flags k0 k1 k2 k3 n)))
