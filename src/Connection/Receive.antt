-- ===== src/Connection/Receive.antt =====
-- What `websocket_recv_data` of example/include/common/websocket.h makes of a frame.
use xynet.Prelude.{
  ℕ, zero, suc, ◌*◌, ◌%◌, get_or, bit_xor, All, Bool, if◌then◌else◌, ◌+◌, ◌-◌, ◌^◌, ◌≤◌, ◌<◌, ◌≡◌,
  ◌≢◌, refl, arith, ◌∙◌, ap, sym,
}
use xynet.Prelude.{◌==◌, leb, true, false, bit_and, inl, inr}
use xynet.Prelude.{
  List, [], ◌∷◌, ◌++◌, length, length-append, take, drop, take-append, drop-append, none, some,
}
use mathlib.Core.List.{append_assoc}
use xynet.Prelude.Bits.{every_below, table}
use xynet.Websocket.Flags.{ws_op_close, ws_fin, ws_has_mask, has}
use xynet.Websocket.Header.Layout.{layout, length-layout_bound}
use xynet.Websocket.Mask.{mask_at, websocket_mask, websocket_mask_twice}
use xynet.Websocket.Parser.{WebsocketFrameHeaderParser, new_parser, parse, mask_uint32_t}
use xynet.Websocket.Parser.RoundTrip.{parsed, parse-layout}
use xynet.Websocket.Parser.Chunks.{IsCount, parse-IsOpen}
use xynet.Connection.{
  websocket_send_close, websocket_check_parser_result, on_header, recv_loop, websocket_recv_data,
  data_span, closed,
}

-- A piece that the parser can judge ends the call.
judged :
    (piece : List ℕ) (pieces : List (List ℕ)) (buf : List ℕ) (p : WebsocketFrameHeaderParser)
    (ret : ℕ)
    → parse new_parser piece ≡ some (p, ret)
    → (ret == 2 ^ 32 - 1) ≡ false
    → recv_loop (piece ∷ pieces) [] buf new_parser
      ≡ some (on_header p ret (piece ++ drop (length piece) buf))
unfolding recv_loop
judged piece pieces buf p ret e finished = rw (e, recv_loop) (rw finished refl)

recv_data-on_header :
    (piece : List ℕ) (pieces : List (List ℕ)) (buf : List ℕ) (p : WebsocketFrameHeaderParser)
    (ret : ℕ)
    → parse new_parser piece ≡ some (p, ret)
    → ret ≢ 2 ^ 32 - 1
    → websocket_recv_data (piece ∷ pieces) buf
      ≡ some (on_header p ret (piece ++ drop (length piece) buf))
unfolding websocket_recv_data
recv_data-on_header piece pieces buf p ret e other = judged piece pieces buf p ret e (ground arith)

count_other : (n ret : ℕ) → n ≤ 1024 → IsCount n ret → ret ≢ 2 ^ 32 - 1
count_other n ret small (inl e) = omega arith
count_other n ret small (inr (_, few)) = omega arith

-- A first piece of at most 1024 bytes is the last that a call reads: the parser says `npos` of a
-- header that is cut, and the code looks for `UINT32_MAX`.
recv_data_first_piece :
    (piece : List ℕ) (pieces : List (List ℕ)) (buf : List ℕ)
    → length piece ≤ 1024
    → websocket_recv_data (piece ∷ pieces) buf ≡ websocket_recv_data (piece ∷ []) buf
recv_data_first_piece piece pieces buf small =
    let ((p, ret), e, _, count) = parse-IsOpen new_parser piece tt in
    let other = count_other (length piece) ret small count in
    recv_data-on_header piece pieces buf p ret e other
    ∙ sym (recv_data-on_header piece [] buf p ret e other)

close_flag : (f : ℕ) → f < 256 → bit_and (bit_and f 0x3F) ws_op_close ≡ bit_and f ws_op_close
unfolding every_below
close_flag = table 256 _ _ refl

fin_flag : (f : ℕ) → f < 256 → bit_and (bit_and f 0x3F) ws_fin ≡ bit_and f ws_fin
unfolding every_below
fin_flag = table 256 _ _ refl

has_mask_flag : (f : ℕ) → f < 256 → bit_and (bit_and f 0x3F) ws_has_mask ≡ bit_and f ws_has_mask
unfolding every_below
has_mask_flag = table 256 _ _ refl

check-sent :
    (f n : ℕ)
    → f < 256
    → websocket_check_parser_result (bit_and f 0x3F) n ≡ websocket_check_parser_result f n
unfolding websocket_check_parser_result
check-sent f n h = ground (arith, close_flag f h, fin_flag f h, has_mask_flag f h)

-- The payload of a client, from octet `i` on: RFC 6455, section 5.3, octet `i` is that of the
-- message, xor octet `i mod 4` of the key.
unfoldable pub masked_octets : List ℕ → ℕ → List ℕ → List ℕ
masked_octets key i [] = []
masked_octets key i (octet ∷ octets) =
    bit_xor octet (get_or key (i % 4) 0) ∷ masked_octets key (suc i) octets

-- A frame as a client sends it: the header with its key, and the payload, masked if the header
-- says so.
unfoldable pub client_frame : ℕ → List ℕ → List ℕ → List ℕ
client_frame flags key payload =
    layout flags key (length payload)
    ++ (if has flags ws_has_mask then masked_octets key 0 payload else payload)

length-masked_octets :
    (key : List ℕ) (i : ℕ) (octets : List ℕ) → length (masked_octets key i octets) ≡ length octets
unfolding masked_octets
length-masked_octets key i [] = refl
length-masked_octets key i (octet ∷ octets) = ap suc (length-masked_octets key (suc i) octets)

-- A mask of the server that has the octets of a key does what the client does.
mask_octets :
    (mask : ℕ) (key : List ℕ) (octets : List ℕ) (i j : ℕ)
    → ((k : ℕ) → k < 4 → mask_at mask k ≡ get_or key k 0)
    → j % 4 ≡ i % 4
    → (websocket_mask octets mask j).0 ≡ masked_octets key i octets
unfolding websocket_mask masked_octets
mask_octets mask key [] i j same e = refl
mask_octets mask key (octet ∷ octets) i j same e =
    let first : mask_at mask (j % 4) ≡ get_or key (i % 4) 0 =
      same (j % 4) (omega arith) ∙ ap (λ k. get_or key k 0) e in
    let rest = mask_octets mask key octets (suc i) ((j + 1) % 2 ^ 64) same (omega arith) in
    λ n. bit_xor octet (first n) ∷ rest n

mask_at-key :
    (k0 k1 k2 k3 : ℕ)
    → k0 < 256
    → k1 < 256
    → k2 < 256
    → k3 < 256
    → (k : ℕ) → k < 4
    → mask_at (k0 + 256 * (k1 + 256 * (k2 + 256 * (k3 + 256 * 0)))) k
      ≡ get_or (k0 ∷ k1 ∷ k2 ∷ k3 ∷ []) k 0
unfolding mask_at
mask_at-key k0 k1 k2 k3 h0 h1 h2 h3 zero small = omega arith
mask_at-key k0 k1 k2 k3 h0 h1 h2 h3 (suc zero) small = omega arith
mask_at-key k0 k1 k2 k3 h0 h1 h2 h3 (suc (suc zero)) small = omega arith
mask_at-key k0 k1 k2 k3 h0 h1 h2 h3 (suc (suc (suc zero))) small = omega arith
mask_at-key k0 k1 k2 k3 h0 h1 h2 h3 (suc (suc (suc (suc k)))) small = absurd (omega arith)

check-passes :
    (flags n : ℕ)
    → has flags ws_op_close ≡ false
    → has flags ws_fin ≡ true
    → has flags ws_has_mask ≡ true
    → n ≤ 1000
    → websocket_check_parser_result flags n ≡ none
unfolding websocket_check_parser_result
check-passes flags n a b c h = ground (arith, a, b, c)

-- The data of a header that passes the checks.
on_header-data :
    (p : WebsocketFrameHeaderParser) (header masked buf : List ℕ)
    → websocket_check_parser_result p.m_flags p.m_length ≡ none
    → p.m_length ≡ length masked
    → on_header p (length header) ((header ++ masked) ++ buf)
      ≡ data_span (websocket_mask masked (mask_uint32_t p) 0).0
unfolding on_header
on_header-data p header masked buf passes sized =
    let bytes = (header ++ masked) ++ buf in
    let fits : leb (length header + p.m_length) (length bytes) ≡ true =
      ground (arith, length-append header masked, length-append (header ++ masked) buf) in
    let found : take p.m_length (drop (length header) bytes) ≡ masked =
      ap (λ l. take p.m_length (drop (length header) l)) (append_assoc header masked buf)
      ∙ ap (take p.m_length) (drop-append header (masked ++ buf))
      ∙ ap (λ k. take k (masked ++ buf)) sized
      ∙ take-append masked buf in
    rw (passes, on_header)
      (rw fits (ap (λ l. data_span (websocket_mask l (mask_uint32_t p) 0).0) found))

check_control :
    (flags n : ℕ) → has flags ws_op_close ≡ true → websocket_check_parser_result flags n ≡ some 1000
unfolding websocket_check_parser_result
check_control flags n e = rw (e, websocket_check_parser_result) refl

on_header-closed :
    (p : WebsocketFrameHeaderParser) (ret : ℕ) (buf : List ℕ)
    → websocket_check_parser_result p.m_flags p.m_length ≡ some 1000
    → on_header p ret buf ≡ closed (websocket_send_close 1000)
unfolding on_header
on_header-closed p ret buf e = rw (e, on_header) refl

module _ (flags k0 k1 k2 k3 : ℕ) (payload buf : List ℕ) (pieces : List (List ℕ)) where
  abbrev pub key : List ℕ
  key = k0 ∷ k1 ∷ k2 ∷ k3 ∷ []

  frame-on_header :
      flags < 256
      → length payload < 2 ^ 64
      → (masked : List ℕ)
      → let p = parsed flags key (length payload) in
        let header = layout flags key (length payload) in
        websocket_recv_data ((header ++ masked) ∷ pieces) buf
        ≡ some (
            on_header p
              (length header)
              ((header ++ masked) ++ drop (length (header ++ masked)) buf))
  frame-on_header hf hn masked =
      let header = layout flags key (length payload) in
      recv_data-on_header (header ++ masked) pieces buf (parsed flags key (length payload))
        (length header) (parse-layout flags k0 k1 k2 k3 (length payload) masked hf hn)
        (omega (arith, length-layout_bound flags k0 k1 k2 k3 (length payload)))

  abbrev sent_payload : List ℕ
  sent_payload = if has flags ws_has_mask then masked_octets key 0 payload else payload

  -- The server unmasks what a client has masked.
  unmasked :
      All (λ k. k < 256) key
      → has flags ws_has_mask ≡ true
      → (websocket_mask
          (masked_octets key 0 payload)
          (mask_uint32_t (parsed flags key (length payload)))
          0).0
        ≡ payload
  unfolding mask_uint32_t
  unmasked (h0, (h1, (h2, (h3, _)))) marked =
      let word = k0 + 256 * (k1 + 256 * (k2 + 256 * (k3 + 256 * 0))) in
      let same = mask_octets word key payload 0 0 (mask_at-key k0 k1 k2 k3 h0 h1 h2 h3) refl in
      rw marked (
        ap (λ l. (websocket_mask l word 0).0) (sym same)
        ∙ ap (λ r. r.0) (websocket_mask_twice payload word 0))

  -- A final frame with a mask and at most 1000 bytes that arrives whole in one piece, and is no
  -- control frame, gives its payload as the client had it before masking, whatever the buffer held.
  pub recv_data-client_frame :
      flags < 256
      → All (λ k. k < 256) key
      → has flags ws_op_close ≡ false
      → has flags ws_fin ≡ true
      → has flags ws_has_mask ≡ true
      → length payload ≤ 1000
      → websocket_recv_data (client_frame flags key payload ∷ pieces) buf ≡ some (data_span payload)
  unfolding client_frame
  recv_data-client_frame hf octets data_frame final marked small =
      let n = length payload in
      let p = parsed flags key n in
      let masked = masked_octets key 0 payload in
      let passes = check-sent flags n hf ∙ check-passes flags n data_frame final marked small in
      ap
        (λ (b : Bool).
          websocket_recv_data ((layout flags key n ++ (if b then masked else payload)) ∷ pieces)
            buf)
        marked
      ∙ frame-on_header hf (omega arith) masked
      ∙ ap some (
          on_header-data p (layout flags key n) masked _ passes
            (sym (length-masked_octets key 0 payload)))
      ∙ ap (λ l. some (data_span l)) (unmasked octets marked)

  -- Every control frame, a ping and a pong too, is answered with a close frame of status 1000.
  pub recv_data_control :
      flags < 256
      → has flags ws_op_close ≡ true
      → length payload < 2 ^ 64
      → websocket_recv_data (client_frame flags key payload ∷ pieces) buf
        ≡ some (closed (websocket_send_close 1000))
  unfolding client_frame
  recv_data_control hf control hn =
      frame-on_header hf hn sent_payload
      ∙ ap some (
          on_header-closed (parsed flags key (length payload)) _ _
            (check-sent flags (length payload) hf ∙ check_control flags (length payload) control))
