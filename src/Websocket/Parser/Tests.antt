-- ===== src/Websocket/Parser/Tests.antt =====
-- Runs of the parser, and its theorems at concrete inputs.
use xynet.Prelude.{ℕ, ◌≡◌, refl, arith, List, [], ◌∷◌, ◌++◌, replicate, take, some}
use xynet.Websocket.Header.{websocket_frame_header_builder}
use xynet.Websocket.Parser.Scan.{IsOpen}
use xynet.Websocket.Parser.{parse, reset, new_parser, npos, WebsocketFrameHeaderParser}
use xynet.Websocket.Parser.{parse_loop, dispatch, start_byte, head_byte, s_head, mask_uint32_t}
use xynet.Websocket.Parser.RoundTrip.{parsed, parse-builder}
use xynet.Websocket.Parser.Chunks.{IsCount, parse-IsOpen, parse-split}

abbrev buffer : List ℕ
buffer = replicate 14 0xEE

-- A final, masked frame of 300 bytes of binary data.
abbrev header_bytes : List ℕ
header_bytes = 0x82 ∷ 0xFE ∷ 0x01 ∷ 0x2C ∷ 1 ∷ 2 ∷ 3 ∷ 4 ∷ []

parse_short : parse new_parser (0x81 ∷ 0x05 ∷ 0x48 ∷ []) ≡ some (parsed 0x11 [] 5, 2)
unfolding parse parse_loop dispatch start_byte head_byte
parse_short = refl

parse_key : mask_uint32_t (parsed 0x32 (1 ∷ 2 ∷ 3 ∷ 4 ∷ []) 300) ≡ 0x04030201
unfolding mask_uint32_t
parse_key = refl

parse-builder_example :
    let (built, size) =
      websocket_frame_header_builder buffer 0x32 (some (1 ∷ 2 ∷ 3 ∷ 4 ∷ [])) 300 in
    parse (reset new_parser) (take size built ++ (9 ∷ []))
    ≡ some (parsed 0x32 (1 ∷ 2 ∷ 3 ∷ 4 ∷ []) 300, size)
parse-builder_example =
    parse-builder new_parser buffer 0x32 1 2 3 4 300 (9 ∷ []) (omega arith) (omega arith)
      (omega arith)

parse-IsOpen_example :
    (r : WebsocketFrameHeaderParser × ℕ) × (parse new_parser header_bytes ≡ some r)
    × IsOpen r.0
    × IsCount 8 r.1
parse-IsOpen_example = parse-IsOpen new_parser header_bytes tt

abbrev after_one : WebsocketFrameHeaderParser
after_one = record new_parser { m_state = s_head; m_flags = 0x12 }

first_byte_taken : parse new_parser (0x82 ∷ []) ≡ some (after_one, npos)
unfolding parse parse_loop dispatch start_byte
first_byte_taken = refl

parse-split_example :
    (t : WebsocketFrameHeaderParser) × (parse (reset new_parser) (0x82 ∷ 0xFE ∷ 0x01 ∷ [])
      ≡ some (t, npos))
    × (parse t (0x2C ∷ 1 ∷ 2 ∷ 3 ∷ 4 ∷ 9 ∷ []) ≡ some (parsed 0x32 (1 ∷ 2 ∷ 3 ∷ 4 ∷ []) 300, 5))
parse-split_example =
    parse-split new_parser 0x32 1 2 3 4 300 (0x82 ∷ 0xFE ∷ 0x01 ∷ []) (1 ∷ 2 ∷ 3 ∷ 4 ∷ []) (9 ∷ [])
      0x2C (omega arith) (omega arith) refl
