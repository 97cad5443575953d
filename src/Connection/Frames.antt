-- ===== src/Connection/Frames.antt =====
-- The frames that a server of example/websocket sends: a text message, and a close frame.
use xynet.Prelude.{ℕ, ◌+◌, ◌*◌, ◌/◌, ◌%◌, ◌^◌, ◌<◌, ◌≡◌, arith, ◌∙◌, ap}
use xynet.Prelude.{List, [], ◌∷◌, ◌++◌, length, drop, replicate, drop-append, some}
use mathlib.Core.List.{append_assoc}
use xynet.Websocket.Header.{websocket_frame_header, view}
use xynet.Websocket.Header.Layout.{layout, view-layout}
use xynet.Websocket.Parser.{new_parser, parse}
use xynet.Websocket.Parser.RoundTrip.{parsed, parse-layout}
use xynet.Connection.{status_bytes, websocket_send_close, text_frame}

abbrev pub zero_key : List ℕ
zero_key = replicate 4 0

-- A new parser reads the flags and the length of the frame, and the message follows the header.
abbrev pub IsRead : ℕ → List ℕ → List ℕ → List ℕ → Type 0
IsRead flags message rest bytes =
    (size : ℕ) × (parse new_parser (bytes ++ rest)
      ≡ some (parsed flags zero_key (length message), size))
    × (drop size (bytes ++ rest) ≡ message ++ rest)

frame-IsRead :
    (flags : ℕ) (message rest : List ℕ)
    → flags < 256
    → length message < 2 ^ 64
    → IsRead flags message rest (view (websocket_frame_header flags (length message)) ++ message)
frame-IsRead flags message rest hf hn =
    let header = layout flags zero_key (length message) in
    let e = view-layout flags (length message) hf in
    let split = append_assoc header message rest in
    rw e (
      length header,
      ap (parse new_parser) split
          ∙ parse-layout flags 0 0 0 0 (length message) (message ++ rest) hf hn,
      ap (drop (length header)) split ∙ drop-append header (message ++ rest),
    )

-- Whatever bytes follow, a client reads back from the frame of a message that it is a final text
-- frame without a mask, its length, and the message behind the header.
pub text_frame-IsRead :
    (message rest : List ℕ)
    → length message < 2 ^ 64
    → IsRead 0x11 message rest (text_frame message)
unfolding text_frame
text_frame-IsRead message rest hn = frame-IsRead 0x11 message rest (omega arith) hn

-- A client reads back from a close frame that it is one, final and without a mask, of two bytes, and
-- the status code from these, most significant byte first.
send_close-IsRead :
    (status_code : ℕ) (rest : List ℕ)
    → status_code < 2 ^ 16
    → (high low : ℕ) × IsRead 0x18 (high ∷ low ∷ []) rest (websocket_send_close status_code)
      × (high * 256 + low ≡ status_code)
unfolding websocket_send_close
send_close-IsRead status_code rest hs = (
  status_code / 256 % 256,
  status_code % 256,
  frame-IsRead 0x18 (status_bytes status_code) rest (omega arith) (omega arith),
  omega arith,
)
