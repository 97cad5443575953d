-- ===== src/Connection.antt =====
-- example/include/common/websocket.h and the frames of the servers of example/websocket: the
-- handshake of a server, the frames that it reads and the frames that it sends. The pieces are what
-- each `recv_some` reads, at least one byte and at most the room that it is given; where there is no
-- further piece, `recv_some` throws.
pub mod Frames
pub mod Receive
pub mod Shake
pub mod Replies
pub mod Session
pub mod Served
pub mod EchoSession
mod Tests
use xynet.Prelude.{
  ℕ, zero, suc, ◌+◌, ◌-◌, ◌/◌, ◌%◌, ◌^◌, ◌==◌, ltb, leb, if◌then◌else◌, Bool, true, false, not,
  bit_or,
}
use xynet.Prelude.{List, [], ◌∷◌, ◌++◌, length, take, drop, Option, none, some}
use xynet.Prelude.Int.{ℤ, pos, negsuc}
use xynet.Websocket.Flags.{ws_op_text, ws_op_close, ws_fin, ws_has_mask, has}
use xynet.Websocket.Header.{websocket_frame_header, view}
use xynet.Websocket.Mask.{websocket_mask}
use xynet.Websocket.Parser.{WebsocketFrameHeaderParser, new_parser, parse, mask_uint32_t}
use xynet.Handshake.{
  HttpParser, PhrParseRequest, WebsocketRequestHandler, websocket_request_handler, handler_parse,
  generate_response,
}

abbrev pub max_http_request_size : ℕ
max_http_request_size = 1024

abbrev pub max_websocket_app_data_len : ℕ
max_websocket_app_data_len = 1000

-- How `websocket_handshake` ends: an exception of `recv_some`, `http_bad_request_exception`, or a
-- return, with the response that was sent, if there was one.
pub data Shaken : Type 0 where
  recv_failed bad_request_thrown : Shaken
  returned : Option (List ℕ) → Shaken

-- What follows the loop, with the outer `ret`, which the one of the loop hides.
abbrev pub after_loop : ℤ → Option (List ℕ) → Shaken
after_loop (negsuc (suc zero)) sent = bad_request_thrown
after_loop ret sent = returned sent

abbrev pub is_minus_one : ℤ → Bool
is_minus_one (negsuc zero) = true
is_minus_one ret = false

module _ (phr_parse_request : PhrParseRequest) (sha1 : List ℕ → List ℕ) where
  -- The loop of `websocket_handshake`, with the bytes received so far.
  unfoldable pub handshake_loop : List (List ℕ) → List ℕ → WebsocketRequestHandler → Shaken
  handshake_loop [] received handler =
      if ltb (length received) max_http_request_size then recv_failed else after_loop (pos 0) none
  handshake_loop (piece ∷ pieces) received handler =
      let bytes = received ++ piece in
      let (handler', ret) = handler_parse phr_parse_request bytes handler in
      let next = handshake_loop pieces bytes handler' in
      let response = (generate_response sha1 handler').1 in
      if ltb (length received) max_http_request_size
      then (if is_minus_one ret then next else after_loop (pos 0) (some response))
      else after_loop (pos 0) none

  unfoldable pub websocket_handshake : HttpParser → List (List ℕ) → Shaken
  unfolding handshake_loop
  websocket_handshake parser pieces = handshake_loop pieces [] (websocket_request_handler parser)

-- `htons`, as the bytes that are sent.
abbrev pub status_bytes : ℕ → List ℕ
status_bytes n = n / 256 % 256 ∷ n % 256 ∷ []

-- The bytes that `websocket_send_close` sends before it throws.
unfoldable pub websocket_send_close : ℕ → List ℕ
websocket_send_close status_code =
    view (websocket_frame_header (bit_or ws_op_close ws_fin) 2) ++ status_bytes status_code

-- The frame that the writer of `chat_session` sends of a message.
unfoldable pub text_frame : List ℕ → List ℕ
text_frame message =
    view (websocket_frame_header (bit_or ws_fin ws_op_text) (length message)) ++ message

-- The status of the close frame that `websocket_check_parser_result` sends, if it does; what it
-- sends it by throws, so that the first one is the last.
unfoldable pub websocket_check_parser_result : ℕ → ℕ → Option ℕ
websocket_check_parser_result flags len =
    if has flags ws_op_close
    then some 1000
    else if not (has flags ws_fin)
    then some 1003
    else if not (has flags ws_has_mask)
    then some 1008
    else if ltb max_websocket_app_data_len len
    then some 1009
    else none

-- How `websocket_recv_data` ends: with the data, in place and unmasked; with a close frame and its
-- exception; with a span that leaves the buffer; with an exception of `recv_some`; or without a
-- value, at its end.
pub data Received : Type 0 where
  data_span : List ℕ → Received
  closed : List ℕ → Received
  wild_span : ℕ → ℕ → Received
  recv_thrown no_value : Received

-- What follows a result of the parser that is not `UINT32_MAX`.
unfoldable pub on_header : WebsocketFrameHeaderParser → ℕ → List ℕ → Received
on_header parser ret buf = elim (websocket_check_parser_result parser.m_flags parser.m_length) [
  | some status_code ↦ closed (websocket_send_close status_code)
  | none ↦
      if leb (ret + parser.m_length) (length buf)
      then data_span
          (websocket_mask (take parser.m_length (drop ret buf)) (mask_uint32_t parser) 0).0
      else wild_span ret parser.m_length
]

-- `websocket_recv_data`, with the bytes received so far, which are the first of the buffer; `none`
-- stands for a parser that runs out of fuel.
unfoldable pub recv_loop :
    List (List ℕ) → List ℕ → List ℕ → WebsocketFrameHeaderParser → Option Received
unfolding on_header
recv_loop [] received buf parser =
    some (if ltb (length received) max_http_request_size then recv_thrown else no_value)
recv_loop (piece ∷ pieces) received buf parser =
    let bytes = received ++ piece in
    elim (parse parser bytes) [
      | none ↦ none
      | some result ↦
          let next = recv_loop pieces bytes buf result.0 in
          if ltb (length received) max_http_request_size
          then (if result.1 == 2 ^ 32 - 1
              then next
              else some (on_header result.0 result.1 (bytes ++ drop (length bytes) buf)))
          else some no_value
    ]

unfoldable pub websocket_recv_data : List (List ℕ) → List ℕ → Option Received
unfolding recv_loop
websocket_recv_data pieces buf = recv_loop pieces [] buf new_parser

-- `echo_once` of example/websocket/websocket_echo.cpp: the frame that it sends, if it comes so far.
abbrev pub reply_to : Received → Option (List ℕ)
reply_to (data_span bytes) = some (text_frame bytes)
reply_to ended = none

unfoldable pub echo_once : List (List ℕ) → List ℕ → Option (List ℕ)
echo_once pieces buf = elim (websocket_recv_data pieces buf) [
  | none ↦ none
  | some received ↦ reply_to received
]

-- The message that the reader of `chat_session` in websocket_chat.cpp makes of the data.
abbrev pub message_of : List ℕ → Received → Option (List ℕ)
message_of m_message_head (data_span bytes) = some (m_message_head ++ bytes)
message_of m_message_head ended = none

unfoldable pub read_message : List ℕ → List (List ℕ) → List ℕ → Option (List ℕ)
read_message m_message_head pieces buf = elim (websocket_recv_data pieces buf) [
  | none ↦ none
  | some received ↦ message_of m_message_head received
]
