-- ===== src/Handshake.antt =====
-- http_parser of include/xynet/http/http_parser.h and websocket_request_handler of
-- http/websocket_request_handler.h: the answer to a WebSocket handshake. `phr_parse_request` and
-- `SHA1` are parameters. A string is the list of its bytes; a byte is below 256, where the code has
-- a signed `char`.
pub mod Base64
pub mod Strings
pub mod Response
mod Tests
use xynet.Prelude.{
  ℕ, zero, suc, ◌+◌, ◌-◌, ◌*◌, ◌/◌, ◌==◌, if◌then◌else◌, Bool, true, false, ◌&&◌, not,
}
use xynet.Prelude.{
  List, [], ◌∷◌, ◌++◌, length, take, drop, get_or, Option, none, some, bit_and, bit_or,
}
use xynet.Prelude.Int.{ℤ, pos, negsuc}
use xynet.Handshake.Strings.{
  response_head, response_place, response_tail, bad_request, model_key, guid,
}
use xynet.Handshake.Strings.{
  get, upgrade, websocket, thirteen, connection_name, version_name, key_name,
}
use xynet.Handshake.Base64.{base64_encode}

abbrev pub same : List ℕ → List ℕ → Bool
same [] [] = true
same [] (y ∷ ys) = false
same (x ∷ xs) [] = false
same (x ∷ xs) (y ∷ ys) = (x == y) && same xs ys

-- `phr_header`; a `name` of `none` is the null pointer.
pub record PhrHeader : Type 0 where
  pub name : Option (List ℕ)
  pub value : List ℕ

pub record HttpParser : Type 0 where
  pub method : List ℕ
  pub path : List ℕ
  pub version : ℤ
  pub m_headers : List PhrHeader
  pub m_headers_num : ℕ
  pub last_len : ℕ

-- What `phr_parse_request` returns and writes, from the buffer, the headers, their number and
-- `last_len`.
pub record PhrResult : Type 0 where
  pub ret : ℤ
  pub request : HttpParser

abbrev pub PhrParseRequest : Type 0
PhrParseRequest = List ℕ → HttpParser → PhrResult

unfoldable pub http_parse : PhrParseRequest → List ℕ → HttpParser → HttpParser × ℤ
http_parse phr_parse_request buf p =
    let r = phr_parse_request buf p in (record (r.request) { last_len = length buf }, r.ret)

-- `headers()`: up to the first null name.
abbrev pub Header : Type 0
Header = List ℕ × List ℕ

abbrev pub named : List PhrHeader → List Header
named [] = []
named (h ∷ hs) = elim h.name [ none ↦ [] | some n ↦ (n, h.value) ∷ named hs ]

pub data HandlerState : Type 0 where
  empty incomplete parsed bad : HandlerState

pub record WebsocketRequestHandler : Type 0 where
  pub m_websocket_handshake_response : List ℕ
  pub m_websocket_handshake_accept_concat : List ℕ
  pub m_parser : HttpParser
  pub m_state : HandlerState

-- The accept array ends in the null of its string.
unfoldable pub websocket_request_handler : HttpParser → WebsocketRequestHandler
websocket_request_handler parser = record {
  m_websocket_handshake_response = response_head ++ response_place ++ response_tail;
  m_websocket_handshake_accept_concat = model_key ++ guid ++ (0 ∷ []);
  m_parser = parser;
  m_state = empty;
}

abbrev pub state_of : ℤ → HandlerState
state_of (pos n) = parsed
state_of (negsuc zero) = bad
state_of (negsuc (suc zero)) = incomplete
state_of (negsuc (suc (suc n))) = parsed

unfoldable pub handler_parse :
    PhrParseRequest → List ℕ → WebsocketRequestHandler → WebsocketRequestHandler × ℤ
handler_parse phr_parse_request buf h =
    let (parser, ret) = http_parse phr_parse_request buf h.m_parser in
    (record h { m_parser = parser; m_state = state_of ret }, ret)

-- `check_Sec_WebSocket_Key`, with the accept array that it leaves.
abbrev pub check_key : List ℕ → List ℕ → Bool × List ℕ
check_key value concat =
    if length value == 24 then (true, value ++ drop 24 concat) else (false, concat)

-- The entry of `m_header_checker` for a name, applied; a name without one passes.
abbrev pub check_header : List ℕ → List ℕ → List ℕ → Bool × List ℕ
check_header name value concat =
    if same name connection_name
    then (same value upgrade, concat)
    else if same name upgrade
    then (same value websocket, concat)
    else if same name version_name
    then (same value thirteen, concat)
    else if same name key_name
    then check_key value concat
    else (true, concat)

unfoldable pub check_headers : List Header → List ℕ → Bool × List ℕ
check_headers [] concat = (true, concat)
check_headers ((name, value) ∷ hs) concat =
    let (ok, concat') = check_header name value concat in
    let rest = check_headers hs concat' in if ok then rest else (false, concat')

abbrev pub is_one : ℤ → Bool
is_one (pos n) = n == 1
is_one (negsuc n) = false

unfoldable pub check_all : WebsocketRequestHandler → Bool × List ℕ
check_all h =
    if same h.m_parser.method get && is_one h.m_parser.version
    then check_headers (named h.m_parser.m_headers) h.m_websocket_handshake_accept_concat
    else (false, h.m_websocket_handshake_accept_concat)

abbrev pub is_parsed : HandlerState → Bool
is_parsed parsed = true
is_parsed _ = false

-- `std::copy` of the encoded digest to the place of the key.
abbrev pub write_key : List ℕ → List ℕ → List ℕ
write_key encoded response =
    let at = length response_head in
    take at response ++ encoded ++ drop (at + length encoded) response

unfoldable pub generate_response :
    (List ℕ → List ℕ) → WebsocketRequestHandler → WebsocketRequestHandler × List ℕ
generate_response sha1 h =
    let (ok, concat) = check_all h in
    let digest = sha1 (take (length concat - 1) concat) in
    let response = write_key (base64_encode digest) h.m_websocket_handshake_response in
    if not (is_parsed h.m_state)
    then (record h { m_state = bad }, bad_request)
    else if ok
    then (
      record h {
        m_websocket_handshake_accept_concat = concat;
        m_websocket_handshake_response = response;
      },
      response,
    )
    else (record h { m_state = bad; m_websocket_handshake_accept_concat = concat }, bad_request)
