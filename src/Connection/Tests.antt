-- ===== src/Connection/Tests.antt =====
-- Runs of a WebSocket connection, and its theorems at concrete inputs.
use xynet.Prelude.{
  ℕ, ◌≡◌, refl, arith, ltb, if◌then◌else◌, List, [], ◌∷◌, ◌++◌, length, replicate, some, count, ◌≤◌,
}
use xynet.Prelude.Int.{pos, negsuc}
use xynet.Handshake.{HttpParser, PhrHeader, PhrParseRequest, websocket_request_handler}
use xynet.Handshake.Strings.{
  response_head, response_tail, guid, get, upgrade, websocket, connection_name, key_name,
}
use xynet.Handshake.Base64.{base64_encode}
use xynet.Connection.Receive.{masked_octets}
use xynet.Connection.{websocket_handshake, returned}
use xynet.Connection.Session.{
  FrameTurn, IsDataFrame, to_turn, messages_of, frame_session, frame_session-Heard, waits,
  read_frames, frame_writer,
}
use xynet.Connection.{websocket_send_close}
use xynet.Connection.EchoSession.{websocket_echo, IsControlFrame, websocket_echo-IsRead}
use xynet.Connection.Session.{stops}
use xynet.Serving.Finish.{finish}
use xynet.Connection.Served.{Ending}
use xynet.Socket.{Socket, file_descriptor}
use xynet.Chat.{ChatRoom}
use xynet.Chat.Room.{IsRoom, Heard}
use xynet.Connection.Shake.{handshake-accepts}

-- The key "dGhlIHNhbXBsZSBub25jZQ==".
abbrev nonce : List ℕ
nonce =
    100 ∷ 71 ∷ 104 ∷ 108 ∷ 73 ∷ 72 ∷ 78 ∷ 104 ∷ 98 ∷ 88 ∷ 66 ∷ 115 ∷ 90 ∷ 83 ∷ 66 ∷ 117 ∷ 98 ∷ 50
    ∷ 53 ∷ 106 ∷ 90 ∷ 81 ∷ 61 ∷ 61 ∷ []

abbrev header : List ℕ → List ℕ → PhrHeader
header name value = record { name = some name; value = value }

abbrev fresh : HttpParser
fresh = record {
  method = [];
  path = [];
  version = pos 0;
  m_headers = [];
  m_headers_num = 100;
  last_len = 0;
}

abbrev request : HttpParser
request = record {
  method = get;
  path = 47 ∷ [];
  version = pos 1;
  m_headers =
      header upgrade websocket ∷ header connection_name upgrade ∷ header key_name nonce ∷ [];
  m_headers_num = 3;
  last_len = 0;
}

-- A parser for which every request of three bytes is that request.
abbrev phr : PhrParseRequest
phr bytes parser =
    if ltb (length bytes) 3
    then record { ret = negsuc 1; request = parser }
    else record { ret = pos 3; request = request }

abbrev phr_malformed : PhrParseRequest
phr_malformed bytes parser = record { ret = negsuc 0; request = parser }

abbrev digest : List ℕ → List ℕ
digest bytes = replicate 20 7

handshake-accepts_example :
    websocket_handshake phr digest fresh ((1 ∷ 2 ∷ 3 ∷ []) ∷ [])
    ≡ returned (some (response_head ++ base64_encode (digest (nonce ++ guid)) ++ response_tail))
unfolding websocket_request_handler
handshake-accepts_example =
    handshake-accepts phr digest fresh (1 ∷ 2 ∷ 3 ∷ []) [] 3 (λ bytes. refl) refl refl

abbrev buffer : List ℕ
buffer = replicate 1024 0xEE

abbrev frame_turn : FrameTurn
frame_turn = record {
  flags = 0x31;
  k0 = 1;
  k1 = 2;
  k2 = 3;
  k3 = 4;
  payload = 104 ∷ 105 ∷ [];
  later = [];
  buf = replicate 8 0;
}

frame_turn-IsDataFrame : IsDataFrame frame_turn
frame_turn-IsDataFrame = record {
  byte = omega arith;
  octets = (omega arith, (omega arith, (omega arith, (omega arith, tt))));
  data_frame = refl;
  final = refl;
  marked = refl;
  short = omega arith;
}

abbrev nobody_yet : ChatRoom
nobody_yet = record {
  m_participants = 4 ∷ [];
  m_recent_messages = [];
  sessions = λ p. record { address = 49 ∷ []; m_write_msgs = []; event_sets = 0 };
}

nobody_twice : (p : ℕ) → count p (4 ∷ []) ≤ 1
nobody_twice p = ground arith

nobody_yet-IsRoom : IsRoom nobody_yet
nobody_yet-IsRoom = record { once = nobody_twice; bounded = omega arith }

frame_session-Heard_example :
    let messages = messages_of (124 ∷ []) (frame_turn ∷ frame_turn ∷ []) in
    (room' : ChatRoom) × (frame_session
        (124 ∷ [])
        (to_turn frame_turn ∷ to_turn frame_turn ∷ [])
        nobody_yet
      ≡ some (room', waits))
    × Heard messages nobody_yet room'
    × (read_frames 2 (frame_writer messages ++ (9 ∷ [])) ≡ some messages)
frame_session-Heard_example =
    frame_session-Heard (124 ∷ []) (frame_turn ∷ frame_turn ∷ []) nobody_yet (9 ∷ []) (omega arith)
      (frame_turn-IsDataFrame, (frame_turn-IsDataFrame, tt)) nobody_yet-IsRoom

abbrev peer : Socket
peer = record file_descriptor { m_fd = pos 5 }

-- A session whose peer ends its stream, and a `shutdown` of no descriptor.
abbrev session_ending : Ending
session_ending = record {
  shut = record { ret = pos 0; errno = 11 };
  answers = (record { res = pos 0; flags = pos 0 }, pos 0) ∷ [];
}

abbrev no_descriptor : Ending
no_descriptor = record { shut = record { ret = negsuc 0; errno = 9 }; answers = [] }

-- A close frame.
abbrev close_turn : FrameTurn
close_turn = record frame_turn { flags = 0x38 }

close_turn-IsControlFrame : IsControlFrame close_turn
close_turn-IsControlFrame = record { byte = omega arith; control = refl; sized = omega arith }

websocket_echo-IsRead_example :
    (echoed : List ℕ) × (websocket_echo 1
        (returned (some (7 ∷ [])))
        (to_turn frame_turn ∷ to_turn frame_turn ∷ to_turn close_turn ∷ [])
        session_ending
        peer
      ≡ some (
        record { sent = (7 ∷ []) ++ (echoed ++ websocket_send_close 1000); end = stops },
        finish 1 session_ending.shut session_ending.answers peer,
      ))
    × (read_frames 2 (echoed ++ websocket_send_close 1000)
        ≡ some (frame_turn.payload ∷ frame_turn.payload ∷ []))
websocket_echo-IsRead_example =
    websocket_echo-IsRead 1 (7 ∷ []) (frame_turn ∷ frame_turn ∷ []) close_turn [] session_ending
      peer (frame_turn-IsDataFrame, (frame_turn-IsDataFrame, tt)) close_turn-IsControlFrame

-- The masked payload `Hello` of RFC 6455, section 5.7.
hello :
    masked_octets (0x37 ∷ 0xfa ∷ 0x21 ∷ 0x3d ∷ []) 0 (0x48 ∷ 0x65 ∷ 0x6c ∷ 0x6c ∷ 0x6f ∷ [])
    ≡ 0x7f ∷ 0x9f ∷ 0x4d ∷ 0x51 ∷ 0x58 ∷ []
unfolding masked_octets
hello = refl
