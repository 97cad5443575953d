-- ===== src/Handshake/Strings.antt =====
-- The strings of websocket_request_handler.h.
use xynet.Prelude.{ℕ, List, [], ◌∷◌}

-- `websocket_handshake_response_model` up to the first `+`: "HTTP/1.1 101 ..." to
-- "Sec-WebSocket-Accept: ".
abbrev pub response_head : List ℕ
response_head =
    72 ∷ 84 ∷ 84 ∷ 80 ∷ 47 ∷ 49 ∷ 46 ∷ 49 ∷ 32 ∷ 49 ∷ 48 ∷ 49 ∷ 32 ∷ 83 ∷ 119 ∷ 105 ∷ 116 ∷ 99 ∷ 104
    ∷ 105 ∷ 110 ∷ 103 ∷ 32 ∷ 80 ∷ 114 ∷ 111 ∷ 116 ∷ 111 ∷ 99 ∷ 111 ∷ 108 ∷ 115 ∷ 13 ∷ 10 ∷ 85 ∷ 112
    ∷ 103 ∷ 114 ∷ 97 ∷ 100 ∷ 101 ∷ 58 ∷ 32 ∷ 119 ∷ 101 ∷ 98 ∷ 115 ∷ 111 ∷ 99 ∷ 107 ∷ 101 ∷ 116 ∷ 13
    ∷ 10 ∷ 67 ∷ 111 ∷ 110 ∷ 110 ∷ 101 ∷ 99 ∷ 116 ∷ 105 ∷ 111 ∷ 110 ∷ 58 ∷ 32 ∷ 85 ∷ 112 ∷ 103 ∷ 114
    ∷ 97 ∷ 100 ∷ 101 ∷ 13 ∷ 10 ∷ 83 ∷ 101 ∷ 99 ∷ 45 ∷ 87 ∷ 101 ∷ 98 ∷ 83 ∷ 111 ∷ 99 ∷ 107 ∷ 101
    ∷ 116 ∷ 45 ∷ 65 ∷ 99 ∷ 99 ∷ 101 ∷ 112 ∷ 116 ∷ 58 ∷ 32 ∷ []

-- The place of the accept key: "+XXX...".
abbrev pub response_place : List ℕ
response_place =
    43 ∷ 88 ∷ 88 ∷ 88 ∷ 88 ∷ 88 ∷ 88 ∷ 88 ∷ 88 ∷ 88 ∷ 88 ∷ 88 ∷ 88 ∷ 88 ∷ 88 ∷ 88 ∷ 88 ∷ 88 ∷ 88
    ∷ 88 ∷ 88 ∷ 88 ∷ 88 ∷ 88 ∷ 88 ∷ 88 ∷ 88 ∷ 88 ∷ []

-- The end of the last header and of the response.
abbrev pub response_tail : List ℕ
response_tail = 13 ∷ 10 ∷ 13 ∷ 10 ∷ []

-- `websocket_handshake_response_bad_request`, "HTTP/1.1 400 Bad Request".
abbrev pub bad_request : List ℕ
bad_request =
    72 ∷ 84 ∷ 84 ∷ 80 ∷ 47 ∷ 49 ∷ 46 ∷ 49 ∷ 32 ∷ 52 ∷ 48 ∷ 48 ∷ 32 ∷ 66 ∷ 97 ∷ 100 ∷ 32 ∷ 82 ∷ 101
    ∷ 113 ∷ 117 ∷ 101 ∷ 115 ∷ 116 ∷ 13 ∷ 10 ∷ []

-- The first 24 bytes of `websocket_handshake_accept_concat`, "XXXXXXXXXXXXXXXXXXXXXX==".
abbrev pub model_key : List ℕ
model_key =
    88 ∷ 88 ∷ 88 ∷ 88 ∷ 88 ∷ 88 ∷ 88 ∷ 88 ∷ 88 ∷ 88 ∷ 88 ∷ 88 ∷ 88 ∷ 88 ∷ 88 ∷ 88 ∷ 88 ∷ 88 ∷ 88
    ∷ 88 ∷ 88 ∷ 88 ∷ 61 ∷ 61 ∷ []

-- The GUID of RFC 6455, section 1.3, "258EAFA5-...", which follows them.
abbrev pub guid : List ℕ
guid =
    50 ∷ 53 ∷ 56 ∷ 69 ∷ 65 ∷ 70 ∷ 65 ∷ 53 ∷ 45 ∷ 69 ∷ 57 ∷ 49 ∷ 52 ∷ 45 ∷ 52 ∷ 55 ∷ 68 ∷ 65 ∷ 45
    ∷ 57 ∷ 53 ∷ 67 ∷ 65 ∷ 45 ∷ 67 ∷ 53 ∷ 65 ∷ 66 ∷ 48 ∷ 68 ∷ 67 ∷ 56 ∷ 53 ∷ 66 ∷ 49 ∷ 49 ∷ []

-- "GET"
abbrev pub get : List ℕ
get = 71 ∷ 69 ∷ 84 ∷ []

-- "Upgrade"
abbrev pub upgrade : List ℕ
upgrade = 85 ∷ 112 ∷ 103 ∷ 114 ∷ 97 ∷ 100 ∷ 101 ∷ []

-- "websocket"
abbrev pub websocket : List ℕ
websocket = 119 ∷ 101 ∷ 98 ∷ 115 ∷ 111 ∷ 99 ∷ 107 ∷ 101 ∷ 116 ∷ []

-- "13"
abbrev pub thirteen : List ℕ
thirteen = 49 ∷ 51 ∷ []

-- "Connection"
abbrev pub connection_name : List ℕ
connection_name = 67 ∷ 111 ∷ 110 ∷ 110 ∷ 101 ∷ 99 ∷ 116 ∷ 105 ∷ 111 ∷ 110 ∷ []

-- "Sec-WebSocket-Version"
abbrev pub version_name : List ℕ
version_name =
    83 ∷ 101 ∷ 99 ∷ 45 ∷ 87 ∷ 101 ∷ 98 ∷ 83 ∷ 111 ∷ 99 ∷ 107 ∷ 101 ∷ 116 ∷ 45 ∷ 86 ∷ 101 ∷ 114 ∷ 115
    ∷ 105 ∷ 111 ∷ 110 ∷ []

-- "Sec-WebSocket-Key"
abbrev pub key_name : List ℕ
key_name =
    83 ∷ 101 ∷ 99 ∷ 45 ∷ 87 ∷ 101 ∷ 98 ∷ 83 ∷ 111 ∷ 99 ∷ 107 ∷ 101 ∷ 116 ∷ 45 ∷ 75 ∷ 101 ∷ 121 ∷ []

-- "ABC...XYZabc...xyz0123456789+/"
abbrev pub basis_64 : List ℕ
basis_64 =
    65 ∷ 66 ∷ 67 ∷ 68 ∷ 69 ∷ 70 ∷ 71 ∷ 72 ∷ 73 ∷ 74 ∷ 75 ∷ 76 ∷ 77 ∷ 78 ∷ 79 ∷ 80 ∷ 81 ∷ 82 ∷ 83
    ∷ 84 ∷ 85 ∷ 86 ∷ 87 ∷ 88 ∷ 89 ∷ 90 ∷ 97 ∷ 98 ∷ 99 ∷ 100 ∷ 101 ∷ 102 ∷ 103 ∷ 104 ∷ 105 ∷ 106
    ∷ 107 ∷ 108 ∷ 109 ∷ 110 ∷ 111 ∷ 112 ∷ 113 ∷ 114 ∷ 115 ∷ 116 ∷ 117 ∷ 118 ∷ 119 ∷ 120 ∷ 121 ∷ 122
    ∷ 48 ∷ 49 ∷ 50 ∷ 51 ∷ 52 ∷ 53 ∷ 54 ∷ 55 ∷ 56 ∷ 57 ∷ 43 ∷ 47 ∷ []
