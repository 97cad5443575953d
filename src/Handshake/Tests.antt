-- ===== src/Handshake/Tests.antt =====
-- Runs of the handshake, and its theorems at concrete inputs.
use xynet.Prelude.{ℕ, ◌≡◌, refl, List, [], ◌∷◌, length, replicate, some, arith}
use xynet.Prelude.Int.{pos}
use xynet.Handshake.{HttpParser, PhrHeader}
use xynet.Handshake.Strings.{get, upgrade, websocket, connection_name, key_name}
use xynet.Handshake.Base64.{base64_encode, base64, base64_encode-base64}

-- The sample nonce of RFC 6455, section 1.3, "dGhlIHNhbXBsZSBub25jZQ==".
abbrev nonce : List ℕ
nonce =
    100 ∷ 71 ∷ 104 ∷ 108 ∷ 73 ∷ 72 ∷ 78 ∷ 104 ∷ 98 ∷ 88 ∷ 66 ∷ 115 ∷ 90 ∷ 83 ∷ 66 ∷ 117 ∷ 98 ∷ 50
    ∷ 53 ∷ 106 ∷ 90 ∷ 81 ∷ 61 ∷ 61 ∷ []

abbrev header : List ℕ → List ℕ → PhrHeader
header name value = record { name = some name; value = value }

abbrev request : List PhrHeader → HttpParser
request headers = record {
  method = get;
  path = 47 ∷ [];
  version = pos 1;
  m_headers = headers;
  m_headers_num = length headers;
  last_len = 0;
}

abbrev upgrade_request : HttpParser
upgrade_request =
    request (header upgrade websocket ∷ header connection_name upgrade ∷ header key_name nonce ∷ [])

abbrev digest : List ℕ → List ℕ
digest bytes = replicate 20 7

-- "the" is "dGhl".
encode_three : base64_encode (116 ∷ 104 ∷ 101 ∷ []) ≡ 100 ∷ 71 ∷ 104 ∷ 108 ∷ []
unfolding base64_encode
encode_three = refl

base64_encode-base64_example : base64_encode (116 ∷ 104 ∷ []) ≡ base64 (116 ∷ 104 ∷ [])
base64_encode-base64_example =
    base64_encode-base64 (116 ∷ 104 ∷ []) (omega arith, (omega arith, tt))
