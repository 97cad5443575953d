-- ===== src/Handshake/Response.antt =====
-- What the handler answers to a parsed request.
use xynet.Prelude.{
  ℕ, zero, suc, ◌+◌, ◌-◌, if◌then◌else◌, Bool, true, false, ◌&&◌, ◌≡◌, refl, sym, ap, ◌∙◌, arith,
}
use xynet.Prelude.{List, [], ◌∷◌, ◌++◌, length, take, drop, length-append, drop-append}
use xynet.Prelude.Int.{pos}
use xynet.Handshake.{
  Header, WebsocketRequestHandler, HttpParser, named, same, check_headers, check_header, check_all,
  is_one, is_parsed,
}
use xynet.Handshake.{generate_response, websocket_request_handler, parsed, bad, write_key}
use xynet.Handshake.Strings.{
  response_head, response_place, response_tail, bad_request, model_key, guid, get, key_name,
}
use xynet.Handshake.Strings.{connection_name, upgrade, version_name}
use xynet.Handshake.Base64.{base64_encode, length-base64_encode}

-- Whether every header that the handler knows has the value that it wants.
abbrev fits : Header → Bool
fits (name, value) = (check_header name value []).0

abbrev pub all_fit : List Header → Bool
all_fit [] = true
all_fit (h ∷ hs) = fits h && all_fit hs

-- The value of the last header with a key, or else the key given.
abbrev is_key : List ℕ → Bool
is_key name =
    if same name connection_name
    then false
    else if same name upgrade
    then false
    else if same name version_name
    then false
    else same name key_name

abbrev pub last_key : List ℕ → List Header → List ℕ
last_key key [] = key
last_key key ((name, value) ∷ hs) = if is_key name then last_key value hs else last_key key hs

-- The headers pass exactly when each fits, and then the last key stands in the accept array.
check_headers-last_key :
    (hs : List Header) (key rest : List ℕ)
    → length key ≡ 24
    → all_fit hs ≡ true
    → check_headers hs (key ++ rest) ≡ (true, last_key key hs ++ rest)
unfolding check_headers
check_headers-last_key [] key rest sized h = refl
check_headers-last_key ((name, value) ∷ hs) key rest sized h =
    let dropped : drop 24 (key ++ rest) ≡ rest =
      ap (λ k. drop k (key ++ rest)) (sym sized) ∙ drop-append key rest in
    ground (
      arith,
      dropped,
      check_headers-last_key hs key rest sized,
      check_headers-last_key hs value rest,
    )

check_headers-all_fit :
    (hs : List Header) (concat : List ℕ) → (check_headers hs concat).0 ≡ all_fit hs
unfolding check_headers
check_headers-all_fit [] concat = refl
check_headers-all_fit ((name, value) ∷ hs) concat =
    ground (arith, check_headers-all_fit hs (check_header name value concat).1)

-- A request that is accepted: parsed, with the method GET, version 1 and headers that fit.
abbrev pub accepts : WebsocketRequestHandler → Bool
accepts h =
    is_parsed h.m_state
    && (same h.m_parser.method get
        && (is_one h.m_parser.version && all_fit (named h.m_parser.m_headers)))

-- The new handler after a parse.
abbrev pub ready : HttpParser → WebsocketRequestHandler
ready parser = record (websocket_request_handler parser) { m_state = parsed }

write_key-response :
    (encoded : List ℕ)
    → length encoded ≡ 28
    → write_key encoded (response_head ++ response_place ++ response_tail)
      ≡ response_head ++ encoded ++ response_tail
write_key-response encoded sized =
    ap
      (λ (n : ℕ).
        response_head
        ++ encoded
        ++ drop (97 + n) (response_head ++ response_place ++ response_tail))
      sized

-- A request that is not accepted is answered with 400, whatever the state of the handler before,
-- and the handler is in its bad state.
pub generate_response-rejects :
    (sha1 : List ℕ → List ℕ) (h : WebsocketRequestHandler)
    → accepts h ≡ false
    → let (h', response) = generate_response sha1 h in (response ≡ bad_request) × (h'.m_state ≡ bad)
unfolding generate_response check_all
generate_response-rejects sha1 h refused = ground (
  arith,
  check_headers-all_fit (named h.m_parser.m_headers) h.m_websocket_handshake_accept_concat,
)

take_past : (n m : ℕ) (xs ys : List ℕ) → m ≡ length xs + n → take m (xs ++ ys) ≡ xs ++ take n ys
take_past n m [] ys e = ap (λ (k : ℕ). take k ys) (omega arith)
take_past n zero (x ∷ xs) ys e = absurd (omega arith)
take_past n (suc m) (x ∷ xs) ys e = ap (λ l. x ∷ l) (take_past n m xs ys (omega arith))

length-last_key :
    (hs : List Header) (key : List ℕ)
    → length key ≡ 24
    → all_fit hs ≡ true
    → length (last_key key hs) ≡ 24
length-last_key [] key sized h = sized
length-last_key ((name, value) ∷ hs) key sized h =
    ground (arith, length-last_key hs key sized, length-last_key hs value)

-- What is hashed: the accept array but its last byte.
hashed :
    (key : List ℕ)
    → length key ≡ 24
    → let concat = key ++ (guid ++ (0 ∷ [])) in take (length concat - 1) concat ≡ key ++ guid
hashed key sized =
    take_past 36 _ key (guid ++ (0 ∷ [])) (omega (arith, length-append key (guid ++ (0 ∷ []))))

check_all-ready :
    (parser : HttpParser)
    → accepts (ready parser) ≡ true
    → check_all (ready parser)
      ≡ (true, last_key model_key (named parser.m_headers) ++ (guid ++ (0 ∷ [])))
unfolding check_all websocket_request_handler
check_all-ready parser accepted =
    ground
      (arith, check_headers-last_key (named parser.m_headers) model_key (guid ++ (0 ∷ [])) refl)

-- A new handler answers a request that it accepts with 101 and the accept key of RFC 6455: the
-- base64 form of the digest of the client's key and the GUID, where the digest has 20 bytes. Without
-- a key from the client it is the key of 22 times X and `==`.
pub generate_response-accepts :
    (sha1 : List ℕ → List ℕ) (parser : HttpParser)
    → ((bytes : List ℕ) → length (sha1 bytes) ≡ 20)
    → accepts (ready parser) ≡ true
    → let key = last_key model_key (named parser.m_headers) in
      (generate_response sha1 (ready parser)).1
      ≡ response_head ++ base64_encode (sha1 (key ++ guid)) ++ response_tail
unfolding generate_response websocket_request_handler
generate_response-accepts sha1 parser twenty accepted =
    let hs = named parser.m_headers in
    let key = last_key model_key hs in
    let fit : all_fit hs ≡ true = ground (arith, accepted) in
    let sized = length-last_key hs model_key refl fit in
    let all = check_all-ready parser accepted in
    rw (all, hashed key sized)
      (write_key-response (base64_encode (sha1 (key ++ guid)))
        (omega (arith, length-base64_encode (sha1 (key ++ guid)), twenty (key ++ guid))))

-- A GET request of version 1 without any header, which asks for no upgrade, gets the answer 101,
-- with an accept key made of the key of 22 times X and `==`.
generate_response_unasked :
    (sha1 : List ℕ → List ℕ) (parser : HttpParser)
    → ((bytes : List ℕ) → length (sha1 bytes) ≡ 20)
    → parser.method ≡ get
    → parser.version ≡ pos 1
    → named parser.m_headers ≡ []
    → (generate_response sha1 (ready parser)).1
      ≡ response_head ++ base64_encode (sha1 (model_key ++ guid)) ++ response_tail
unfolding websocket_request_handler
generate_response_unasked sha1 parser twenty m v none_sent =
    let accepted : accepts (ready parser) ≡ true =
      rw (ap (λ method. same method get) m, ap is_one v, ap all_fit none_sent) refl in
    generate_response-accepts sha1 parser twenty accepted
    ∙ ap
        (λ hs.
          response_head ++ base64_encode (sha1 (last_key model_key hs ++ guid)) ++ response_tail)
        none_sent
