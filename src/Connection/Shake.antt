-- ===== src/Connection/Shake.antt =====
-- What `websocket_handshake` of example/include/common/websocket.h answers to which request.
use xynet.Prelude.{
  ℕ, ◌≡◌, ◌≢◌, refl, arith, ◌∙◌, ap, Bool, ◌⊎◌, ltb, true, false, Bool-cases, inl, inr,
}
use xynet.Prelude.{List, [], ◌∷◌, ◌++◌, length, none, some}
use xynet.Prelude.Int.{pos, negsuc}
use xynet.Handshake.{
  HttpParser, PhrParseRequest, WebsocketRequestHandler, websocket_request_handler, http_parse,
  handler_parse, generate_response, named, state_of,
}
use xynet.Handshake.Base64.{base64_encode}
use xynet.Handshake.Strings.{response_head, response_tail, bad_request, model_key, guid}
use xynet.Handshake.Response.{
  accepts, ready, last_key, generate_response-rejects, generate_response-accepts,
}
use xynet.Connection.{
  Shaken, recv_failed, bad_request_thrown, returned, is_minus_one, handshake_loop,
  websocket_handshake,
}

module _ (phr_parse_request : PhrParseRequest) (sha1 : List ℕ → List ℕ) where
  -- A piece that the parser does not answer with -1 is answered.
  handshake-answers :
      (parser : HttpParser) (piece : List ℕ) (pieces : List (List ℕ))
      → let (h, ret) = handler_parse phr_parse_request piece (websocket_request_handler parser) in
        is_minus_one ret ≡ false
        → websocket_handshake phr_parse_request sha1 parser (piece ∷ pieces)
          ≡ returned (some (generate_response sha1 h).1)
  unfolding websocket_handshake handshake_loop
  handshake-answers parser piece pieces e = rw e refl

  -- The parser after the piece.
  abbrev pub request_of : HttpParser → List ℕ → HttpParser
  request_of parser piece = record ((phr_parse_request piece parser).request) {
    last_len = length piece;
  }

  -- A request that comes whole in the first piece, and that the handler accepts, is answered with
  -- 101 and the accept key of RFC 6455, where the digest has 20 bytes; the handshake returns.
  pub handshake-accepts :
      (parser : HttpParser) (piece : List ℕ) (pieces : List (List ℕ)) (n : ℕ)
      → ((bytes : List ℕ) → length (sha1 bytes) ≡ 20)
      → (phr_parse_request piece parser).ret ≡ pos n
      → accepts (ready (request_of parser piece)) ≡ true
      → let key = last_key model_key (named (phr_parse_request piece parser).request.m_headers) in
        websocket_handshake phr_parse_request sha1 parser (piece ∷ pieces)
        ≡ returned (some (response_head ++ base64_encode (sha1 (key ++ guid)) ++ response_tail))
  unfolding handler_parse http_parse websocket_request_handler
  handshake-accepts parser piece pieces n twenty complete accepted =
      handshake-answers parser piece pieces (ap is_minus_one complete)
      ∙ ap
          (λ ret. returned (
            some
              (generate_response sha1
                (record (websocket_request_handler (request_of parser piece)) {
                  m_state = state_of ret;
                })).1))
          complete
      ∙ ap (λ response. returned (some response))
          (generate_response-accepts sha1 (request_of parser piece) twenty accepted)

  -- A request that is not complete in the first piece, for which `phr_parse_request` returns -2,
  -- is answered with 400 at once, and no further piece is read; the handshake returns.
  handshake_incomplete :
      (parser : HttpParser) (piece : List ℕ) (pieces : List (List ℕ))
      → (phr_parse_request piece parser).ret ≡ negsuc 1
      → websocket_handshake phr_parse_request sha1 parser (piece ∷ pieces)
        ≡ returned (some bad_request)
  unfolding handler_parse http_parse websocket_request_handler
  handshake_incomplete parser piece pieces cut =
      let h = (handler_parse phr_parse_request piece (websocket_request_handler parser)).0 in
      let refused : accepts h ≡ false = rw cut refl in
      handshake-answers parser piece pieces (ap is_minus_one cut)
      ∙ ap (λ response. returned (some response)) (generate_response-rejects sha1 h refused).0

  abbrev IsQuiet : Shaken → Type 0
  IsQuiet shaken = (shaken ≡ recv_failed) ⊎ (shaken ≡ returned none)

  loop_malformed :
      (pieces : List (List ℕ)) (received : List ℕ) (handler : WebsocketRequestHandler)
      → ((bytes : List ℕ) (parser : HttpParser) → (phr_parse_request bytes parser).ret ≡ negsuc 0)
      → IsQuiet (handshake_loop phr_parse_request sha1 pieces received handler)
  unfolding handshake_loop handler_parse http_parse
  loop_malformed [] received handler bad = elim (Bool-cases (ltb (length received) 1024)) [
    | inl e ↦ rw e (inl refl)
    | inr e ↦ rw e (inr refl)
  ]
  loop_malformed (piece ∷ pieces) received handler bad =
      elim (Bool-cases (ltb (length received) 1024)) [
        | inl e ↦
            rw (e, bad (received ++ piece) handler.m_parser)
              (loop_malformed pieces (received ++ piece) _ bad)
        | inr e ↦ rw e (inr refl)
      ]

  -- A request that is malformed from its first bytes on, for which `phr_parse_request` returns -1,
  -- gets no answer: the handshake reads on until the peer gives up or 1024 bytes are read, and in
  -- that case it returns.
  handshake_malformed :
      (parser : HttpParser) (pieces : List (List ℕ))
      → ((bytes : List ℕ) (p : HttpParser) → (phr_parse_request bytes p).ret ≡ negsuc 0)
      → (websocket_handshake phr_parse_request sha1 parser pieces ≡ recv_failed)
        ⊎ (websocket_handshake phr_parse_request sha1 parser pieces ≡ returned none)
  unfolding websocket_handshake
  handshake_malformed parser pieces bad =
      loop_malformed pieces [] (websocket_request_handler parser) bad

  abbrev threw : Shaken → Bool
  threw bad_request_thrown = true
  threw recv_failed = false
  threw (returned sent) = false

  loop_quiet :
      (pieces : List (List ℕ)) (received : List ℕ) (handler : WebsocketRequestHandler)
      → threw (handshake_loop phr_parse_request sha1 pieces received handler) ≡ false
  unfolding handshake_loop
  loop_quiet [] received handler = ground arith
  loop_quiet (piece ∷ pieces) received handler = ground (
    arith,
    loop_quiet pieces (received ++ piece)
        (handler_parse phr_parse_request (received ++ piece) handler).0,
  )

  -- `http_bad_request_exception` is never thrown, whatever the request and the answer to it.
  handshake_never_throws :
      (parser : HttpParser) (pieces : List (List ℕ))
      → websocket_handshake phr_parse_request sha1 parser pieces ≢ bad_request_thrown
  unfolding websocket_handshake
  handshake_never_throws parser pieces e =
      let quiet = loop_quiet pieces [] (websocket_request_handler parser) in
      let loud = ap threw e in cc
