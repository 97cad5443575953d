-- ===== src/Ttcp/Session.antt =====
-- A client and a server of example/ttcp with each other.
use xynet.Prelude.{
  ℕ, zero, suc, ◌+◌, ◌*◌, ◌/◌, ◌%◌, ◌^◌, ◌<◌, ◌≤◌, ◌≡◌, refl, arith, ◌∙◌, ap, ltb, true, false,
  Bool, List, if◌then◌else◌,
}
use xynet.Prelude.{replicate}
use xynet.Ttcp.{
  LongOrder, TtcpMessage, is_positive, received_all, server_rounds, ttcp_server, all_acked,
  client_message, undefined, client_payload, payload_length, payload_room, payload_written,
  client_rounds, ttcp_client,
}

server_rounds-replicate :
    (n len : ℕ)
    → 0 < len
    → server_rounds n len (replicate n (record { len = len; data_len = len }))
      ≡ (replicate n len, received_all)
unfolding server_rounds
server_rounds-replicate zero len some_bytes = refl
server_rounds-replicate (suc n) len some_bytes =
    ground (arith, server_rounds-replicate n len some_bytes)

module _ (order : LongOrder) where
  back : (l : ℕ) → l < 2 ^ 32 → order.ntohl (order.htonl l) ≡ l
  back l h = order.same (order.htonl l) ∙ order.htonl-htonl l h

  client_rounds-replicate :
      (message : TtcpMessage) (n len : ℕ)
      → order.ntohl len ≡ message.len
      → client_rounds order message n (replicate n len) ≡ all_acked
  unfolding client_rounds
  client_rounds-replicate message zero len e = refl
  client_rounds-replicate message (suc n) len e =
      ground (arith, client_rounds-replicate message n len)

  served :
      (number len : ℕ)
      → 0 < number
      → number < 2 ^ 31
      → 0 < len
      → len < 2 ^ 31
      → let message = client_message order number len in
        ttcp_server order message (replicate number (client_payload order message))
        ≡ (replicate number len, received_all)
  unfolding ttcp_server client_message client_payload payload_length payload_room
  served number len some_payload small some_bytes short =
      let positive : is_positive number ≡ true = ground arith in
      let fits : ltb len (2 ^ 31) ≡ true = ground arith in
      rw (back number (omega arith), back len (omega arith), order.htonl-htonl len (omega arith))
        (rw (positive, fits) (server_rounds-replicate number len some_bytes))

  -- A client that announces `number` payloads of `len` bytes, both at least one and below 2 ^ 31,
  -- and does not write beyond the payload that it has allocated, and the server, agree: the server
  -- receives all the payloads and acknowledges each with its length, and the client accepts every
  -- acknowledgement.
  pub ttcp_server-client :
      (number len : ℕ)
      → 0 < number
      → number < 2 ^ 31
      → 0 < len
      → len < 2 ^ 31
      → let message = client_message order number len in
        let (acks, end) =
          ttcp_server order message (replicate number (client_payload order message)) in
        payload_written message ≤ payload_room order message
        → (end ≡ received_all)
          × (acks ≡ replicate number len)
          × (ttcp_client order message acks ≡ all_acked)
  unfolding ttcp_server ttcp_client client_message client_payload payload_length payload_room
  ttcp_server-client number len some_payload small some_bytes short inside =
      let message = client_message order number len in
      let done = served number len some_payload small some_bytes short in
      let fits : ltb (payload_room order message) (payload_written message) ≡ false =
        ground arith in
      (
        ap (λ r. r.1) done,
        ap (λ r. r.0) done,
        ap (λ r. ttcp_client order message r.0) done
            ∙ ap
                (λ (beyond : Bool).
                  if beyond
                  then undefined
                  else client_rounds order message (order.ntohl message.number)
                      (replicate number len))
                fits
            ∙ ap (λ n. client_rounds order message n (replicate number len))
                (back number (omega arith))
            ∙ client_rounds-replicate message number len (order.same len),
      )

-- The order of a little-endian machine.
abbrev pub swap : ℕ → ℕ
swap l =
    l % 2 ^ 8 * 2 ^ 24
    + l / 2 ^ 8 % 2 ^ 8 * 2 ^ 16
    + l / 2 ^ 16 % 2 ^ 8 * 2 ^ 8
    + l / 2 ^ 24 % 2 ^ 8

-- On a little-endian machine the client writes beyond its payload, up to the length with its bytes
-- swapped, wherever the last byte of the length is between 1 and 127 and the length below 2 ^ 24.
payload_overflow :
    (order : LongOrder) (number len : ℕ)
    → order.htonl len ≡ swap len
    → 0 < len % 2 ^ 8
    → len % 2 ^ 8 < 128
    → len < 2 ^ 24
    → let message = client_message order number len in
      (acks : List ℕ) → ttcp_client order message acks ≡ undefined
unfolding client_message payload_room payload_written ttcp_client
payload_overflow order number len e some_low low small acks =
    let room = back order len (omega arith) in
    let above : len < swap len = omega arith in
    let positive : swap len < 2 ^ 31 = omega arith in ground (arith, e, room, above, positive)
