-- ===== src/Ttcp.antt =====
-- example/ttcp: ttcp_server.cpp and ttcp_client.cpp. An `int32_t` is its 32 bits as a number. The
-- payloads and the acknowledgements are lists; where one runs out, `recv` throws.
pub mod Session
mod Tests
use xynet.Prelude.{ℕ, zero, suc, ◌+◌, ◌^◌, ◌<◌, ◌≡◌, ◌==◌, ltb, leb, if◌then◌else◌, Bool, not, ◌&&◌}
use xynet.Prelude.{List, [], ◌∷◌}

-- What the code relies on of the C library: the two conversions are the same, and each undoes the
-- other.
pub record LongOrder : Type 0 where
  pub htonl : ℕ → ℕ
  pub ntohl : ℕ → ℕ
  pub same : (l : ℕ) → ntohl l ≡ htonl l
  pub htonl-htonl : (l : ℕ) → l < 2 ^ 32 → htonl (htonl l) ≡ l

pub record TtcpMessage : Type 0 where
  pub number : ℕ
  pub len : ℕ

-- What arrives of a payload: its length, and how many bytes a `recv` of its data gets.
pub record TtcpPayload : Type 0 where
  pub len : ℕ
  pub data_len : ℕ

-- `message.number > 0`
abbrev pub is_positive : ℕ → Bool
is_positive n = ltb 0 n && ltb n (2 ^ 31)

-- How the server ends: with a check that failed, an exception, or all the payloads.
pub data ServerEnd : Type 0 where
  number_failed no_buffer payload_failed recv_thrown received_all : ServerEnd

-- `recv` of a payload into a buffer of `len` bytes: it throws `eof` where fewer come, and where the
-- buffer is empty and gets the answer 0.
abbrev pub recv_payload : ℕ → TtcpPayload → Bool
recv_payload len payload = not (len == 0) && leb len payload.data_len

-- The loop over the payloads, with the acknowledgements.
unfoldable pub server_rounds : ℕ → ℕ → List TtcpPayload → List ℕ × ServerEnd
server_rounds zero len payloads = ([], received_all)
server_rounds (suc n) len [] = ([], recv_thrown)
server_rounds (suc n) len (payload ∷ payloads) =
    let (acks, end) = server_rounds n len payloads in
    if payload.len == len
    then if recv_payload len payload then (payload.len ∷ acks, end) else ([], recv_thrown)
    else ([], payload_failed)

-- A `vector` of a negative length throws.
unfoldable pub ttcp_server : LongOrder → TtcpMessage → List TtcpPayload → List ℕ × ServerEnd
unfolding server_rounds
ttcp_server order message payloads =
    let number = order.ntohl message.number in
    let len = order.ntohl message.len in
    if not (is_positive number)
    then ([], number_failed)
    else if ltb len (2 ^ 31)
    then server_rounds number len payloads
    else ([], no_buffer)

-- How the client ends: where it writes beyond its payload, C++ defines nothing.
pub data ClientEnd : Type 0 where
  ack_failed recv_failed all_acked undefined : ClientEnd

-- The message as the client keeps and sends it.
unfoldable pub client_message : LongOrder → ℕ → ℕ → TtcpMessage
client_message order number len = record { number = order.htonl number; len = order.htonl len }

-- `ttcp_payload->length`
unfoldable pub payload_length : LongOrder → TtcpMessage → ℕ
payload_length order message = order.htonl message.len

-- The bytes of the payload behind its length, and how many of them the client writes.
unfoldable pub payload_room : LongOrder → TtcpMessage → ℕ
payload_room order message = order.ntohl message.len

-- What the client sends in each round.
unfoldable pub client_payload : LongOrder → TtcpMessage → TtcpPayload
unfolding payload_length payload_room
client_payload order message = record {
  len = payload_length order message;
  data_len = payload_room order message;
}

unfoldable pub payload_written : TtcpMessage → ℕ
payload_written message = if ltb message.len (2 ^ 31) then message.len else 0

-- The loop over the acknowledgements.
unfoldable pub client_rounds : LongOrder → TtcpMessage → ℕ → List ℕ → ClientEnd
client_rounds order message zero acks = all_acked
client_rounds order message (suc n) [] = recv_failed
client_rounds order message (suc n) (ack ∷ acks) =
    let rest = client_rounds order message n acks in
    if order.ntohl ack == message.len then rest else ack_failed

-- The payload is filled before the loop.
unfoldable pub ttcp_client : LongOrder → TtcpMessage → List ℕ → ClientEnd
unfolding client_rounds payload_room payload_written
ttcp_client order message acks =
    let rounds = client_rounds order message (order.ntohl message.number) acks in
    if ltb (payload_room order message) (payload_written message) then undefined else rounds
