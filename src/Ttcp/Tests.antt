-- ===== src/Ttcp/Tests.antt =====
-- A run of ttcp, and its theorem at a concrete input.
use xynet.Prelude.{◌≤◌, ℕ, ◌^◌, ◌<◌, ◌≡◌, refl, arith, [], ◌∷◌, replicate}
use xynet.Ttcp.{
  payload_room, payload_written, LongOrder, client_message, client_payload, ttcp_server,
  ttcp_client, received_all, all_acked,
}
use xynet.Ttcp.Session.{swap, ttcp_server-client}

swap-swap : (l : ℕ) → l < 2 ^ 32 → swap (swap l) ≡ l
swap-swap l h = omega arith

-- The order of a little-endian machine.
abbrev little_endian : LongOrder
little_endian = record { htonl = swap; ntohl = swap; same = λ l. refl; htonl-htonl = swap-swap }

-- The last byte of the length is above 127: swapped, it is a negative number.
inside :
    let message = client_message little_endian 2 700 in
    payload_written message ≤ payload_room little_endian message
unfolding client_message payload_written payload_room
inside = omega arith

ttcp_server-client_example :
    let message = client_message little_endian 2 700 in
    let (acks, end) =
      ttcp_server little_endian message (replicate 2 (client_payload little_endian message)) in
    (end ≡ received_all)
    × (acks ≡ 700 ∷ 700 ∷ [])
    × (ttcp_client little_endian message acks ≡ all_acked)
ttcp_server-client_example =
    ttcp_server-client little_endian 2 700 (omega arith) (omega arith) (omega arith) (omega arith)
      inside
