-- ===== src/Chat/Session.antt =====
-- A session of example/chat/chat_server.cpp in its room: `reader` with the deliveries that it makes,
-- where nothing else comes between, and the head that it puts before each line.
use xynet.Prelude.{
  ℕ, ◌+◌, ◌-◌, ◌^◌, ◌≤◌, ◌<◌, ◌≡◌, arith, ap, ◌∙◌, take, drop, take-append, length-append,
  length-replicate,
}
use xynet.Prelude.{List, [], ◌∷◌, ◌++◌, length, replicate, All, Option, some}
use mathlib.Core.Option
use xynet.Socket.Address.{SocketAddress, ByteOrder}
use xynet.Socket.Text.{InetText, to_str, length-to_str}
use xynet.StreamBuffer.{StreamBuffer, Placement, size, data_view}
use xynet.StreamBuffer.Room.{IsValid}
use xynet.Chat.{ChatSession, ChatRoom, blank, make_message_head, reader}
use xynet.Chat.Lines.{lines_from, IsOpen}
use xynet.Chat.Reader.{with_head, joined, reader-lines}
use xynet.Chat.Room.{IsRoom, Heard, deliver_messages, deliver_messages-Heard}

-- `reader`, with the room that its calls of `deliver` leave.
unfoldable pub session_room :
    Placement → List ℕ → List (List ℕ) → StreamBuffer → ChatRoom → Option ChatRoom
session_room place head chunks sbuf room =
    Option.map (λ r. deliver_messages r.1 room) (reader place head chunks sbuf)

-- The head of a session whose address has a text of at most 21 bytes, as every IPv4 address with a
-- port has, is 24 bytes long.
length-make_message_head :
    (s : ChatSession) → length s.address ≤ 21 → length (make_message_head s) ≡ 24
unfolding make_message_head
length-make_message_head s short =
    let few : blank s.address ≡ 21 - length s.address = ground arith in
    omega (
      arith,
      few,
      length-append {A = ℕ} (124 ∷ s.address) (replicate (blank s.address) 32 ++ (124 ∷ 58 ∷ [])),
      length-append {A = ℕ} (replicate (blank s.address) 32) (124 ∷ 58 ∷ []),
      length-replicate {A = ℕ} (blank s.address) 32,
    )

-- A session whose address is the text of a socket address, whatever that is, has a head of 24 bytes:
-- the padding does not wrap, and the address stands in it uncut.
pub make_message_head-to_str :
    (inet : InetText) (order : ByteOrder) (a : SocketAddress) (s : ChatSession)
    → s.address ≡ to_str inet order a
    → (length (make_message_head s) ≡ 24)
      × (blank s.address + length s.address ≡ 21)
      × (take (length s.address) (drop 1 (make_message_head s)) ≡ to_str inet order a)
unfolding make_message_head
make_message_head-to_str inet order a s e =
    let short : length s.address ≤ 21 = rw e (length-to_str inet order a) in
    (
      length-make_message_head s short,
      ground arith,
      take-append s.address (replicate (blank s.address) 32 ++ (124 ∷ 58 ∷ [])) ∙ e,
    )

-- What a client of the chat types is heard by every participant: however its stream is cut into
-- pieces of at most 1024 bytes, each finished line of what the stream buffer holds and the stream,
-- behind the head of the session, is added once and in order to the pending messages of each
-- participant, and to nobody else's, and the room remembers the last ten of its messages. The
-- buffer is valid and holds no newline, all these bytes and 1024 more are below 2 ^ 31, nobody is
-- twice in the room, it remembers at most ten messages, and nothing else delivers meanwhile.
pub session_room-Heard :
    (place : Placement) (head : List ℕ) (chunks : List (List ℕ)) (sbuf : StreamBuffer)
    (room : ChatRoom)
    → IsValid sbuf
    → IsOpen (data_view sbuf)
    → All (λ chunk. length chunk ≤ 1024) chunks
    → size sbuf + length (joined chunks) + 1024 < 2 ^ 31
    → IsRoom room
    → (room' : ChatRoom) × (session_room place head chunks sbuf room ≡ some room')
      × Heard (with_head head (lines_from (data_view sbuf) (joined chunks)).0) room room'
unfolding session_room
session_room-Heard place head chunks sbuf room v before few fits once =
    let (s, parsed, _, _, _) = reader-lines place head chunks sbuf v before few fits in
    let lines = with_head head (lines_from (data_view sbuf) (joined chunks)).0 in
    (
      deliver_messages lines room,
      ap (Option.map (λ r. deliver_messages r.1 room)) parsed,
      deliver_messages-Heard lines room once,
    )
