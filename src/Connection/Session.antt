-- ===== src/Connection/Session.antt =====
-- A `chat_session` of example/websocket/websocket_chat.cpp: its reader over the frames of a client,
-- its writer over the messages that are pending, and the connection that it is made of. Its room is
-- word for word that of example/chat/chat_server.cpp, in Chat.
use xynet.Prelude.{
  ℕ, zero, suc, ◌+◌, ◌^◌, ◌<◌, ◌≤◌, ◌≡◌, refl, arith, ◌∙◌, ap, sym, true, false, List, [], ◌∷◌,
  ◌++◌, map, length, take, drop, take-append, drop-append, drop-drop, length-append, All, Option,
  none, some,
}
use mathlib.Core.Option
use mathlib.Core.List.{append_assoc}
use xynet.Websocket.Flags.{ws_op_close, ws_fin, ws_has_mask, has}
use xynet.Websocket.Parser.{WebsocketFrameHeaderParser, new_parser, parse}
use xynet.Chat.{Message, ChatRoom}
use xynet.Chat.Room.{IsRoom, Heard, deliver_messages, deliver_messages-Heard}
use xynet.Connection.{
  Received, data_span, closed, wild_span, recv_thrown, no_value, websocket_recv_data, text_frame,
}
use xynet.Connection.Frames.{text_frame-IsRead}
use xynet.Connection.Receive.{client_frame, recv_data-client_frame}

-- A turn of the loop of `reader`: the pieces that it reads, and what earlier turns have left in the
-- buffer.
pub record ReaderTurn : Type 0 where
  pub pieces : List (List ℕ)
  pub buf : List ℕ

-- Where the reader is: in `recv_some`, in `stop` after an exception, or where C++ defines nothing.
pub data ReaderEnd : Type 0 where
  waits stops undefined : ReaderEnd

-- The messages that the reader has delivered to the room.
pub record ReaderRun : Type 0 where
  pub delivered : List Message
  pub end : ReaderEnd

abbrev ended : ReaderEnd → Option ReaderRun
ended end = some (record { delivered = []; end = end })

abbrev add : Message → ReaderRun → ReaderRun
add message run = record run { delivered = message ∷ run.delivered }

abbrev deliver_first : Message → Option ReaderRun → Option ReaderRun
deliver_first message rest = Option.map (λ (run : ReaderRun). add message run) rest

abbrev after_read : List ℕ → Received → Option ReaderRun → Option ReaderRun
after_read m_message_head (data_span bytes) rest = deliver_first (m_message_head ++ bytes) rest
after_read m_message_head (closed frame) rest = ended stops
after_read m_message_head recv_thrown rest = ended stops
after_read m_message_head (wild_span start len) rest = ended undefined
after_read m_message_head no_value rest = ended undefined

-- `reader`; `none` stands for a parser that runs out of fuel.
unfoldable pub frame_reader : List ℕ → List ReaderTurn → Option ReaderRun
frame_reader m_message_head [] = ended waits
frame_reader m_message_head (turn ∷ turns) =
    let rest = frame_reader m_message_head turns in
    elim (websocket_recv_data turn.pieces turn.buf) [
      | none ↦ none
      | some received ↦ after_read m_message_head received rest
    ]

-- The bytes that `writer` sends of the messages, one after another.
unfoldable pub frame_writer : List Message → List ℕ
frame_writer [] = []
frame_writer (message ∷ messages) = text_frame message ++ frame_writer messages

-- A client that reads `n` frames from a stream: a new parser for each header, and the message of the
-- length that it says behind it.
pub read_frames : ℕ → List ℕ → Option (List Message)
read_frames zero bytes = some []
read_frames (suc n) bytes = elim (parse new_parser bytes) [
  | none ↦ none
  | some (parser, size) ↦
      Option.map (λ messages. take parser.m_length (drop size bytes) ∷ messages)
        (read_frames n (drop (size + parser.m_length) bytes))
]

read_frames-first :
    (n size : ℕ) (bytes later : List ℕ) (m : Message) (parser : WebsocketFrameHeaderParser)
    → parse new_parser bytes ≡ some (parser, size)
    → parser.m_length ≡ length m
    → drop size bytes ≡ m ++ later
    → read_frames (suc n) bytes ≡ Option.map (λ (ms : List Message). m ∷ ms) (read_frames n later)
unfolding read_frames
read_frames-first n size bytes later m parser header len body =
    let message : take parser.m_length (drop size bytes) ≡ m =
      rw (len, body) (take-append m later) in
    let after : drop (size + parser.m_length) bytes ≡ later =
      sym (drop-drop parser.m_length size bytes) ∙ rw (len, body) (drop-append m later) in
    rw (header, read_frames)
      (λ i. Option.map (λ (ms : List Message). message i ∷ ms) (read_frames n (after i)))

-- The client's stream of frames is read back as the messages of the writer.
pub read_frames-frame_writer :
    (messages : List Message) (rest : List ℕ)
    → All (λ message. length message < 2 ^ 64) messages
    → read_frames (length messages) (frame_writer messages ++ rest) ≡ some messages
unfolding read_frames frame_writer
read_frames-frame_writer [] rest h = refl
read_frames-frame_writer (m ∷ messages) rest h =
    let later = frame_writer messages ++ rest in
    let (size, header, body) = text_frame-IsRead m later h.0 in
    let whole : (text_frame m ++ frame_writer messages) ++ rest ≡ text_frame m ++ later =
      append_assoc (text_frame m) (frame_writer messages) rest in
    ap (read_frames (suc (length messages))) whole
    ∙ read_frames-first (length messages) size (text_frame m ++ later) later m _ header refl body
    ∙ ap (Option.map (λ (ms : List Message). m ∷ ms)) (read_frames-frame_writer messages rest h.1)

-- What a client sends in a turn of the reader: a frame with its flags and key, whole in the first
-- piece that is read.
pub record FrameTurn : Type 0 where
  pub flags : ℕ
  pub k0 : ℕ
  pub k1 : ℕ
  pub k2 : ℕ
  pub k3 : ℕ
  pub payload : List ℕ
  pub later : List (List ℕ)
  pub buf : List ℕ

abbrev pub to_turn : FrameTurn → ReaderTurn
to_turn f = record {
  pieces = client_frame f.flags (f.k0 ∷ f.k1 ∷ f.k2 ∷ f.k3 ∷ []) f.payload ∷ f.later;
  buf = f.buf;
}

-- A final data frame with a mask and at most 1000 bytes.
pub record IsDataFrame (f : FrameTurn) : Type 0 where
  pub byte : f.flags < 256
  pub octets : All (λ k. k < 256) (f.k0 ∷ f.k1 ∷ f.k2 ∷ f.k3 ∷ [])
  pub data_frame : has f.flags ws_op_close ≡ false
  pub final : has f.flags ws_fin ≡ true
  pub marked : has f.flags ws_has_mask ≡ true
  pub short : length f.payload ≤ 1000

abbrev pub messages_of : List ℕ → List FrameTurn → List Message
messages_of m_message_head frames = map (λ f. m_message_head ++ f.payload) frames

frame_reader-messages :
    (m_message_head : List ℕ) (frames : List FrameTurn)
    → All IsDataFrame frames
    → frame_reader m_message_head (map to_turn frames)
      ≡ some (record { delivered = messages_of m_message_head frames; end = waits })
unfolding frame_reader
frame_reader-messages m_message_head [] h = refl
frame_reader-messages m_message_head (f ∷ frames) h =
    let d = h.0 in
    let e =
      recv_data-client_frame f.flags f.k0 f.k1 f.k2 f.k3 f.payload f.buf f.later d.byte d.octets
        d.data_frame d.final d.marked d.short in
    rw (e, frame_reader)
      (ap (deliver_first (m_message_head ++ f.payload))
        (frame_reader-messages m_message_head frames h.1))

messages-short :
    (m_message_head : List ℕ) (frames : List FrameTurn)
    → length m_message_head ≤ 24
    → All IsDataFrame frames
    → All (λ message. length message < 2 ^ 64) (messages_of m_message_head frames)
messages-short m_message_head [] short h = tt
messages-short m_message_head (f ∷ frames) short h = (
  omega (arith, length-append m_message_head f.payload, h.0.short),
  messages-short m_message_head frames short h.1,
)

-- `reader`, with the room that its calls of `deliver` leave.
unfoldable pub frame_session : List ℕ → List ReaderTurn → ChatRoom → Option (ChatRoom × ReaderEnd)
frame_session m_message_head turns room =
    Option.map (λ (run : ReaderRun). (deliver_messages run.delivered room, run.end))
      (frame_reader m_message_head turns)

-- What a client of the chat sends in final data frames with a mask and at most 1000 bytes, each whole
-- in one piece, every participant hears: the payloads, each behind the head of the session, are
-- added once and in order to the pending messages of each participant, and to nobody else's, and
-- the reader waits for more; and a client reads these messages back from the frames that the
-- writer sends of them, whatever bytes follow. The head has at most 24 bytes, nobody is twice in
-- the room, it remembers at most ten messages, and nothing else delivers meanwhile.
pub frame_session-Heard :
    (m_message_head : List ℕ) (frames : List FrameTurn) (room : ChatRoom) (rest : List ℕ)
    → length m_message_head ≤ 24
    → All IsDataFrame frames
    → IsRoom room
    → let messages = messages_of m_message_head frames in
      (room' : ChatRoom) × (frame_session m_message_head (map to_turn frames) room
        ≡ some (room', waits))
      × Heard messages room room'
      × (read_frames (length messages) (frame_writer messages ++ rest) ≡ some messages)
unfolding frame_session
frame_session-Heard m_message_head frames room rest short h once =
    let messages = messages_of m_message_head frames in
    (
      deliver_messages messages room,
      ap (Option.map (λ (run : ReaderRun). (deliver_messages run.delivered room, run.end)))
          (frame_reader-messages m_message_head frames h),
      deliver_messages-Heard messages room once,
      read_frames-frame_writer messages rest (messages-short m_message_head frames short h),
    )
