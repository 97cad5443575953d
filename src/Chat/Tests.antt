-- ===== src/Chat/Tests.antt =====
-- Runs of the chat server, and its theorems at concrete inputs.
use xynet.Prelude.{
  ℕ, ◌≤◌, ◌≡◌, refl, arith, List, [], ◌∷◌, some, ◌==◌, if◌then◌else◌, count, ap, ◌+◌, ◌*◌, ◌/◌, ◌%◌,
  length, take, drop,
}
use xynet.StreamBuffer.{Placement, stream_buffer, data_view}
use xynet.StreamBuffer.Room.{stream_buffer-IsValid}
use xynet.StreamBuffer.Queue.{stream_buffer_empty}
use xynet.Chat.{ChatSession, ChatRoom, find, join, leave, reader}
use xynet.Chat.Lines.{lines_from, IsOpen}
use xynet.Chat.Reader.{Parsed, reader-lines, joined}
use xynet.Chat.Writer.{
  EventState, Writer, start, deliver_message, check, check_messages, on_sent, stop, suspended,
  delivers, checks, sends, WriterRun, no_step, then_step,
}
use xynet.Chat.Writer.Order.{IsInOrder, run-IsInOrder, IsAbandoned, stop-IsAbandoned}
use xynet.Chat.Writer.FlagEvent.{flag_event}
use xynet.Chat.Session.{session_room, session_room-Heard, make_message_head-to_str}
use xynet.Chat.{blank, make_message_head}
use xynet.Socket.Address.{SocketAddress, ByteOrder}
use xynet.Socket.Text.{to_str}
use xynet.Socket.DecimalText.{decimal_text}
use xynet.Chat.Reader.{with_head}
use xynet.Chat.Room.{IsRoom, Heard}
use xynet.Chat.Room.Deliveries.{Told}
use xynet.Chat.Room.Members.{welcomed, join-welcomed, farewelled, leave-farewelled}

-- The address `1.2`.
abbrev session : ℕ → ChatSession
session p = record { address = 49 ∷ 46 ∷ 50 ∷ []; m_write_msgs = []; event_sets = 0 }

abbrev room : ChatRoom
room = record {
  m_participants = 4 ∷ 9 ∷ [];
  m_recent_messages = (7 ∷ 10 ∷ []) ∷ [];
  sessions = session;
}

once : (p : ℕ) → count p (4 ∷ 9 ∷ []) ≤ 1
once p = ground arith

room-IsRoom : IsRoom room
room-IsRoom = record { once = once; bounded = omega arith }

find_third : find 10 (1 ∷ 2 ∷ 10 ∷ 10 ∷ []) ≡ some 2
unfolding find
find_third = refl

lines : lines_from [] (1 ∷ 10 ∷ 10 ∷ 2 ∷ []) ≡ ((1 ∷ 10 ∷ []) ∷ (10 ∷ []) ∷ [], 2 ∷ [])
unfolding lines_from
lines = refl

empty-IsOpen : IsOpen (data_view stream_buffer)
unfolding find
empty-IsOpen = ap (find 10) (stream_buffer_empty.1)

-- Every vector at one address.
abbrev fixed : Placement
fixed = record { address = λ s. 0x7f0000001000; low = λ s. omega arith }

-- A line in two pieces, and the start of another.
abbrev chunks : List (List ℕ)
chunks = (104 ∷ []) ∷ (105 ∷ 10 ∷ 121 ∷ []) ∷ []

reader-lines_example :
    Parsed
      (124 ∷ [])
      (lines_from (data_view stream_buffer) (joined chunks))
      (reader fixed (124 ∷ []) chunks stream_buffer)
reader-lines_example =
    reader-lines fixed (124 ∷ []) chunks stream_buffer stream_buffer-IsValid empty-IsOpen
      (omega arith) (omega (arith, stream_buffer_empty.0))

session_room-Heard_example :
    (room' : ChatRoom) × (session_room fixed (124 ∷ []) chunks stream_buffer room ≡ some room')
    × Heard
        (with_head (124 ∷ []) (lines_from (data_view stream_buffer) (joined chunks)).0)
        room
        room'
session_room-Heard_example =
    session_room-Heard fixed (124 ∷ []) chunks stream_buffer room stream_buffer-IsValid empty-IsOpen
      (omega arith) (omega (arith, stream_buffer_empty.0)) room-IsRoom

join-welcomed_example :
    let room' = join 5 room in
    IsRoom room'
    × (room'.m_recent_messages ≡ room.m_recent_messages)
    × (room'.m_participants ≡ 5 ∷ room.m_participants)
    × ((q : ℕ) → Told (room.sessions q) (welcomed 5 room q) (room'.sessions q))
join-welcomed_example = join-welcomed 5 room room-IsRoom refl

leave-farewelled_example :
    let room' = leave 9 room in
    IsRoom room'
    × (room'.m_recent_messages ≡ room.m_recent_messages)
    × ((q : ℕ)
        → (count q room'.m_participants ≡ (if 9 == q then 0 else count q room.m_participants))
          × Told (room.sessions q) (farewelled 9 room q) (room'.sessions q))
leave-farewelled_example = leave-farewelled 9 room room-IsRoom

-- A message that is delivered, sent and followed by a wait.
abbrev delivered_one : Writer EventState
delivered_one = deliver_message flag_event (7 ∷ []) (start flag_event)

abbrev in_send : Writer EventState
in_send = check flag_event delivered_one

abbrev after_send : Writer EventState
after_send = on_sent flag_event (7 ∷ []) in_send

one_run : WriterRun flag_event (start flag_event) ((7 ∷ []) ∷ []) after_send
unfolding deliver_message check check_messages on_sent
one_run =
    then_step ((7 ∷ []) ∷ []) [] in_send after_send
      (then_step ((7 ∷ []) ∷ []) [] delivered_one in_send
        (then_step [] ((7 ∷ []) ∷ []) (start flag_event) delivered_one no_step
          (delivers (7 ∷ []) (start flag_event) refl))
        (checks delivered_one refl))
      (sends (7 ∷ []) in_send refl)

run-IsInOrder_example : IsInOrder flag_event ((7 ∷ []) ∷ []) after_send
run-IsInOrder_example = run-IsInOrder flag_event ((7 ∷ []) ∷ []) after_send one_run

abbrev waiting : Writer EventState
waiting = check flag_event (start flag_event)

waiting-suspended : waiting.phase ≡ suspended
unfolding check check_messages
waiting-suspended = refl

stop-IsAbandoned_example : IsAbandoned flag_event (stop flag_event waiting)
stop-IsAbandoned_example =
    stop-IsAbandoned flag_event waiting (stop flag_event waiting) [] waiting-suspended no_step

abbrev byte_order : ByteOrder
byte_order = record {
  htons = λ n. n % 256 * 256 + n / 256;
  ntohs = λ n. n % 256 * 256 + n / 256;
  htonl = λ n. n;
  ntohs-htons = λ n small. omega arith;
}

abbrev home : SocketAddress
home = record { sin_port = 20480; s_addr = 16777343 }

abbrev home_session : ChatSession
home_session = record {
  address = to_str decimal_text byte_order home;
  m_write_msgs = [];
  event_sets = 0;
}

make_message_head-to_str_example :
    (length (make_message_head home_session) ≡ 24)
    × (blank home_session.address + length home_session.address ≡ 21)
    × (take (length home_session.address) (drop 1 (make_message_head home_session))
        ≡ to_str decimal_text byte_order home)
make_message_head-to_str_example =
    make_message_head-to_str decimal_text byte_order home home_session refl
