-- ===== src/Chat.antt =====
-- example/chat/chat_server.cpp: a chat room, its sessions, and the reader of a session. A message
-- is the list of its bytes; a participant is the address of its session.
pub mod Room
pub mod Lines
pub mod Reader
pub mod Writer
pub mod Session
mod Tests
use xynet.Prelude.{
  ℕ, zero, suc, ◌+◌, ◌-◌, ◌^◌, ltb, ◌==◌, if◌then◌else◌, List, [], ◌∷◌, ◌++◌, length, take,
  replicate, count, Option, none, some,
}
use mathlib.Core.Option
use xynet.StreamBuffer.{StreamBuffer, data_view, prepare, commit, consume, Placement}
use xynet.StreamBuffer.Queue.{written}

abbrev pub Message : Type 0
Message = List ℕ

-- `event_sets` counts the calls of `m_event.set()`; `address` is the text of the peer's address.
pub record ChatSession : Type 0 where
  pub address : List ℕ
  pub m_write_msgs : List Message
  pub event_sets : ℕ

-- `sessions` are the objects that participants point at.
pub record ChatRoom : Type 0 where
  pub m_participants : List ℕ
  pub m_recent_messages : List Message
  pub sessions : ℕ → ChatSession

-- `chat_session::deliver`
abbrev pub push_message : Message → ChatSession → ChatSession
push_message message s = record s {
  m_write_msgs = s.m_write_msgs ++ (message ∷ []);
  event_sets = s.event_sets + 1;
}

abbrev pub deliver_to : Message → ℕ → (ℕ → ChatSession) → ℕ → ChatSession
deliver_to message participant sessions other =
    if participant == other then push_message message (sessions other) else sessions other

-- `for(auto participant : m_participants) participant->deliver(message);`
unfoldable pub deliver_all : Message → List ℕ → (ℕ → ChatSession) → ℕ → ChatSession
deliver_all message [] sessions = sessions
deliver_all message (p ∷ ps) sessions = deliver_all message ps (deliver_to message p sessions)

-- `deliver_recent_messages`
unfoldable pub deliver_each : List Message → ℕ → (ℕ → ChatSession) → ℕ → ChatSession
deliver_each [] participant sessions = sessions
deliver_each (m ∷ ms) participant sessions =
    deliver_each ms participant (deliver_to m participant sessions)

-- `|        SERVER       |:` and the ends of the two announcements.
abbrev pub server_head : List ℕ
server_head =
    124 ∷ 32 ∷ 32 ∷ 32 ∷ 32 ∷ 32 ∷ 32 ∷ 32 ∷ 32 ∷ 83 ∷ 69 ∷ 82 ∷ 86 ∷ 69 ∷ 82 ∷ 32 ∷ 32 ∷ 32 ∷ 32
    ∷ 32 ∷ 32 ∷ 32 ∷ 124 ∷ 58 ∷ []

abbrev pub has_joined : List ℕ
has_joined =
    32 ∷ 104 ∷ 97 ∷ 115 ∷ 32 ∷ 106 ∷ 111 ∷ 105 ∷ 110 ∷ 101 ∷ 100 ∷ 32 ∷ 116 ∷ 104 ∷ 101 ∷ 32 ∷ 99
    ∷ 104 ∷ 97 ∷ 116 ∷ 10 ∷ []

abbrev pub has_left : List ℕ
has_left =
    32 ∷ 104 ∷ 97 ∷ 115 ∷ 32 ∷ 108 ∷ 101 ∷ 102 ∷ 116 ∷ 32 ∷ 116 ∷ 104 ∷ 101 ∷ 32 ∷ 99 ∷ 104 ∷ 97
    ∷ 116 ∷ 10 ∷ []

abbrev pub welcome_str : ChatSession → Message
welcome_str s = server_head ++ (s.address ++ has_joined)

abbrev pub farewell_str : ChatSession → Message
farewell_str s = server_head ++ (s.address ++ has_left)

-- `unordered_set::insert` and `erase`; the order of the set is not specified.
abbrev pub insert_participant : ℕ → List ℕ → List ℕ
insert_participant p ps = if count p ps == 0 then p ∷ ps else ps

abbrev pub erase_participant : ℕ → List ℕ → List ℕ
erase_participant p [] = []
erase_participant p (q ∷ qs) = if p == q then qs else q ∷ erase_participant p qs

unfoldable pub join : ℕ → ChatRoom → ChatRoom
unfolding deliver_all deliver_each
join p room =
    let ps = insert_participant p room.m_participants in
    let welcomed = deliver_all (welcome_str (room.sessions p)) ps room.sessions in
    record room { m_participants = ps; sessions = deliver_each room.m_recent_messages p welcomed }

unfoldable pub leave : ℕ → ChatRoom → ChatRoom
unfolding deliver_all
leave p room =
    let ps = erase_participant p room.m_participants in
    record room {
      m_participants = ps;
      sessions = deliver_all (farewell_str (room.sessions p)) ps room.sessions;
    }

-- `while(m_recent_messages.size() > 10) m_recent_messages.pop_front();`
unfoldable pub trim : List Message → List Message
trim [] = []
trim (m ∷ ms) = let rest = trim ms in if ltb 10 (length (m ∷ ms)) then rest else m ∷ ms

unfoldable pub deliver : Message → ChatRoom → ChatRoom
unfolding trim deliver_all
deliver m room = record room {
  m_recent_messages = trim (room.m_recent_messages ++ (m ∷ []));
  sessions = deliver_all m room.m_participants room.sessions;
}

-- `make_message_head`; where the text is longer than 21 the `size_t` wraps.
abbrev pub blank : List ℕ → ℕ
blank ip_port =
    if ltb 21 (length ip_port) then (2 ^ 64 + 21) - length ip_port else 21 - length ip_port

unfoldable pub make_message_head : ChatSession → List ℕ
make_message_head s = (124 ∷ s.address) ++ (replicate (blank s.address) 32 ++ (124 ∷ 58 ∷ []))

-- `string_view::find`
unfoldable pub find : ℕ → List ℕ → Option ℕ
find c [] = none
find c (b ∷ bs) = if b == c then some 0 else Option.map suc (find c bs)

-- `message_parser`, with the message that it delivers to the room, if it does.
unfoldable pub message_parser : List ℕ → List ℕ → List Message × ℕ
unfolding find
message_parser head str = elim (find 10 str) [
  | none ↦ ([], 0)
  | some pos ↦ ((head ++ take (pos + 1) str) ∷ [], pos + 1)
]

-- The inner loop of `reader`, with the messages delivered; `none` means that the fuel ran out.
unfoldable pub parse_messages :
    Placement → ℕ → List ℕ → StreamBuffer → Option (StreamBuffer × List Message)
unfolding message_parser
parse_messages place zero head sbuf = none
parse_messages place (suc fuel) head sbuf =
    let (delivered, num_parsed) = message_parser head (data_view sbuf) in
    let rest = parse_messages place fuel head (consume place num_parsed sbuf) in
    if num_parsed == 0 then some (sbuf, []) else Option.map (λ r. (r.0, delivered ++ r.1)) rest

-- One turn of the loop of `reader`, on the bytes that `recv_some` puts into the span.
unfoldable pub read_chunk :
    Placement → List ℕ → List ℕ → StreamBuffer → Option (StreamBuffer × List Message)
unfolding parse_messages
read_chunk place head chunk sbuf =
    let prepared = (prepare 1024 sbuf).0 in
    let received = commit (length chunk) (written chunk prepared) in
    parse_messages place (suc (length (data_view received))) head received

-- The turns of `reader` until an error, with the messages of all of them.
unfoldable pub reader :
    Placement → List ℕ → List (List ℕ) → StreamBuffer → Option (StreamBuffer × List Message)
unfolding read_chunk
reader place head [] sbuf = some (sbuf, [])
reader place head (chunk ∷ chunks) sbuf = elim (read_chunk place head chunk sbuf) [
  | none ↦ none
  | some turn ↦ Option.map (λ r. (r.0, turn.1 ++ r.1)) (reader place head chunks turn.0)
]
