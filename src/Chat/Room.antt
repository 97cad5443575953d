-- ===== src/Chat/Room.antt =====
-- The room of example/chat/chat_server.cpp: `join`, `leave` and `deliver`.
pub mod Deliveries
pub mod Members
use xynet.Prelude.{ℕ, zero, suc, ◌+◌, ◌-◌, ◌≤◌, ◌<◌, ◌≡◌, ◌≢◌, refl, arith, ◌∙◌, ap, sym}
use xynet.Prelude.{◌==◌, if◌then◌else◌, ltb, Bool-cases, inl, inr, true, false, ==_iff}
use xynet.Prelude.{
  List, [], ◌∷◌, ◌++◌, length, length-append, length-drop, drop-drop, take, drop, replicate, count,
}
use mathlib.Core.List.{append-nil, append_assoc}
use mathlib.Core.Path.{subst}
use xynet.Chat.{
  Message, ChatSession, ChatRoom, push_message, deliver_to, deliver_all, deliver_each, welcome_str,
  farewell_str, insert_participant, erase_participant, join, leave, trim, deliver,
}
use xynet.Chat.Room.Deliveries.{
  Told, mail, deliver_all-Told, deliver_each-Told, again-Told, none-Told,
}

-- The last ten of a list of messages.
abbrev pub last_ten : List Message → List Message
last_ten ms = drop (length ms - 10) ms

-- Nobody is twice in the room, and the room remembers at most ten messages.
pub record IsRoom (room : ChatRoom) : Type 0 where
  pub once : (p : ℕ) → count p room.m_participants ≤ 1
  pub bounded : length room.m_recent_messages ≤ 10

trim-last_ten : (ms : List Message) → trim ms ≡ last_ten ms
unfolding trim
trim-last_ten [] = refl
trim-last_ten (m ∷ ms) = elim (Bool-cases (ltb 10 (length (m ∷ ms)))) [
  | inl more ↦
      let k : suc (length ms - 10) ≡ suc (length ms) - 10 = ground arith in
      rw more (trim-last_ten ms ∙ ap (λ n. drop n (m ∷ ms)) k)
  | inr enough ↦
      let k : 0 ≡ suc (length ms) - 10 = ground arith in rw enough (ap (λ n. drop n (m ∷ ms)) k)
]

length-last_ten : (ms : List Message) → length (last_ten ms) ≤ 10
length-last_ten ms = omega (arith, length-drop (length ms - 10) ms)

last_ten_all : (ms : List Message) → length ms ≤ 10 → last_ten ms ≡ ms
last_ten_all ms h =
    let none_left : length ms - 10 ≡ 0 = omega arith in ap (λ n. drop n ms) none_left

drop-append_le :
    (k : ℕ) (xs ys : List Message) → k ≤ length xs → drop k xs ++ ys ≡ drop k (xs ++ ys)
drop-append_le zero xs ys h = refl
drop-append_le (suc k) [] ys h = absurd (omega arith)
drop-append_le (suc k) (x ∷ xs) ys h = drop-append_le k xs ys (omega arith)

last_ten-drop :
    (k : ℕ) (ms : List Message) → k ≤ length ms - 10 → last_ten (drop k ms) ≡ last_ten ms
last_ten-drop k ms h =
    drop-drop (length (drop k ms) - 10) k ms
    ∙ (let e : k + (length (drop k ms) - 10) ≡ length ms - 10 = omega (arith, length-drop k ms) in
        ap (λ n. drop n ms) e)

last_ten-append : (xs ys : List Message) → last_ten (last_ten xs ++ ys) ≡ last_ten (xs ++ ys)
last_ten-append xs ys =
    ap last_ten (drop-append_le (length xs - 10) xs ys (omega arith))
    ∙ last_ten-drop (length xs - 10) (xs ++ ys) (omega (arith, length-append xs ys))

pub deliver-IsRoom : (m : Message) (room : ChatRoom) → IsRoom room → IsRoom (deliver m room)
unfolding deliver
deliver-IsRoom m room v = record {
  once = v.once;
  bounded =
      subst (λ ms. length ms ≤ 10) (sym (trim-last_ten (room.m_recent_messages ++ (m ∷ []))))
        (length-last_ten (room.m_recent_messages ++ (m ∷ [])));
}

-- The messages that a participant hears, of those for everybody in the room.
abbrev pub heard_by : ℕ → List Message → ChatRoom → List Message
heard_by p ms room = if count p room.m_participants == 0 then [] else ms

-- What a room and its sessions are after messages for everybody.
abbrev pub Heard : List Message → ChatRoom → ChatRoom → Type 0
Heard ms room room' =
    IsRoom room'
    × (room'.m_recent_messages ≡ last_ten (room.m_recent_messages ++ ms))
    × (room'.m_participants ≡ room.m_participants)
    × ((p : ℕ) → Told (room.sessions p) (heard_by p ms room) (room'.sessions p))

pub replicate_once : (n : ℕ) (m : Message) → n ≤ 1 → replicate n m ≡ (if n == 0 then [] else m ∷ [])
replicate_once zero m h = ground arith
replicate_once (suc zero) m h = ground arith
replicate_once (suc (suc n)) m h = absurd (omega arith)

deliver-Heard : (m : Message) (room : ChatRoom) → IsRoom room → Heard (m ∷ []) room (deliver m room)
unfolding deliver
deliver-Heard m room v = (
  deliver-IsRoom m room v,
  trim-last_ten (room.m_recent_messages ++ (m ∷ [])),
  refl,
  λ p.
      subst (λ ms. Told (room.sessions p) ms ((deliver m room).sessions p))
        (replicate_once (count p room.m_participants) m (v.once p))
        (deliver_all-Told m room.m_participants room.sessions p),
)

again-Heard :
    (xs ys : List Message) (a b c : ChatRoom) → Heard xs a b → Heard ys b c → Heard (xs ++ ys) a c
again-Heard xs ys a b c (v, recent, same, told) (v', recent', same', told') = (
  v',
  recent'
      ∙ ap (λ ms. last_ten (ms ++ ys)) recent
      ∙ last_ten-append (a.m_recent_messages ++ xs) ys
      ∙ ap last_ten (append_assoc a.m_recent_messages xs ys),
  same' ∙ same,
  λ p.
      let k = count p a.m_participants in
      let both : heard_by p xs a ++ heard_by p ys b ≡ heard_by p (xs ++ ys) a =
        ap (λ ps. heard_by p xs a ++ (if count p ps == 0 then [] else ys)) same ∙ ground arith in
      subst (λ ms. Told (a.sessions p) ms (c.sessions p)) both
        (again-Told (a.sessions p) (b.sessions p) (c.sessions p) _ _ (told p) (told' p)),
)

-- The messages delivered one after another.
unfoldable pub deliver_messages : List Message → ChatRoom → ChatRoom
deliver_messages [] room = room
deliver_messages (m ∷ ms) room = deliver_messages ms (deliver m room)

-- In a room where nobody is twice and at most ten messages are remembered, messages delivered one
-- after another are heard by each participant, each message once and in order, and set its event
-- once for each; nobody else hears them. The room keeps its participants, nobody is twice in it,
-- and it remembers the last ten of all the messages, at most ten.
pub deliver_messages-Heard :
    (ms : List Message) (room : ChatRoom) → IsRoom room → Heard ms room (deliver_messages ms room)
unfolding deliver_messages
deliver_messages-Heard [] room v = (
  v,
  sym (
      ap last_ten (append-nil room.m_recent_messages)
      ∙ last_ten_all room.m_recent_messages v.bounded),
  refl,
  λ p.
      let nothing : [] ≡ heard_by p [] room = ground arith in
      subst (λ ms. Told (room.sessions p) ms (room.sessions p)) nothing
        (none-Told (room.sessions p)),
)
deliver_messages-Heard (m ∷ ms) room v =
    let one = deliver-Heard m room v in
    again-Heard (m ∷ []) ms room (deliver m room) (deliver_messages ms (deliver m room)) one
      (deliver_messages-Heard ms (deliver m room) (one.0))
