-- ===== src/Chat/Room/Members.antt =====
-- Members that come and go, in the room of example/chat/chat_server.cpp: `join` and `leave`.
use xynet.Prelude.{ℕ, ◌≤◌, ◌≡◌, refl, arith, ◌∙◌, ap, sym}
use xynet.Prelude.{◌==◌, if◌then◌else◌, Bool-cases, inl, inr}
use xynet.Prelude.{List, [], ◌∷◌, ◌++◌, replicate, count}
use mathlib.Core.List.{append-nil}
use mathlib.Core.Path.{subst}
use xynet.Chat.{
  Message, ChatRoom, deliver_all, deliver_each, welcome_str, farewell_str, insert_participant,
  erase_participant, join, leave,
}
use xynet.Chat.Room.{IsRoom, heard_by, replicate_once}
use xynet.Chat.Room.Deliveries.{Told, mail, deliver_all-Told, deliver_each-Told, again-Told}

-- What a session is told when `p` joins.
abbrev pub welcomed : ℕ → ChatRoom → ℕ → List Message
welcomed p room q =
    let welcome = welcome_str (room.sessions p) in
    if p == q then welcome ∷ room.m_recent_messages else heard_by q (welcome ∷ []) room

join-once : (p : ℕ) (ps : List ℕ) (q : ℕ) → count p ps ≡ 0 → count q ps ≤ 1 → count q (p ∷ ps) ≤ 1
join-once p ps q fresh once = ground arith

join-mail :
    (w : Message) (recent : List Message) (p : ℕ) (ps : List ℕ) (q : ℕ)
    → count p ps ≡ 0
    → count q ps ≤ 1
    → replicate (count q (p ∷ ps)) w ++ mail recent p q
      ≡ (if p == q then w ∷ recent else (if count q ps == 0 then [] else w ∷ []))
join-mail w recent p ps q fresh once = elim (Bool-cases (p == q)) [
  | inl e ↦
      let one : count q (p ∷ ps) ≡ 1 = ground arith in rw e (ap (λ n. replicate n w ++ recent) one)
  | inr e ↦
      let same : count q (p ∷ ps) ≡ count q ps = ground arith in
      rw e (
        append-nil (replicate (count q (p ∷ ps)) w)
        ∙ ap (λ n. replicate n w) same
        ∙ replicate_once (count q ps) w once)
]

-- Where nobody is twice in the room and it remembers at most ten messages, which the join keeps: a
-- session that is no participant and joins is told its welcome and then the messages that the room
-- remembers, the others in the room are told the welcome, and nobody else anything; the room keeps
-- its messages, and has the session as a participant, once.
pub join-welcomed :
    (p : ℕ) (room : ChatRoom)
    → IsRoom room
    → count p room.m_participants ≡ 0
    → let room' = join p room in
      IsRoom room'
      × (room'.m_recent_messages ≡ room.m_recent_messages)
      × (room'.m_participants ≡ p ∷ room.m_participants)
      × ((q : ℕ) → Told (room.sessions q) (welcomed p room q) (room'.sessions q))
unfolding join
join-welcomed p room v fresh =
    let w = welcome_str (room.sessions p) in
    let ps = insert_participant p room.m_participants in
    let e : ps ≡ p ∷ room.m_participants = ground arith in
    (
      record {
        once = λ q.
            subst (λ l. count q l ≤ 1) (sym e) (join-once p room.m_participants q fresh (v.once q));
        bounded = v.bounded;
      },
      refl,
      e,
      λ q.
          let greeted = deliver_all w ps room.sessions in
          subst (λ ms. Told (room.sessions q) ms (deliver_each room.m_recent_messages p greeted q))
            (ap (λ l. replicate (count q l) w ++ mail room.m_recent_messages p q) e
              ∙ join-mail w room.m_recent_messages p room.m_participants q fresh (v.once q))
            (again-Told (room.sessions q) (greeted q)
              (deliver_each room.m_recent_messages p greeted q) _ _
              (deliver_all-Told w ps room.sessions q)
              (deliver_each-Told room.m_recent_messages p greeted q)),
    )

-- What a session is told when `p` leaves.
abbrev pub farewelled : ℕ → ChatRoom → ℕ → List Message
farewelled p room q = if p == q then [] else heard_by q (farewell_str (room.sessions p) ∷ []) room

erase-count :
    (p : ℕ) (ps : List ℕ) (q : ℕ)
    → count p ps ≤ 1
    → count q (erase_participant p ps) ≡ (if p == q then 0 else count q ps)
erase-count p [] q once = ground arith
erase-count p (x ∷ ps) q once = elim (Bool-cases (p == x)) [
  | inl e ↦ rw e (ground arith)
  | inr e ↦ rw e (ground (arith, erase-count p ps q))
]

left_once : (p q n left : ℕ) → left ≡ (if p == q then 0 else n) → n ≤ 1 → left ≤ 1
left_once p q n left e once = ground arith

leave-mail :
    (w : Message) (p q n left : ℕ)
    → left ≡ (if p == q then 0 else n)
    → (if left == 0 then [] else w ∷ []) ≡ (if p == q then [] else (if n == 0 then [] else w ∷ []))
leave-mail w p q n left e = ground arith

-- Where nobody is twice in the room and it remembers at most ten messages, which the leave keeps:
-- a session that leaves is told nothing more, and is no participant; the other participants are
-- told its farewell, and stay; nobody else is told anything, and the room keeps its messages.
pub leave-farewelled :
    (p : ℕ) (room : ChatRoom)
    → IsRoom room
    → let room' = leave p room in
      IsRoom room'
      × (room'.m_recent_messages ≡ room.m_recent_messages)
      × ((q : ℕ)
          → (count q room'.m_participants ≡ (if p == q then 0 else count q room.m_participants))
            × Told (room.sessions q) (farewelled p room q) (room'.sessions q))
unfolding leave
leave-farewelled p room v =
    let w = farewell_str (room.sessions p) in
    let ps = erase_participant p room.m_participants in
    let erased = λ (q : ℕ). erase-count p room.m_participants q (v.once p) in
    let once = λ (q : ℕ). left_once p q (count q room.m_participants) _ (erased q) (v.once q) in
    (
      record { once = once; bounded = v.bounded },
      refl,
      λ q. (
        erased q,
        subst (λ ms. Told (room.sessions q) ms (deliver_all w ps room.sessions q))
            (replicate_once (count q ps) w (once q)
              ∙ leave-mail w p q (count q room.m_participants) _ (erased q))
            (deliver_all-Told w ps room.sessions q),
      ),
    )
