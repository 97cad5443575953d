-- ===== src/Serving/Pingpong/Total.antt =====
-- `run` of example/pingpong/pingpong_client.cpp: its sessions, and the number of bytes that it prints.
use xynet.Prelude.{
  ℕ, ◌+◌, ◌*◌, ◌^◌, ◌<◌, ◌≤◌, ◌≡◌, refl, arith, ◌∙◌, sym, List, [], ◌∷◌, length, All, Option, none,
  some, inl, inr,
}
use xynet.Prelude.Int.{ℤ}
use xynet.Operation.{Cqe}
use xynet.Socket.{Socket, Answer, Outcome, returned, thrown}
use xynet.Socket.Address.{SocketAddress}
use xynet.Serving.Finish.{zeros}
use xynet.Serving.Pingpong.{
  PingTurn, Pinged, RecvAnswers, connected, after_connect, pingpong_session, Counts, ping_loop,
  ping_loop-Counts,
}

-- What a session of the client meets.
pub record PingSession : Type 0 where
  pub init_answer : Answer
  pub cqe : Cqe
  pub turns : List PingTurn
  pub shut : Answer
  pub answers : List (Cqe × ℤ)

some_is : {a b : ℕ} → some a ≡ some b → a ≡ b
some_is e = cc

-- At most as many turns are whole as there are.
Counts-bound : (n turns k : ℕ) (p : Pinged) → Counts n turns k p → k ≤ turns
Counts-bound n turns k p (total, inl (all, ends)) = omega arith
Counts-bound n turns k p (total, inr (some_left, more)) = omega arith

-- `accumulate` of doubles, exact below 2 ^ 53, when all the sessions have ended.
abbrev add_session : Pinged × Option (List ℤ) → Option ℕ → Option ℕ
add_session (pinged, none) later = none
add_session (pinged, some closed) none = none
add_session (pinged, some closed) (some bytes) = some (pinged.total_bytes_read + bytes)

add_session-some :
    (r : Pinged × Option (List ℤ)) (later : Option ℕ) (bytes : ℕ)
    → add_session r later ≡ some bytes
    → (rest : ℕ) × (later ≡ some rest) × (bytes ≡ r.0.total_bytes_read + rest)
add_session-some (pinged, none) later bytes e = absurd (cc e)
add_session-some (pinged, some closed) none bytes e = absurd (cc e)
add_session-some (pinged, some closed) (some rest) bytes e = (rest, refl, sym (some_is e))

module _ (service message_len : ℕ) (address : SocketAddress) where
  abbrev ping_session : PingSession → Pinged × Option (List ℤ)
  ping_session p =
      pingpong_session service message_len p.init_answer p.cqe address p.turns p.shut p.answers

  -- The total that `run` prints; `none` is a client that still waits for a session.
  unfoldable pub printed_total : List PingSession → Option ℕ
  printed_total [] = some 0
  printed_total (p ∷ sessions) = add_session (ping_session p) (printed_total sessions)

  -- A kernel that fills at most what it is offered.
  abbrev pub IsSession : PingSession → Type 0
  IsSession p =
      (s : Socket)
      → connected service p.init_answer p.cqe address ≡ returned s
      → All (λ (turn : PingTurn). RecvAnswers service s.m_fd message_len turn.recv_cqes) p.turns

  abbrev pub turns_of : List PingSession → ℕ
  turns_of [] = 0
  turns_of (p ∷ sessions) = length p.turns + turns_of sessions

  module _ (small : message_len < 2 ^ 31) where
    after_connect-Counts :
        (p : PingSession) (o : Outcome Socket)
        → ((s : Socket)
            → o ≡ returned s
            → All
                (λ (turn : PingTurn). RecvAnswers service s.m_fd message_len turn.recv_cqes)
                p.turns)
        → (k : ℕ) × (k ≤ length p.turns)
          × ((after_connect service message_len p.turns p.shut p.answers o).0.total_bytes_read
              ≡ k * message_len)
    after_connect-Counts p (thrown s error) ok = (0, omega arith, omega arith)
    after_connect-Counts p (returned s) ok =
        let (k, counts) =
          ping_loop-Counts service s.m_fd message_len small p.turns (zeros message_len)
            (ok s refl) in
        (
          k,
          Counts-bound message_len (length p.turns) k
              (ping_loop service s.m_fd message_len p.turns (zeros message_len)) counts,
          counts.0,
        )

    -- Sessions that have all ended, with messages of less than 2 ^ 31 bytes and a kernel that fills at
    -- most what it is offered: the client prints a multiple of the length of a message, once for
    -- each whole turn of a session.
    printed_total-turns :
        (sessions : List PingSession) (bytes : ℕ)
        → All IsSession sessions
        → printed_total sessions ≡ some bytes
        → (k : ℕ) × (k ≤ turns_of sessions) × (bytes ≡ k * message_len)
    unfolding printed_total pingpong_session
    printed_total-turns [] bytes ok e = (0, omega arith, sym (some_is e) ∙ omega arith)
    printed_total-turns (p ∷ sessions) bytes ok e =
        let (rest, all, sum) = add_session-some (ping_session p) (printed_total sessions) bytes e in
        let (k, few, counted) =
          after_connect-Counts p (connected service p.init_answer p.cqe address) ok.0 in
        let (j, few', counted') = printed_total-turns sessions rest ok.1 all in
        let both : (k + j) * message_len ≡ k * message_len + j * message_len = grind arith in
        (k + j, omega arith, sum ∙ (λ i. counted i + counted' i) ∙ sym both)
