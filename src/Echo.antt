-- ===== src/Echo.antt =====
-- echo_client of example/simple/echo_revised.cpp, with the event of the coroutine library as the
-- interface of Chat/Writer. A piece is the list of its bytes.
mod Tests
use xynet.Prelude.{ℕ, if◌then◌else◌, Bool, ◌≡◌, refl, ◌∙◌, ap, sym, List, [], ◌∷◌, ◌++◌, reverse}
use mathlib.Core.List.{reverse_aux}
use xynet.Chat.Writer.{AsyncEvent}

-- Where the writer is: at the head of its loop, in `send` of a piece, or in `co_await m_event`.
pub data EchoPhase : Type 0 where
  checking suspended : EchoPhase
  sending : List ℕ → EchoPhase

-- `m_write_msgs` is a `forward_list`; `echoed` is the history of what was sent.
pub record EchoClient (E : Type 0) : Type 0 where
  pub m_write_msgs : List (List ℕ)
  pub m_event : E
  pub phase : EchoPhase
  pub echoed : List (List ℕ)

reverse_onto :
    (ps acc rest : List (List ℕ)) → reverse_aux ps acc ++ rest ≡ reverse_aux ps (acc ++ rest)
reverse_onto [] acc rest = refl
reverse_onto (p ∷ ps) acc rest = reverse_onto ps (p ∷ acc) rest

module _ {E : Type 0} (events : AsyncEvent E) where
  -- A `recv_some` of the reader that returns: `emplace_front` and `set`.
  pub on_read : List ℕ → EchoClient E → EchoClient E
  on_read piece c =
      let (event, resumed) = events.set c.m_event in
      record c {
        m_write_msgs = piece ∷ c.m_write_msgs;
        m_event = event;
        phase = if resumed then checking else c.phase;
      }

  -- The head of the loop of the writer, on a valid socket, with the pieces pending.
  pub write_next : List (List ℕ) → EchoClient E → EchoClient E
  write_next [] c =
      let (event, suspends) = events.wait c.m_event in
      record c { m_event = event; phase = if suspends then suspended else checking }
  write_next (piece ∷ pieces) c = record c { phase = sending piece }

  abbrev drop_first : List (List ℕ) → List (List ℕ)
  drop_first [] = []
  drop_first (p ∷ ps) = ps

  -- A `send` that returns, and `pop_front`.
  pub on_written : List ℕ → EchoClient E → EchoClient E
  on_written piece c = record c {
    m_write_msgs = drop_first c.m_write_msgs;
    phase = checking;
    echoed = c.echoed ++ (piece ∷ []);
  }

  -- The pieces that are read one after another.
  pub on_reads : List (List ℕ) → EchoClient E → EchoClient E
  unfolding on_read
  on_reads [] c = c
  on_reads (piece ∷ pieces) c = on_reads pieces (on_read piece c)

  pending_last :
      (pieces : List (List ℕ)) (last : List ℕ) (c : EchoClient E)
      → (on_reads (pieces ++ (last ∷ [])) c).m_write_msgs ≡ last ∷ (on_reads pieces c).m_write_msgs
  unfolding on_reads on_read
  pending_last [] last c = refl
  pending_last (piece ∷ pieces) last c = pending_last pieces last (on_read piece c)

  pending_reverse :
      (pieces : List (List ℕ)) (c : EchoClient E)
      → (on_reads pieces c).m_write_msgs ≡ reverse pieces ++ c.m_write_msgs
  unfolding on_reads on_read
  pending_reverse [] c = refl
  pending_reverse (piece ∷ pieces) c =
      pending_reverse pieces (on_read piece c)
      ∙ reverse_onto pieces [] (piece ∷ c.m_write_msgs)
      ∙ sym (reverse_onto pieces (piece ∷ []) c.m_write_msgs)

  echoed_before :
      (pieces : List (List ℕ)) (c : EchoClient E) → (on_reads pieces c).echoed ≡ c.echoed
  unfolding on_reads on_read
  echoed_before [] c = refl
  echoed_before (piece ∷ pieces) c = echoed_before pieces (on_read piece c)

  -- Of the pieces that are read while the first of those pending is sent, the last one is lost:
  -- the end of the send removes it in place of the one that was sent, which stays and is sent
  -- again. The others are pending in front of it, the latest first.
  pub on_written-on_reads :
      (pieces : List (List ℕ)) (last sent : List ℕ) (rest : List (List ℕ)) (c : EchoClient E)
      → c.m_write_msgs ≡ sent ∷ rest
      → let c' = on_written sent (on_reads (pieces ++ (last ∷ [])) c) in
        (c'.echoed ≡ c.echoed ++ (sent ∷ [])) × (c'.m_write_msgs ≡ reverse pieces ++ (sent ∷ rest))
  unfolding on_written
  on_written-on_reads pieces last sent rest c e = (
    ap (λ l. l ++ (sent ∷ [])) (echoed_before (pieces ++ (last ∷ [])) c),
    ap drop_first (pending_last pieces last c)
        ∙ pending_reverse pieces c
        ∙ ap (λ l. reverse pieces ++ l) e,
  )
