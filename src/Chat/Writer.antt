-- ===== src/Chat/Writer.antt =====
-- The writer and the stop of a session of example/chat/chat_server.cpp, between the steps of the
-- room, the kernel and the reader.
pub mod Order
pub mod FlagEvent
use xynet.Prelude.{if◌then◌else◌, Bool, true, false, ◌≡◌, List, [], ◌∷◌, ◌++◌}
use xynet.Chat.{Message}

-- What the code relies on of an auto-reset event with one consumer: `set` resumes the coroutine that
-- waits, or else leaves the event set; `wait` takes a set event and goes on, or else suspends.
pub data EventState : Type 0 where
  clear raised waited : EventState

pub record AsyncEvent (E : Type 0) : Type 0 where
  pub fresh : E
  pub set : E → E × Bool
  pub wait : E → E × Bool
  pub state : E → EventState
  pub fresh_clear : state fresh ≡ clear
  pub set_clear : (e : E) → state e ≡ clear → (state (set e).0 ≡ raised) × ((set e).1 ≡ false)
  pub set_raised : (e : E) → state e ≡ raised → (state (set e).0 ≡ raised) × ((set e).1 ≡ false)
  pub set_waited : (e : E) → state e ≡ waited → (state (set e).0 ≡ clear) × ((set e).1 ≡ true)
  pub wait_clear : (e : E) → state e ≡ clear → (state (wait e).0 ≡ waited) × ((wait e).1 ≡ true)
  pub wait_raised : (e : E) → state e ≡ raised → (state (wait e).0 ≡ clear) × ((wait e).1 ≡ false)

-- Where the writer is: at the head of its loop, in `send` of a message, in `co_await m_event`, or at
-- its end.
pub data WriterPhase : Type 0 where
  checking suspended ended : WriterPhase
  sending : Message → WriterPhase

-- `in_room` is whether the session is a participant; `written` is the history of what was sent.
pub record Writer (E : Type 0) : Type 0 where
  pub m_write_msgs : List Message
  pub m_event : E
  pub stop_requested : Bool
  pub in_room : Bool
  pub phase : WriterPhase
  pub written : List Message

module _ {E : Type 0} (events : AsyncEvent E) where
  -- A session that has joined the room.
  abbrev pub start : Writer E
  start = record {
    m_write_msgs = [];
    m_event = events.fresh;
    stop_requested = false;
    in_room = true;
    phase = checking;
    written = [];
  }

  -- `chat_session::deliver`
  unfoldable pub deliver_message : Message → Writer E → Writer E
  deliver_message message w =
      let (event, resumed) = events.set w.m_event in
      record w {
        m_write_msgs = w.m_write_msgs ++ (message ∷ []);
        m_event = event;
        phase = if resumed then checking else w.phase;
      }

  -- The head of the loop, with the messages pending.
  unfoldable pub check_messages : List Message → Writer E → Writer E
  check_messages [] w =
      let (event, suspends) = events.wait w.m_event in
      record w { m_event = event; phase = if suspends then suspended else checking }
  check_messages (message ∷ messages) w = record w { phase = sending message }

  unfoldable pub check : Writer E → Writer E
  unfolding check_messages
  check w = if w.stop_requested then record w { phase = ended } else check_messages w.m_write_msgs w

  abbrev pub pop_front : List Message → List Message
  pop_front [] = []
  pop_front (m ∷ ms) = ms

  -- A `send` that returns.
  unfoldable pub on_sent : Message → Writer E → Writer E
  on_sent message w = record w {
    m_write_msgs = pop_front w.m_write_msgs;
    phase = checking;
    written = w.written ++ (message ∷ []);
  }

  -- `stop`, which leaves the room.
  abbrev pub stop : Writer E → Writer E
  stop w = record w { stop_requested = true; in_room = false }

-- A step, with the messages that it delivers.
pub data WriterStep {E : Type 0} (events : AsyncEvent E)
    : List Message → Writer E → Writer E → Type 0 where
  delivers :
      (message : Message) (w : Writer E)
      → w.in_room ≡ true
      → WriterStep events (message ∷ []) w (deliver_message events message w)
  checks : (w : Writer E) → w.phase ≡ checking → WriterStep events [] w (check events w)
  sends :
      (message : Message) (w : Writer E)
      → w.phase ≡ sending message
      → WriterStep events [] w (on_sent events message w)
  send_throws :
      (message : Message) (w : Writer E)
      → w.phase ≡ sending message
      → WriterStep events [] w (record (stop events w) { phase = ended })
  reader_throws : (w : Writer E) → WriterStep events [] w (stop events w)

-- Steps from `origin` on, with all the messages delivered.
pub data WriterRun {E : Type 0} (events : AsyncEvent E) (origin : Writer E)
    : List Message → Writer E → Type 0 where
  no_step : WriterRun events origin [] origin
  then_step :
      (before now : List Message) (w w' : Writer E)
      → WriterRun events origin before w
      → WriterStep events now w w'
      → WriterRun events origin (before ++ now) w'
