-- ===== src/Chat/Writer/Order.antt =====
-- What the writer of a session of example/chat/chat_server.cpp sends, in every interleaving.
use xynet.Prelude.{if◌then◌else◌, true, false, ◌≡◌, ◌⊎◌, inl, inr, refl, ◌∙◌, ap, sym}
use xynet.Prelude.{List, [], ◌∷◌, ◌++◌}
use mathlib.Core.List.{append-nil, append_assoc}
use mathlib.Core.Path.{subst}
use xynet.Chat.{Message}
use xynet.Chat.Writer.{
  AsyncEvent, EventState, clear, raised, waited, WriterPhase, checking, suspended, ended, sending,
  Writer, start, deliver_message, check_messages, check, pop_front, on_sent, stop, WriterStep,
  delivers, checks, sends, send_throws, reader_throws, WriterRun, no_step, then_step,
}

-- Nobody waits for the event.
abbrev pub IsFree : EventState → Type 0
IsFree state = (state ≡ clear) ⊎ (state ≡ raised)

-- What holds in each phase, of the messages pending and the event.
abbrev pub Waits : WriterPhase → List Message → EventState → Type 0
Waits checking messages state = IsFree state
Waits (sending m) messages state = IsFree state × ((rest : List Message) × (messages ≡ m ∷ rest))
Waits suspended messages state = (state ≡ waited) × (messages ≡ [])
Waits ended messages state = IsFree state

module _ {E : Type 0} (events : AsyncEvent E) where
  abbrev pub IsInOrder : List Message → Writer E → Type 0
  IsInOrder delivered w =
      (w.written ++ w.m_write_msgs ≡ delivered)
      × Waits w.phase w.m_write_msgs (events.state w.m_event)

  set-IsFree :
      (e : E)
      → IsFree (events.state e)
      → IsFree (events.state (events.set e).0) × ((events.set e).1 ≡ false)
  set-IsFree e (inl c) = let (raises, still) = events.set_clear e c in (inr raises, still)
  set-IsFree e (inr r) = let (raises, still) = events.set_raised e r in (inr raises, still)

  deliver-Waits :
      (phase : WriterPhase) (messages : List Message) (message : Message) (e : E)
      → Waits phase messages (events.state e)
      → Waits
          (if (events.set e).1 then checking else phase)
          (messages ++ (message ∷ []))
          (events.state (events.set e).0)
  deliver-Waits checking messages message e free =
      let (free', still) = set-IsFree e free in rw still free'
  deliver-Waits (sending m) messages message e (free, (rest, front)) =
      let (free', still) = set-IsFree e free in
      rw still (free', (rest ++ (message ∷ []), ap (λ l. l ++ (message ∷ [])) front))
  deliver-Waits suspended messages message e (waits, _) =
      let (clears, resumes) = events.set_waited e waits in rw resumes (inl clears)
  deliver-Waits ended messages message e free =
      let (free', still) = set-IsFree e free in rw still free'

  deliver-IsInOrder :
      (message : Message) (delivered : List Message) (w : Writer E)
      → IsInOrder delivered w
      → IsInOrder (delivered ++ (message ∷ [])) (deliver_message events message w)
  unfolding deliver_message
  deliver-IsInOrder message delivered w (order, waits) = (
    sym (append_assoc w.written w.m_write_msgs (message ∷ []))
        ∙ ap (λ l. l ++ (message ∷ [])) order,
    deliver-Waits w.phase w.m_write_msgs message w.m_event waits,
  )

  check_messages-IsInOrder :
      (messages delivered : List Message) (w : Writer E)
      → w.m_write_msgs ≡ messages
      → w.written ++ w.m_write_msgs ≡ delivered
      → IsFree (events.state w.m_event)
      → IsInOrder delivered (check_messages events messages w)
  unfolding check_messages
  check_messages-IsInOrder [] delivered w same order (inl c) =
      let (waits, suspends) = events.wait_clear w.m_event c in (order, rw suspends (waits, same))
  check_messages-IsInOrder [] delivered w same order (inr r) =
      let (clears, goes_on) = events.wait_raised w.m_event r in (order, rw goes_on (inl clears))
  check_messages-IsInOrder (m ∷ ms) delivered w same order free = (order, (free, (ms, same)))

  check-IsInOrder :
      (delivered : List Message) (w : Writer E)
      → w.phase ≡ checking
      → IsInOrder delivered w
      → IsInOrder delivered (check events w)
  unfolding check
  check-IsInOrder delivered w at_head (order, waits) =
      let free : IsFree (events.state w.m_event) =
        subst (λ p. Waits p w.m_write_msgs (events.state w.m_event)) at_head waits in
      elim w.stop_requested
        as (λ b.
          IsInOrder delivered
            (if b then record w { phase = ended } else check_messages events w.m_write_msgs w)) [
              | true ↦ (order, free)
              | false ↦ check_messages-IsInOrder w.m_write_msgs delivered w refl order free
            ]

  sent-IsInOrder :
      (message : Message) (delivered : List Message) (w : Writer E)
      → w.phase ≡ sending message
      → IsInOrder delivered w
      → IsInOrder delivered (on_sent events message w)
  unfolding on_sent
  sent-IsInOrder message delivered w in_send (order, waits) =
      let (free, (rest, front)) =
        subst (λ p. Waits p w.m_write_msgs (events.state w.m_event)) in_send waits in
      (
        ap (λ l. (w.written ++ (message ∷ [])) ++ pop_front events l) front
            ∙ append_assoc w.written (message ∷ []) rest
            ∙ ap (λ l. w.written ++ l) (sym front)
            ∙ order,
        free,
      )

  -- The end of a writer whose `send` throws.
  throws-Waits :
      (message : Message) (w : Writer E)
      → w.phase ≡ sending message
      → Waits w.phase w.m_write_msgs (events.state w.m_event)
      → IsFree (events.state w.m_event)
  throws-Waits message w in_send waits =
      (subst (λ p. Waits p w.m_write_msgs (events.state w.m_event)) in_send waits).0

  step-IsInOrder :
      (now delivered : List Message) (w w' : Writer E)
      → WriterStep events now w w'
      → IsInOrder delivered w
      → IsInOrder (delivered ++ now) w'
  step-IsInOrder _ delivered _ _ (delivers message w in_room) h =
      deliver-IsInOrder message delivered w h
  step-IsInOrder _ delivered _ _ (checks w at_head) h =
      subst (λ ds. IsInOrder ds (check events w)) (sym (append-nil delivered))
        (check-IsInOrder delivered w at_head h)
  step-IsInOrder _ delivered _ _ (sends message w in_send) h =
      subst (λ ds. IsInOrder ds (on_sent events message w)) (sym (append-nil delivered))
        (sent-IsInOrder message delivered w in_send h)
  step-IsInOrder _ delivered _ _ (send_throws message w in_send) (order, waits) =
      (order ∙ sym (append-nil delivered), throws-Waits message w in_send waits)
  step-IsInOrder _ delivered _ _ (reader_throws w) (order, waits) =
      (order ∙ sym (append-nil delivered), waits)

  -- In every interleaving of the room, the kernel, the reader and the writer of a session, what the
  -- writer has sent and what is pending are together what was delivered to the session, in order.
  -- A message that is being sent is the first of those pending, and wherever the writer waits for
  -- the event nothing is pending, so that no message is left waiting for a wakeup that was lost.
  pub run-IsInOrder :
      (delivered : List Message) (w : Writer E)
      → WriterRun events (start events) delivered w
      → IsInOrder delivered w
  run-IsInOrder _ _ no_step = (refl, inl events.fresh_clear)
  run-IsInOrder _ _ (then_step before now w w' run step) =
      step-IsInOrder now before w w' step (run-IsInOrder before w run)

  -- A session that is no participant any more, and whose writer waits.
  abbrev pub IsAbandoned : Writer E → Type 0
  IsAbandoned w = (w.phase ≡ suspended) × (w.in_room ≡ false)

  step-IsAbandoned :
      (now : List Message) (w w' : Writer E)
      → WriterStep events now w w'
      → IsAbandoned w
      → IsAbandoned w'
  step-IsAbandoned _ _ _ (delivers message w in_room) (waits, left) = absurd (cc)
  step-IsAbandoned _ _ _ (checks w at_head) (waits, left) = absurd (cc)
  step-IsAbandoned _ _ _ (sends message w in_send) (waits, left) = absurd (cc)
  step-IsAbandoned _ _ _ (send_throws message w in_send) (waits, left) = absurd (cc)
  step-IsAbandoned _ _ _ (reader_throws w) (waits, left) = (waits, refl)

  -- If the reader fails while the writer waits for the event, `stop` leaves the room without setting
  -- the event: the writer waits for ever, whatever happens, and the session never ends.
  pub stop-IsAbandoned :
      (w w' : Writer E) (delivered : List Message)
      → w.phase ≡ suspended
      → WriterRun events (stop events w) delivered w'
      → IsAbandoned w'
  stop-IsAbandoned w _ _ waits no_step = (waits, refl)
  stop-IsAbandoned w _ _ waits (then_step before now v v' run step) =
      step-IsAbandoned now v v' step (stop-IsAbandoned w v before waits run)
