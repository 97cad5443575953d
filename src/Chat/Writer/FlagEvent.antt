-- ===== src/Chat/Writer/FlagEvent.antt =====
-- The auto-reset event of Chat/Writer as a flag, for runs at concrete inputs.
use xynet.Prelude.{Bool, true, false, ◌≡◌, refl}
use xynet.Chat.Writer.{AsyncEvent, EventState, clear, raised, waited}

abbrev pub set : EventState → EventState × Bool
set clear = (raised, false)
set raised = (raised, false)
set waited = (clear, true)

abbrev pub wait : EventState → EventState × Bool
wait clear = (waited, true)
wait raised = (clear, false)
wait waited = (waited, true)

pub set_clear : (e : EventState) → e ≡ clear → ((set e).0 ≡ raised) × ((set e).1 ≡ false)
set_clear e p = rw p (refl, refl)

pub set_raised : (e : EventState) → e ≡ raised → ((set e).0 ≡ raised) × ((set e).1 ≡ false)
set_raised e p = rw p (refl, refl)

pub set_waited : (e : EventState) → e ≡ waited → ((set e).0 ≡ clear) × ((set e).1 ≡ true)
set_waited e p = rw p (refl, refl)

pub wait_clear : (e : EventState) → e ≡ clear → ((wait e).0 ≡ waited) × ((wait e).1 ≡ true)
wait_clear e p = rw p (refl, refl)

pub wait_raised : (e : EventState) → e ≡ raised → ((wait e).0 ≡ clear) × ((wait e).1 ≡ false)
wait_raised e p = rw p (refl, refl)

-- An event that is its state.
abbrev pub flag_event : AsyncEvent EventState
flag_event = record {
  fresh = clear;
  set = set;
  wait = wait;
  state = λ s. s;
  fresh_clear = refl;
  set_clear = set_clear;
  set_raised = set_raised;
  set_waited = set_waited;
  wait_clear = wait_clear;
  wait_raised = wait_raised;
}
