-- ===== src/Echo/Tests.antt =====
-- A run of the echo client, and its theorem at a concrete input.
use xynet.Prelude.{◌≡◌, refl, [], ◌∷◌, ◌++◌, reverse}
use xynet.Chat.Writer.{EventState, clear}
use xynet.Chat.Writer.FlagEvent.{flag_event}
use xynet.Echo.{EchoClient, sending, on_reads, on_written, on_written-on_reads}

abbrev client : EchoClient EventState
client = record {
  m_write_msgs = (1 ∷ []) ∷ [];
  m_event = clear;
  phase = sending (1 ∷ []);
  echoed = [];
}

on_written-on_reads_example :
    let c' =
      on_written flag_event (1 ∷ []) (on_reads flag_event ((2 ∷ []) ∷ (3 ∷ []) ∷ []) client) in
    (c'.echoed ≡ (1 ∷ []) ∷ []) × (c'.m_write_msgs ≡ reverse ((2 ∷ []) ∷ []) ++ ((1 ∷ []) ∷ []))
on_written-on_reads_example =
    on_written-on_reads flag_event ((2 ∷ []) ∷ []) (3 ∷ []) (1 ∷ []) [] client refl
