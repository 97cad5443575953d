-- ===== src/Transfer/Rounds.antt =====
-- A transfer against a kernel that answers its submissions one after the other.
use xynet.Prelude.{ℕ, ◌≤◌, Bool, true, false, List, [], ◌∷◌, ◌++◌, length, take}
use xynet.Prelude.Int.{pos_part}
use xynet.Buffer.Commit.{addresses}
use xynet.Operation.{Cqe}
use xynet.Transfer.{AsyncMsg, Next, resume, submit}

-- The bytes that the next submission offers, by their addresses.
abbrev pub offered : AsyncMsg → List ℕ
offered op = addresses op.m_buffers.pending

-- The kernel takes as many of them as it answers, and none with an error.
abbrev pub accepted : Cqe → AsyncMsg → List ℕ
accepted cqe op = take (pos_part cqe.res) (offered op)

-- The operation after one answer, whether its coroutine has been resumed, and the bytes that the
-- kernel has taken.
pub record Run : Type 0 where
  pub op : AsyncMsg
  pub resumed : Bool
  pub sent : List ℕ

-- The answers of the kernel, one to each submission, until the coroutine is resumed;
-- `on_completed` is the operation's callback.
unfoldable pub run : (Cqe → AsyncMsg → AsyncMsg × Next) → List Cqe → AsyncMsg → Run
run on_completed [] op = record { op = op; resumed = false; sent = [] }
run on_completed (cqe ∷ cqes) op =
    let (op', next) = on_completed cqe op in
    let rest = run on_completed cqes op' in
    elim next [
      | resume ↦ record { op = op'; resumed = true; sent = accepted cqe op }
      | submit ↦ record rest { sent = accepted cqe op ++ rest.sent }
    ]

-- `sendmsg` answers at most the number of bytes that it is offered.
abbrev pub IsAnswer : Cqe → AsyncMsg → Type 0
IsAnswer cqe op = pos_part cqe.res ≤ length (offered op)

unfoldable pub Answers : (Cqe → AsyncMsg → AsyncMsg × Next) → List Cqe → AsyncMsg → Type 0
Answers on_completed [] op = Unit {0}
Answers on_completed (cqe ∷ cqes) op =
    IsAnswer cqe op × Answers on_completed cqes (on_completed cqe op).0
