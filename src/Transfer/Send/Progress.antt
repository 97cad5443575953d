-- ===== src/Transfer/Send/Progress.antt =====
-- A send against a kernel that answers each submission: what is sent, and what is left.
use xynet.Prelude.{◌+◌, ◌^◌, ◌<◌, ◌≡◌, ◌⊎◌, inl, inr, refl, arith}
use xynet.Prelude.{◌∙◌, ap, true, false}
use xynet.Prelude.{List, [], ◌∷◌, ◌++◌, length, length-append, length-take}
use xynet.Prelude.{take-append-drop, none}
use xynet.Prelude.Int.{pos, pos_part, to_size}
use xynet.Buffer.{Iovec, commit, get_iov_span, iov_ptr}
use xynet.Buffer.Commit.{addresses, commit-addresses}
use xynet.Operation.{Cqe, is_error, set_value}
use xynet.Transfer.Rounds.{run, offered, accepted, Answers, IsAnswer}
use xynet.Transfer.{AsyncMsg, Next, resume, submit}
use xynet.Transfer.Send.{on_send_completed}
use mathlib.Core.List.{append_assoc}

-- One completion, when no error was recorded before: the bytes that were taken and those still
-- offered are those that were offered, and the count grows by what was taken.
on_send_completed-offered :
    (cqe : Cqe) (op : AsyncMsg)
    → is_error op.base.error ≡ false
    → accepted cqe op ++ offered (on_send_completed cqe op).0 ≡ offered op
unfolding on_send_completed set_value get_iov_span
on_send_completed-offered cqe op clear = ground (
  arith,
  commit-addresses (pos_part cqe.res) op.m_buffers,
  take-append-drop (pos_part cqe.res) (offered op),
)

-- What a completion that leads to a new submission says.
pub on_send_completed-submit :
    (cqe : Cqe) (op : AsyncMsg)
    → (on_send_completed cqe op).1 ≡ submit
    → (is_error (on_send_completed cqe op).0.base.error ≡ false) × (0 < pos_part cqe.res)
unfolding on_send_completed set_value get_iov_span
on_send_completed-submit cqe op e = ground arith

pub Next-cases : (n : Next) → (n ≡ resume) ⊎ (n ≡ submit)
Next-cases resume = inl refl
Next-cases submit = inr refl

pub run-resume :
    (cqe : Cqe) (cqes : List Cqe) (op : AsyncMsg)
    → (on_send_completed cqe op).1 ≡ resume
    → run on_send_completed (cqe ∷ cqes) op
      ≡ record { op = (on_send_completed cqe op).0; resumed = true; sent = accepted cqe op }
unfolding run
run-resume cqe cqes op e = rw (e, run) refl

pub run_submit :
    (cqe : Cqe) (cqes : List Cqe) (op : AsyncMsg)
    → (on_send_completed cqe op).1 ≡ submit
    → let rest = run on_send_completed cqes (on_send_completed cqe op).0 in
      run on_send_completed (cqe ∷ cqes) op ≡ record rest { sent = accepted cqe op ++ rest.sent }
unfolding run
run_submit cqe cqes op e = rw (e, run) refl

-- Whatever the kernel answers, in however many rounds, what it took and what is still to be sent
-- make up what was to be sent, in its order, as long as the operation starts with its error clear.
pub run-offered :
    (cqes : List Cqe) (op : AsyncMsg)
    → is_error op.base.error ≡ false
    → (run on_send_completed cqes op).sent ++ offered (run on_send_completed cqes op).op
      ≡ offered op
run-offered [] op clear = unfold run in refl
run-offered (cqe ∷ cqes) op clear = elim (Next-cases (on_send_completed cqe op).1) [
  | inl e ↦ rw (run-resume cqe cqes op e) (on_send_completed-offered cqe op clear)
  | inr e ↦
      let op' = (on_send_completed cqe op).0 in
      rw (run_submit cqe cqes op e) (
        append_assoc (accepted cqe op) (run on_send_completed cqes op').sent
          (offered (run on_send_completed cqes op').op)
        ∙ ap (λ l. accepted cqe op ++ l)
            (run-offered cqes op' (on_send_completed-submit cqe op e).0)
        ∙ on_send_completed-offered cqe op clear)
]

-- The count after one completion.
on_send_completed-bytes :
    (cqe : Cqe) (op : AsyncMsg)
    → is_error op.base.error ≡ false
    → IsAnswer cqe op
    → op.m_bytes_transferred + length (offered op) < 2 ^ 31
    → (on_send_completed cqe op).0.m_bytes_transferred
      ≡ op.m_bytes_transferred + length (accepted cqe op)
unfolding on_send_completed set_value get_iov_span
on_send_completed-bytes cqe op clear fits room =
    ground (arith, length-take (pos_part cqe.res) (offered op))

pub after_offered :
    (cqe : Cqe) (op : AsyncMsg)
    → is_error op.base.error ≡ false
    → length (offered (on_send_completed cqe op).0) + length (accepted cqe op) ≡ length (offered op)
after_offered cqe op clear = omega (
  arith,
  ap length (on_send_completed-offered cqe op clear),
  length-append (accepted cqe op) (offered (on_send_completed cqe op).0),
)

pub run-bytes :
    (cqes : List Cqe) (op : AsyncMsg)
    → is_error op.base.error ≡ false
    → Answers on_send_completed cqes op
    → op.m_bytes_transferred + length (offered op) < 2 ^ 31
    → (run on_send_completed cqes op).op.m_bytes_transferred
      ≡ op.m_bytes_transferred + length (run on_send_completed cqes op).sent
run-bytes [] op clear ok room = unfold run in omega arith
run-bytes (cqe ∷ cqes) op clear ok room = elim (Next-cases (on_send_completed cqe op).1) [
  | inl e ↦
      rw (run-resume cqe cqes op e)
        (on_send_completed-bytes cqe op clear (unfold Answers in ok.0) room)
  | inr e ↦
      let op' = (on_send_completed cqe op).0 in
      let counted = on_send_completed-bytes cqe op clear (unfold Answers in ok.0) room in
      let left = after_offered cqe op clear in
      let clear' = (on_send_completed-submit cqe op e).0 in
      let ih = run-bytes cqes op' clear' (unfold Answers in ok.1) (omega arith) in
      rw (run_submit cqe cqes op e)
        (omega (arith, length-append (accepted cqe op) (run on_send_completed cqes op').sent))
]

-- Why a coroutine is resumed.
abbrev pub IsEnd : AsyncMsg → Type 0
IsEnd op = (is_error op.base.error ≡ true) ⊎ (op.base.m_res ≡ pos 0) ⊎ (offered op ≡ [])

null_offered :
    (passed pending : List Iovec) → iov_ptr passed pending ≡ none → addresses pending ≡ []
null_offered passed [] e = refl
null_offered passed (v ∷ vs) e = absurd (cc e)

on_send_completed-IsEnd :
    (cqe : Cqe) (op : AsyncMsg)
    → (on_send_completed cqe op).1 ≡ resume
    → IsEnd (on_send_completed cqe op).0
unfolding on_send_completed set_value get_iov_span
on_send_completed-IsEnd cqe op e =
    let b = commit (to_size cqe.res) op.m_buffers in ground (arith, null_offered b.passed b.pending)

pub run-IsEnd :
    (cqes : List Cqe) (op : AsyncMsg)
    → (run on_send_completed cqes op).resumed ≡ true
    → IsEnd (run on_send_completed cqes op).op
run-IsEnd [] op e = unfold run in cc e
run-IsEnd (cqe ∷ cqes) op r = elim (Next-cases (on_send_completed cqe op).1) [
  | inl e ↦ rw (run-resume cqe cqes op e) (on_send_completed-IsEnd cqe op e)
  | inr e ↦
      rw (run_submit cqe cqes op e)
        (run-IsEnd cqes (on_send_completed cqe op).0 (rw (run_submit cqe cqes op e) at r))
]
