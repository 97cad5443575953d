-- ===== src/Serving/Await.antt =====
-- What a send that a coroutine awaits has sent.
use xynet.Prelude.{
  ℕ, ◌+◌, ◌≡◌, ◌≢◌, ◌⊎◌, inl, inr, refl, arith, ◌∙◌, ap, sym, true, false, List, [], ◌∷◌, ◌++◌, map,
  length, get_or, All, Bool, length-append,
}
use mathlib.Core.List.{append-nil, append_assoc, map-append}
use mathlib.Core.Path.{subst}
use xynet.Prelude.Int.{ℤ, pos}
use xynet.Buffer.{get_iov_span}
use xynet.Buffer.Commit.{region}
use xynet.Operation.{Cqe, async_operation, is_error, set_value}
use xynet.Transfer.{AsyncMsg, async_msg}
use xynet.Transfer.Rounds.{run, offered}
use xynet.Transfer.Send
use xynet.Transfer.Send.{on_send_completed}
use xynet.Transfer.Send.Progress.{run-offered, run-resume, run_submit, Next-cases, run-IsEnd}
use xynet.Serving.{
  Awaited, pending, threw, counted, awaited, throwing, transfer, await_send, SendAnswers,
}

pub Awaited-cases : (a : Awaited) → (a ≡ pending) ⊎ (a ≡ threw) ⊎ ((n : ℕ) × (a ≡ counted n))
Awaited-cases pending = inl refl
Awaited-cases threw = inr (inl refl)
Awaited-cases (counted n) = inr (inr (n, refl))

-- What is owed after a whole send is what is owed later.
pub owes_more :
    (bytes sent received later_sent left later : List ℕ)
    → sent ++ left ≡ bytes
    → left ≡ []
    → received ≡ later_sent ++ later
    → bytes ++ received ≡ (sent ++ later_sent) ++ later
owes_more bytes sent received later_sent left later split all_sent e =
    let same : bytes ≡ sent = sym split ∙ ap (λ l. sent ++ l) all_sent ∙ append-nil sent in
    (λ i. same i ++ e i) ∙ sym (append_assoc sent later_sent later)

abbrev read_at : List ℕ → List ℕ → List ℕ
read_at buf addrs = map (λ a. get_or buf a 0) addrs

on_send_completed-nonzero :
    (cqe : Cqe) (op : AsyncMsg) → cqe.res ≢ pos 0 → (on_send_completed cqe op).0.base.m_res ≢ pos 0
unfolding on_send_completed set_value get_iov_span
on_send_completed-nonzero cqe op h = ground arith

get_or-append :
    (front : List ℕ) (x : ℕ) (rest : List ℕ) → get_or (front ++ (x ∷ rest)) (length front) 0 ≡ x
get_or-append [] x rest = refl
get_or-append (f ∷ front) x rest = get_or-append front x rest

read_at-region :
    (front bytes rest : List ℕ) (base : ℕ)
    → base ≡ length front
    → read_at (front ++ (bytes ++ rest)) (region base (length bytes)) ≡ bytes
read_at-region front [] rest base e = refl
read_at-region front (x ∷ bytes) rest base e =
    let shift : read_at (front ++ (x ∷ (bytes ++ rest))) (region (base + 1) (length bytes))
        ≡ bytes =
      subst (λ l. read_at l (region (base + 1) (length bytes)) ≡ bytes)
        (append_assoc front (x ∷ []) (bytes ++ rest))
        (read_at-region (front ++ (x ∷ [])) bytes rest (base + 1)
          (omega (arith, length-append front (x ∷ []), e))) in
    let first : get_or (front ++ (x ∷ (bytes ++ rest))) base 0 ≡ x =
      rw e (get_or-append front x (bytes ++ rest)) in
    λ i. first i ∷ shift i

pub run-nonzero :
    (cqes : List Cqe) (op : AsyncMsg)
    → All (λ (c : Cqe). c.res ≢ pos 0) cqes
    → (run on_send_completed cqes op).resumed ≡ true
    → (run on_send_completed cqes op).op.base.m_res ≢ pos 0
run-nonzero [] op h e = unfold run in absurd (cc e)
run-nonzero (cqe ∷ cqes) op h e = elim (Next-cases (on_send_completed cqe op).1) [
  | inl ends ↦ rw (run-resume cqe cqes op ends) (on_send_completed-nonzero cqe op h.0)
  | inr more ↦
      rw (run_submit cqe cqes op more)
        (run-nonzero cqes (on_send_completed cqe op).0 h.1 (rw (run_submit cqe cqes op more) at e))
]

pub counted-clear :
    (op : AsyncMsg) (resumed : Bool) (n : ℕ)
    → awaited resumed (Send.get_result throwing op) ≡ counted n
    → (resumed ≡ true) × (is_error op.base.error ≡ false)
unfolding Send.get_result
counted-clear op true n e = ground arith
counted-clear op false n e = absurd (cc e)

module _ (service : ℕ) (fd : ℤ) (bytes tail : List ℕ) (cqes : List Cqe) where
  abbrev sending : List ℕ × Awaited
  sending = await_send service fd (length bytes) cqes (bytes ++ tail)

  -- A send of the first bytes of a buffer sends a first part of them, and all of them where it
  -- returns a count.
  pub await_send-bytes :
      SendAnswers service fd (length bytes) cqes
      → (left : List ℕ) × (sending.0 ++ left ≡ bytes)
        × ((n : ℕ) → sending.1 ≡ counted n → left ≡ [])
  unfolding await_send async_msg async_operation
  await_send-bytes ok =
      let op = transfer service fd (length bytes) in
      let r = run on_send_completed cqes op in
      let whole = run-offered cqes op refl in
      (
        read_at (bytes ++ tail) (offered r.op),
        sym (map-append (λ a. get_or (bytes ++ tail) a 0) r.sent (offered r.op))
            ∙ ap (read_at (bytes ++ tail)) (whole ∙ append-nil (region 0 (length bytes)))
            ∙ read_at-region [] bytes tail 0 refl,
        λ n e.
            let (done, clear) = counted-clear r.op r.resumed n e in
            let nothing : offered r.op ≡ [] =
              ground (arith, run-IsEnd cqes op done, run-nonzero cqes op ok.1 done) in
            ap (read_at (bytes ++ tail)) nothing,
      )
