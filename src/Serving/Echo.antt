-- ===== src/Serving/Echo.antt =====
-- The loop of `echo` of example/simple/echo.cpp and of `pingpong_server`: what a session sends back
-- of what it receives.
use xynet.Prelude.{
  ℕ, zero, suc, ◌^◌, ◌<◌, ◌≤◌, ◌≡◌, ◌⊎◌, inl, inr, refl, arith, ◌∙◌, ap, sym, List, [], ◌∷◌, ◌++◌,
  length, All, drop,
}
use xynet.Prelude.Int.{ℤ, pos, negsuc, pos_part}
use xynet.Operation.{async_operation, set_value, make_error_code}
use xynet.Transfer.{async_msg}
use xynet.Transfer.Rounds.{run}
use xynet.Transfer.Recv.{on_recv_completed}
use xynet.Transfer.Recv
use xynet.Serving.{
  Awaited, pending, threw, counted, await_send, await_recv_some, SendAnswers, EchoTurn, Echoed,
  in_send, recv_threw, send_threw, filled, echo_loop,
}
use xynet.Serving.Await.{await_send-bytes, Awaited-cases, owes_more}

-- An end of the stream and an error of the kernel throw.
abbrev received_of : ℤ → Awaited
received_of (pos zero) = threw
received_of (pos (suc n)) = counted (suc n)
received_of (negsuc k) = threw

recv_some_answer :
    (service : ℕ) (fd : ℤ) (size : ℕ) (res flags : ℤ)
    → pos_part res < 2 ^ 31
    → await_recv_some service fd size (record { res = res; flags = flags }) ≡ received_of res
unfolding await_recv_some run on_recv_completed set_value async_operation async_msg Recv.get_result
    make_error_code
recv_some_answer service fd size (pos zero) flags small = ground arith
recv_some_answer service fd size (pos (suc n)) flags small = ground arith
recv_some_answer service fd size (negsuc k) flags small = ground arith

length-zero : (bytes : List ℕ) → length bytes ≡ 0 → bytes ≡ []
length-zero [] e = refl
length-zero (b ∷ bytes) e = cc e

-- A turn that the kernel may make of a loop with a buffer of `size` bytes.
pub record IsTurn (service : ℕ) (fd : ℤ) (size : ℕ) (turn : EchoTurn) : Type 0 where
  pub fits : pos_part turn.recv_cqe.res ≤ size
  pub fills : length turn.bytes ≡ pos_part turn.recv_cqe.res
  pub answers : SendAnswers service fd (length turn.bytes) turn.send_cqes

-- What has been received and not sent is the end of it, and there is none but in a send, or after a
-- send that threw.
abbrev pub Owes : Echoed → List ℕ → Type 0
Owes e left =
    (e.received ≡ e.sent ++ left) × ((left ≡ []) ⊎ (e.end ≡ in_send) ⊎ (e.end ≡ send_threw))

received_cases :
    (res : ℤ) (bytes : List ℕ) (a : Awaited)
    → length bytes ≡ pos_part res
    → a ≡ received_of res
    → ((a ≡ threw) × (bytes ≡ [])) ⊎ (a ≡ counted (length bytes))
received_cases (pos zero) bytes a fills e = inl (e, length-zero bytes fills)
received_cases (pos (suc n)) bytes a fills e = inr (e ∙ ap counted (sym fills))
received_cases (negsuc k) bytes a fills e = inl (e, length-zero bytes fills)

module _ (service : ℕ) (fd : ℤ) (size : ℕ) (small : size < 2 ^ 31) where
  abbrev loop : List EchoTurn → List ℕ → Echoed
  loop = echo_loop service fd size

  abbrev awaits : EchoTurn → Awaited
  awaits turn = await_recv_some service fd size turn.recv_cqe

  turn_cases :
      (turn : EchoTurn)
      → IsTurn service fd size turn
      → ((awaits turn ≡ threw) × (turn.bytes ≡ [])) ⊎ (awaits turn ≡ counted (length turn.bytes))
  turn_cases turn ok = received_cases turn.recv_cqe.res turn.bytes (awaits turn) ok.fills (
      recv_some_answer service fd size turn.recv_cqe.res turn.recv_cqe.flags
        (omega (arith, ok.fits)))

  loop-threw :
      (turn : EchoTurn) (turns : List EchoTurn) (buf : List ℕ)
      → awaits turn ≡ threw
      → loop (turn ∷ turns) buf ≡ record { received = turn.bytes; sent = []; end = recv_threw }
  unfolding echo_loop
  loop-threw turn turns buf e = rw (e, echo_loop) refl

  abbrev sends : EchoTurn → List ℕ → List ℕ × Awaited
  sends turn buf = await_send service fd (length turn.bytes) turn.send_cqes (filled turn.bytes buf)

  loop-sends :
      (turn : EchoTurn) (turns : List EchoTurn) (buf : List ℕ)
      → awaits turn ≡ counted (length turn.bytes)
      → loop (turn ∷ turns) buf ≡ (
          let rest = loop turns (filled turn.bytes buf) in
          let (sent, result) = sends turn buf in
          elim result [
            | pending ↦ record { received = turn.bytes; sent = sent; end = in_send }
            | threw ↦ record { received = turn.bytes; sent = sent; end = send_threw }
            | counted n ↦ record rest {
              received = turn.bytes ++ rest.received;
              sent = sent ++ rest.sent;
            }
          ])
  unfolding echo_loop
  loop-sends turn turns buf e = rw (e, echo_loop) refl

  -- Against a kernel that fills as many bytes as it counts and at most the buffer, of less than
  -- 2 ^ 31 bytes, and that takes at most what a send offers and never nothing, a session that echoes
  -- has sent what it received, in order: all of it, unless it is in a send or a send threw, and then
  -- a first part of it.
  pub echo_loop-Owes :
      (turns : List EchoTurn) (buf : List ℕ)
      → All (IsTurn service fd size) turns
      → (left : List ℕ) × Owes (loop turns buf) left
  echo_loop-Owes [] buf ok = unfold echo_loop in ([], (refl, inl refl))
  echo_loop-Owes (turn ∷ turns) buf ok = elim (turn_cases turn ok.0) [
    | inl (ends, none_filled) ↦ rw (loop-threw turn turns buf ends) ([], (none_filled, inl refl))
    | inr more ↦
        let (left, split, all_sent) =
          await_send-bytes service fd turn.bytes (drop (length turn.bytes) buf) turn.send_cqes
            ok.0.answers in
        rw (loop-sends turn turns buf more) (elim (Awaited-cases (sends turn buf).1) [
          | inl e ↦ rw e (left, (sym split, inr (inl refl)))
          | inr (inl e) ↦ rw e (left, (sym split, inr (inr refl)))
          | inr (inr (n, e)) ↦
              let (later, owed) = echo_loop-Owes turns (filled turn.bytes buf) ok.1 in
              rw e (later, (owes_more _ _ _ _ left later split (all_sent n e) owed.0, owed.1))
        ])
  ]
