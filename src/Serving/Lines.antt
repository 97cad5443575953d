-- ===== src/Serving/Lines.antt =====
-- `chargen` of example/simple/chargen.cpp: a writer of lines beside a reader that discards, and
-- `discard` of example/simple/discard.cpp.
use xynet.Prelude.{
  ℕ, zero, suc, ◌+◌, ◌≡◌, inl, inr, refl, ◌∙◌, ap, sym, ◌&&◌, if◌then◌else◌, List, [], ◌∷◌, ◌++◌,
  length, set, All, Option, none, some,
}
use mathlib.Core.List.{append-nil, append_assoc}
use mathlib.Core.Path.{subst}
use xynet.Prelude.Int.{ℤ}
use xynet.Operation.{Cqe}
use xynet.Socket.{Socket, Answer, destroy}
use xynet.Serving.{
  pending, threw, counted, await_send, await_recv_some, SendAnswers, LoopEnd, in_recv, in_send,
  recv_threw, send_threw,
}
use xynet.Serving.Await.{await_send-bytes, Awaited-cases, owes_more}
use xynet.Serving.Finish.{finish, has_thrown}

-- `std::iota`
unfoldable pub iota : ℕ → ℕ → List ℕ
iota start zero = []
iota start (suc n) = start ∷ iota (start + 1) n

-- `chargen_buffer_t`: the last of its 95 characters is a newline.
unfoldable pub chargen_buffer : List ℕ
unfolding iota
chargen_buffer = set (iota 33 95) 94 10

-- The loop of `discard`, with the answers to its `recv_some`.
unfoldable pub discard_loop : ℕ → ℤ → ℕ → List Cqe → LoopEnd
discard_loop service fd size [] = in_recv
discard_loop service fd size (cqe ∷ cqes) = elim (await_recv_some service fd size cqe) [
  | pending ↦ in_recv
  | threw ↦ recv_threw
  | counted read_bytes ↦ discard_loop service fd size cqes
]

-- `discard`, with what the end of its socket closes.
pub discard : ℕ → Socket → List Cqe → LoopEnd × Option (List ℤ)
discard service s cqes =
    let end = discard_loop service s.m_fd 4096 cqes in
    (end, if has_thrown end then some (destroy s) else none)

-- What a writer has sent, and where it is.
pub record Written : Type 0 where
  pub sent : List ℕ
  pub end : LoopEnd

-- The loop of `writer` over a buffer, with the answers to each `send`; a writer that has not thrown
-- is in a `send`.
unfoldable pub write_loop : ℕ → ℤ → List ℕ → List (List Cqe) → Written
write_loop service fd buf [] = record { sent = []; end = in_send }
write_loop service fd buf (cqes ∷ rounds) =
    let rest = write_loop service fd buf rounds in
    let (sent, result) = await_send service fd (length buf) cqes buf in
    elim result [
      | pending ↦ record { sent = sent; end = in_send }
      | threw ↦ record { sent = sent; end = send_threw }
      | counted sent_bytes ↦ record rest { sent = sent ++ rest.sent }
    ]

unfoldable pub writer : ℕ → ℤ → List (List Cqe) → Written
writer service fd rounds = write_loop service fd chargen_buffer rounds

-- `chargen`: both have to end before the socket is closed.
pub chargen :
    ℕ → Socket → List Cqe → List (List Cqe) → Answer → List (Cqe × ℤ) → Written × Option (List ℤ)
chargen service s cqes rounds shut answers =
    let w = writer service s.m_fd rounds in
    let discarded = discard_loop service s.m_fd 1024 cqes in
    (w, if has_thrown discarded && has_thrown w.end then finish service shut answers s else none)

-- Copies of the same bytes, one after another.
abbrev pub copies : ℕ → List ℕ → List ℕ
copies zero bytes = []
copies (suc n) bytes = bytes ++ copies n bytes

module _ (service : ℕ) (fd : ℤ) where
  send_whole :
      (buf : List ℕ) (cqes : List Cqe)
      → SendAnswers service fd (length buf) cqes
      → let (sent, result) = await_send service fd (length buf) cqes buf in
        (left : List ℕ) × (sent ++ left ≡ buf) × ((n : ℕ) → result ≡ counted n → left ≡ [])
  send_whole buf cqes ok =
      subst
        (λ b.
          (left : List ℕ) × ((await_send service fd (length buf) cqes b).0 ++ left ≡ buf)
          × ((n : ℕ) → (await_send service fd (length buf) cqes b).1 ≡ counted n → left ≡ []))
        (append-nil buf) (await_send-bytes service fd buf [] cqes ok)

  write_step :
      (buf : List ℕ) (cqes : List Cqe) (rounds : List (List Cqe))
      → let rest = write_loop service fd buf rounds in
        let (sent, result) = await_send service fd (length buf) cqes buf in
        write_loop service fd buf (cqes ∷ rounds) ≡ elim result [
          | pending ↦ record { sent = sent; end = in_send }
          | threw ↦ record { sent = sent; end = send_threw }
          | counted sent_bytes ↦ record rest { sent = sent ++ rest.sent }
        ]
  unfolding write_loop
  write_step buf cqes rounds = refl

  write_loop-copies :
      (buf : List ℕ) (rounds : List (List Cqe))
      → All (SendAnswers service fd (length buf)) rounds
      → (left : List ℕ) × ((write_loop service fd buf rounds).sent ++ left
          ≡ copies (length rounds) buf)
  write_loop-copies buf [] ok = unfold write_loop in ([], refl)
  write_loop-copies buf (cqes ∷ rounds) ok =
      let (left, split, all_sent) = send_whole buf cqes ok.0 in
      let next = copies (length rounds) buf in
      let (sent, result) = await_send service fd (length buf) cqes buf in
      let part : (sent ++ (left ++ next)) ≡ buf ++ next =
        sym (append_assoc sent left next) ∙ ap (λ l. l ++ next) split in
      elim (Awaited-cases result) [
        | inl e ↦ rw (write_step buf cqes rounds) (rw e (left ++ next, part))
        | inr (inl e) ↦ rw (write_step buf cqes rounds) (rw e (left ++ next, part))
        | inr (inr (n, e)) ↦
            let (later, owed) = write_loop-copies buf rounds ok.1 in
            let rest = write_loop service fd buf rounds in
            rw (write_step buf cqes rounds) (
              rw e (
                later,
                sym (owes_more buf sent next rest.sent left later split (all_sent n e) (sym owed)),
              ))
      ]

  -- What `chargen` writes, whatever the kernel answers, is a first part of so many copies of its
  -- line as it has begun to send, and the line has the printable characters in order and a newline.
  writer-copies :
      (rounds : List (List Cqe))
      → All (SendAnswers service fd 95) rounds
      → (left : List ℕ) × ((writer service fd rounds).sent ++ left
          ≡ copies (length rounds) (iota 33 94 ++ (10 ∷ [])))
  unfolding writer chargen_buffer
  writer-copies rounds ok = write_loop-copies chargen_buffer rounds ok
