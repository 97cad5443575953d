-- ===== src/Serving/Pingpong.antt =====
-- `session` of example/pingpong/pingpong_client.cpp. Its count of bytes is a `double`, which is exact
-- below 2 ^ 53.
pub mod Total
use xynet.Prelude.{
  ℕ, suc, ◌+◌, ◌*◌, ◌^◌, ◌<◌, ◌≡◌, ◌≢◌, ◌⊎◌, inl, inr, refl, arith, ◌∙◌, ap, sym, true, false, List,
  [], ◌∷◌, ◌++◌, length, All, Option, none, some, Bool,
}
use mathlib.Core.List.{append-nil}
use xynet.Prelude.Int.{ℤ, pos}
use xynet.Buffer.Commit.{addresses, length-region, region}
use xynet.Socket.{Socket, Answer, Outcome, returned, thrown, file_descriptor}
use xynet.Socket.Address.{SocketAddress}
use xynet.Socket.Sync.{init_throwing}
use xynet.Socket.Async.{connect_result}
use xynet.Serving.Finish.{finish, zeros}
use xynet.Operation.{Cqe, set_value, async_operation, is_error, no_error, make_error_code}
use xynet.Transfer.{AsyncMsg}
use xynet.Transfer.Rounds.{run, Answers}
use xynet.Transfer.Recv.{on_recv_completed, get_result}
use xynet.Transfer.Recv.Filled.{recv-filled}
use xynet.Serving.{Awaited, pending, threw, counted, awaited, throwing, transfer, span, await_send}

-- `co_await s.recv(buffer)` of a buffer of `n` bytes.
unfoldable pub await_recv : ℕ → ℤ → ℕ → List Cqe → Awaited
await_recv service fd n cqes =
    let r = run (on_recv_completed false) cqes (transfer service fd n) in
    awaited r.resumed (get_result throwing r.op).1

-- A turn of the loop: the answers to `send` and to `recv`, and the bytes that are received.
pub record PingTurn : Type 0 where
  pub send_cqes : List Cqe
  pub recv_cqes : List Cqe
  pub bytes : List ℕ

-- Where the loop is: at its end, where a stop was requested, in a transfer, or at an exception.
pub data PingEnd : Type 0 where
  stopped transferring failed : PingEnd

pub record Pinged : Type 0 where
  pub total_bytes_read : ℕ
  pub sent : List ℕ
  pub end : PingEnd

abbrev pub nothing_read : List ℕ → PingEnd → Pinged
nothing_read sent end = record { total_bytes_read = 0; sent = sent; end = end }

abbrev after_recv : List ℕ → Awaited → Pinged → Pinged
after_recv sent pending rest = nothing_read sent transferring
after_recv sent threw rest = nothing_read sent failed
after_recv sent (counted read_bytes) rest = record rest {
  total_bytes_read = read_bytes + rest.total_bytes_read;
  sent = sent ++ rest.sent;
}

abbrev after_send : List ℕ → Awaited → Pinged → Pinged
after_send sent pending rest = nothing_read sent transferring
after_send sent threw rest = nothing_read sent failed
after_send sent (counted send_bytes) rest = rest

-- The `while` loop over a buffer of `message_len` bytes, up to a request to stop.
unfoldable pub ping_loop : ℕ → ℤ → ℕ → List PingTurn → List ℕ → Pinged
ping_loop service fd message_len [] buf = nothing_read [] stopped
ping_loop service fd message_len (turn ∷ turns) buf =
    let rest = ping_loop service fd message_len turns turn.bytes in
    let (sent, result) = await_send service fd message_len turn.send_cqes buf in
    after_send sent result (after_recv sent (await_recv service fd message_len turn.recv_cqes) rest)

-- `init` and `connect`, with the completion of the connect.
abbrev pub connected : ℕ → Answer → Cqe → SocketAddress → Outcome Socket
connected service init_answer cqe address = elim (init_throwing init_answer file_descriptor) [
  | returned s ↦
      let base = set_value cqe.res cqe.flags (async_operation throwing (some service) no_error) in
      connect_result throwing base address s
  | thrown s error ↦ thrown s error
]

-- What has been read, and what has been closed when the session has ended.
abbrev pub after_connect :
    ℕ → ℕ → List PingTurn → Answer → List (Cqe × ℤ) → Outcome Socket → Pinged × Option (List ℤ)
after_connect service message_len turns shut answers (thrown s error) =
    (nothing_read [] failed, finish service shut answers s)
after_connect service message_len turns shut answers (returned s) =
    let p = ping_loop service s.m_fd message_len turns (zeros message_len) in
    (p, elim p.end [ transferring ↦ none | _ ↦ finish service shut answers s ])

-- A whole session.
unfoldable pub pingpong_session :
    ℕ
    → ℕ
    → Answer
    → Cqe
    → SocketAddress
    → List PingTurn
    → Answer
    → List (Cqe × ℤ)
    → Pinged × Option (List ℤ)
pingpong_session service message_len init_answer cqe address turns shut answers =
    after_connect service message_len turns shut answers (connected service init_answer cqe address)

pub returned_count :
    (op : AsyncMsg) (resumed : Bool) (n : ℕ)
    → awaited resumed (get_result throwing op).1 ≡ counted n
    → (resumed ≡ true) × (is_error op.base.error ≡ false) × (op.base.m_res ≢ pos 0)
unfolding get_result make_error_code
returned_count op true n e = ground arith
returned_count op false n e = absurd (cc e)

pub counted_is : (a b : ℕ) → counted a ≡ counted b → a ≡ b
counted_is a b e = cc

-- What a kernel may answer to a receive into `n` bytes.
abbrev pub RecvAnswers : ℕ → ℤ → ℕ → List Cqe → Type 0
RecvAnswers service fd n cqes = Answers (on_recv_completed false) cqes (transfer service fd n)

-- How a loop of `turns` turns over `n` bytes may stand after `k` whole ones.
abbrev pub Counts : ℕ → ℕ → ℕ → Pinged → Type 0
Counts n turns k p =
    (p.total_bytes_read ≡ k * n)
    × (((k ≡ turns) × (p.end ≡ stopped)) ⊎ ((k < turns) × (p.end ≢ stopped)))

module _ (service : ℕ) (fd : ℤ) (n : ℕ) (small : n < 2 ^ 31) where
  length-span : length (addresses (span n).pending) ≡ n
  length-span = ap length (append-nil (region 0 n)) ∙ length-region 0 n

  await_recv-counted :
      (k : ℕ) (cqes : List Cqe)
      → RecvAnswers service fd n cqes
      → await_recv service fd n cqes ≡ counted k
      → k ≡ n
  unfolding await_recv async_operation
  await_recv-counted k cqes ok e =
      let r = run (on_recv_completed false) cqes (transfer service fd n) in
      let (done, clear, more) = returned_count r.op r.resumed k e in
      let (_, result) =
        recv-filled throwing (async_operation throwing (some service) no_error) fd (span n) cqes
          refl (omega (arith, length-span)) ok done clear more in
      let whole : counted k ≡ counted n =
        sym e ∙ (λ i. awaited (done i) (result i).1) ∙ ap counted length-span in
      counted_is k n whole

  nothing-Counts :
      (turns : ℕ) (sent : List ℕ) (end : PingEnd)
      → end ≢ stopped
      → Counts n (suc turns) 0 (nothing_read sent end)
  nothing-Counts turns sent end more = (omega arith, inr (omega arith, more))

  another-Counts :
      (turns j k : ℕ) (sent : List ℕ) (rest : Pinged)
      → j ≡ n
      → Counts n turns k rest
      → Counts n (suc turns) (suc k) (after_recv sent (counted j) rest)
  another-Counts turns j k sent rest e (total, inl (all, ends)) =
      (grind arith, inl (omega arith, ends))
  another-Counts turns j k sent rest e (total, inr (some_left, more)) =
      (grind arith, inr (omega arith, more))

  turn-Counts :
      (turns k : ℕ) (sent : List ℕ) (rest : Pinged) (result got : Awaited)
      → ((j : ℕ) → got ≡ counted j → j ≡ n)
      → Counts n turns k rest
      → (k' : ℕ) × Counts n (suc turns) k' (after_send sent result (after_recv sent got rest))
  turn-Counts turns k sent rest pending got whole counts =
      (0, nothing-Counts turns sent transferring (λ e. cc e))
  turn-Counts turns k sent rest threw got whole counts =
      (0, nothing-Counts turns sent failed (λ e. cc e))
  turn-Counts turns k sent rest (counted m) pending whole counts =
      (0, nothing-Counts turns sent transferring (λ e. cc e))
  turn-Counts turns k sent rest (counted m) threw whole counts =
      (0, nothing-Counts turns sent failed (λ e. cc e))
  turn-Counts turns k sent rest (counted m) (counted j) whole counts =
      (suc k, another-Counts turns j k sent rest (whole j refl) counts)

  abbrev loop : List PingTurn → List ℕ → Pinged
  loop = ping_loop service fd n

  step :
      (m : ℕ) (buf : List ℕ) (turn : PingTurn) (turns : List PingTurn)
      → let (sent, result) = await_send service fd n turn.send_cqes buf in
        (k' : ℕ) × Counts n (suc m) k' (
            after_send sent result
              (after_recv sent (await_recv service fd n turn.recv_cqes) (loop turns turn.bytes)))
        → (k' : ℕ) × Counts n (suc m) k' (loop (turn ∷ turns) buf)
  unfolding ping_loop
  step m buf turn turns counts = counts

  -- A session against a kernel that fills at most what it is offered has counted `message_len`
  -- bytes for each of its whole turns, and all turns are whole where it has stopped; a turn that is
  -- cut counts nothing. The length is below 2 ^ 31.
  pub ping_loop-Counts :
      (turns : List PingTurn) (buf : List ℕ)
      → All (λ (turn : PingTurn). RecvAnswers service fd n turn.recv_cqes) turns
      → (k : ℕ) × Counts n (length turns) k (loop turns buf)
  ping_loop-Counts [] buf ok = unfold ping_loop in (0, (omega arith, inl (refl, refl)))
  ping_loop-Counts (turn ∷ turns) buf ok =
      let (k, counts) = ping_loop-Counts turns turn.bytes ok.1 in
      let (sent, result) = await_send service fd n turn.send_cqes buf in
      step (length turns) buf turn turns (
        turn-Counts (length turns) k sent (loop turns turn.bytes) result
          (await_recv service fd n turn.recv_cqes)
          (λ j e. await_recv-counted j turn.recv_cqes ok.0 e) counts)
