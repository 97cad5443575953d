-- ===== src/Transfer/Recv/Filled.antt =====
-- What a receive returns.
use xynet.Prelude.{ℕ, zero, suc, ◌^◌, ◌<◌, ◌≡◌, ◌≢◌, refl, arith, ◌∙◌, ap, sym}
use xynet.Prelude.{true, false, if◌then◌else◌, List, [], ◌∷◌, ◌++◌, length}
use xynet.Prelude.Int.{ℤ, pos, negsuc, pos_part}
use xynet.Buffer.{Iovec, BufferSequence, get_iov_span}
use xynet.Buffer.Commit.{addresses, region, NonEmpty, commit_empty_entry}
use xynet.Prelude.{take_all, ◌==◌}
use mathlib.Core.List.{append-nil, append_assoc}
use xynet.Operation.{AsyncOperationBase, Cqe, Policy, is_error, set_value}
use xynet.Operation.{make_error_code, eof, system_error}
use xynet.Transfer.{AsyncMsg, async_msg, resume, returns, throws, Returned, is_zero, int_to_size}
use xynet.Transfer.Send
use xynet.Transfer.Send.{on_send_completed}
use xynet.Transfer.Rounds.{run, Answers}
use xynet.Transfer.Send.Complete.{send_complete}
use xynet.Transfer.Recv.{on_recv_completed, get_result}

-- A receive that fills its buffers takes a completion as a send does.
on_recv_completed-on_send_completed : on_recv_completed false ≡ on_send_completed
unfolding on_recv_completed on_send_completed
on_recv_completed-on_send_completed = refl

nonzero : (r : ℤ) → r ≢ pos 0 → is_zero r ≡ false
nonzero (pos zero) h = absurd (h refl)
nonzero (pos (suc n)) h = ground arith
nonzero (negsuc n) h = refl

-- With no error and a last answer other than 0, `get_result` is that of a send.
returned_op :
    (policy : Policy) (op : AsyncMsg) (n : ℕ)
    → is_error op.base.error ≡ false
    → op.base.m_res ≢ pos 0
    → Send.get_result policy op ≡ returns n
    → get_result policy op ≡ (op, returns n)
unfolding get_result Send.get_result
returned_op policy op n clear more e = ground (arith, nonzero op.base.m_res more)

-- A receive into buffers of less than 2 ^ 31 bytes that starts with a clear error code, against a
-- kernel that fills at most what it is offered: whenever the coroutine is resumed with no error
-- and the last answer was not 0, all the buffers are filled, in order, and the operation returns
-- their size under either policy, its error code still clear.
pub recv-filled :
    (policy : Policy) (base : AsyncOperationBase) (socket : ℤ) (buffers : BufferSequence)
    (cqes : List Cqe)
    → let op = async_msg base socket buffers in
      let r = run (on_recv_completed false) cqes op in
      let bytes = addresses buffers.pending in
      is_error base.error ≡ false
      → length bytes < 2 ^ 31
      → Answers (on_recv_completed false) cqes op
      → r.resumed ≡ true
      → is_error r.op.base.error ≡ false
      → r.op.base.m_res ≢ pos 0
      → (r.sent ≡ bytes) × (get_result policy r.op ≡ (r.op, returns (length bytes)))
unfolding get_result on_recv_completed on_send_completed
recv-filled policy base socket buffers cqes clear room ok done no_err more =
    let (filled, returned) =
      send_complete policy base socket buffers cqes clear room ok done no_err more in
    (
      filled,
      returned_op policy (run (on_recv_completed false) cqes (async_msg base socket buffers)).op _
          no_err more returned,
    )

-- A last answer of 0 makes the error `eof`: it is thrown, or the caller's code is set to it and
-- the count is returned.
pub get_result_eof :
    (policy : Policy) (op : AsyncMsg)
    → op.base.m_res ≡ pos 0
    → let (op', result) = get_result policy op in
      (op'.base.error ≡ make_error_code eof)
      × (result ≡ (
          if policy.enable_error_code
          then returns (int_to_size op.m_bytes_transferred)
          else throws (make_error_code eof)))
unfolding get_result make_error_code
get_result_eof policy op e = ground arith

addresses-append : (xs ys : List Iovec) → addresses (xs ++ ys) ≡ addresses xs ++ addresses ys
addresses-append [] ys = refl
addresses-append (v ∷ vs) ys =
    ap (λ l. region v.iov_base v.iov_len ++ l) (addresses-append vs ys)
    ∙ sym (append_assoc (region v.iov_base v.iov_len) (addresses vs) (addresses ys))

addresses_empty : (e : Iovec) → e.iov_len ≡ 0 → addresses (e ∷ []) ≡ []
addresses_empty e he = ap (λ (n : ℕ). region e.iov_base n ++ []) he

with_empty :
    (front : List Iovec) (e : Iovec)
    → e.iov_len ≡ 0
    → addresses (front ++ (e ∷ [])) ≡ addresses front
with_empty front e he =
    addresses-append front (e ∷ [])
    ∙ ap (λ l. addresses front ++ l) (addresses_empty e he)
    ∙ append-nil (addresses front)

abbrev pub answer : ℕ → Cqe
answer n = record { res = pos n; flags = pos 0 }

abbrev pub before_empty : List Iovec → Iovec → BufferSequence
before_empty front e = record { passed = []; pending = front ++ (e ∷ []) }

-- A receive into non-empty buffers with an empty one behind them: the kernel fills all of them at
-- once, the operation submits again, an empty buffer gets the answer 0, and the operation
-- reports `eof` though every byte was received and nothing was closed.
recv_empty_buffer :
    (policy : Policy) (base : AsyncOperationBase) (socket : ℤ) (front : List Iovec) (e : Iovec)
    → let n = length (addresses front) in
      let op = async_msg base socket (before_empty front e) in
      let r = run (on_recv_completed false) (answer n ∷ answer 0 ∷ []) op in
      is_error base.error ≡ false
      → NonEmpty front
      → 0 < n
      → e.iov_len ≡ 0
      → (r.resumed ≡ true)
        × (r.sent ≡ addresses (before_empty front e).pending)
        × ((get_result policy r.op).0.base.error ≡ make_error_code eof)
unfolding async_msg run on_recv_completed set_value get_result get_iov_span
recv_empty_buffer policy base socket front e clear h some_bytes he =
    let b : BufferSequence = before_empty front e in
    let n = length (addresses front) in
    let (left, _) = commit_empty_entry b front [] e refl h in
    ground (
      arith,
      left,
      with_empty front e he,
      take_all n (addresses front),
      append-nil (addresses front),
    )

-- What `recv_some` reports of one answer.
abbrev pub some_result : Policy → ℤ → Returned
some_result policy (pos n) =
    if policy.enable_error_code
    then returns n
    else if n == 0
    then throws (make_error_code eof)
    else returns n
some_result policy (negsuc n) =
    if policy.enable_error_code then returns 0 else throws (system_error (suc n))

-- `recv_some` resumes its coroutine after one answer, whatever it is and however much room is
-- left, and reports that answer: the count, `eof` for 0, or the error of the kernel.
recv_some_lem :
    (policy : Policy) (cqe : Cqe) (op : AsyncMsg)
    → is_error op.base.error ≡ false
    → pos_part cqe.res < 2 ^ 31
    → let (op', next) = on_recv_completed true cqe op in
      (next ≡ resume) × ((get_result policy op').1 ≡ some_result policy cqe.res)
unfolding on_recv_completed set_value get_result make_error_code
recv_some_lem policy cqe op clear small = ground arith
