-- ===== src/Submission/Links.antt =====
-- What the kernel makes of the entries that calls of `submit` leave: link timeouts, and the
-- completions.
use xynet.Prelude.{ℕ, ◌+◌, ◌≤◌, ◌≡◌, ◌≢◌, refl, arith, ◌∙◌, ap, sym, if◌then◌else◌}
use xynet.Prelude.{Bool, true, false, Bool-cases, inl, inr, All}
use xynet.Prelude.{List, [], ◌∷◌, ◌++◌, map, length, Option, none, some}
use mathlib.Core.List.{map-append}
use mathlib.Core.Path.{subst}
use xynet.Operation.{Cqe}
use xynet.IoService.{Completion, eventfd_poll, link_timeout, io}
use xynet.Submission.{
  Request, Sqe, started, linked, link_timeout_sqe, SubmissionRing, prep_link_timeout, prep_timeout,
  prep_poll_add, Call, submit, submit_eventfd_poll, submit_timeout, completion_of, try_start,
  submit_calls, Operation, async_accept, async_connect, async_close, async_sendmsg, async_recvmsg,
}
use xynet.Submission.Entries.{entries_of, all_entries, Submitted, submit_calls-Submitted}

-- Every linked entry has a link timeout directly behind it, and every link timeout stands behind a
-- linked entry; `after` is whether a linked entry stands just before.
abbrev pub is_link_timeout : Request → Bool
is_link_timeout (prep_link_timeout ts) = true
is_link_timeout _ = false

abbrev pub IsChained : Bool → List Sqe → Type 0
IsChained after [] = after ≡ false
IsChained after (sqe ∷ sqes) = (is_link_timeout sqe.request ≡ after) × IsChained sqe.io_link sqes

IsChained-append :
    (after : Bool) (xs ys : List Sqe)
    → IsChained after xs
    → IsChained false ys
    → IsChained after (xs ++ ys)
IsChained-append after [] ys h k = subst (λ b. IsChained b ys) (sym h) k
IsChained-append after (x ∷ xs) ys (h, rest) k = (h, IsChained-append x.io_link xs ys rest k)

abbrev pub this_of : Operation → ℕ
this_of (async_accept op s) = op
this_of (async_connect op s) = op
this_of (async_close op s) = op
this_of (async_sendmsg op s msghdr) = op
this_of (async_recvmsg op s msghdr) = op

try_start-this :
    (op : Operation)
    → ((try_start op).user_data ≡ this_of op)
      × ((try_start op).io_link ≡ false)
      × (is_link_timeout (try_start op).request ≡ false)
unfolding try_start
try_start-this (async_accept op s) = (refl, refl, refl)
try_start-this (async_connect op s) = (refl, refl, refl)
try_start-this (async_close op s) = (refl, refl, refl)
try_start-this (async_sendmsg op s msghdr) = (refl, refl, refl)
try_start-this (async_recvmsg op s msghdr) = (refl, refl, refl)

entries_of-IsChained : (call : Call) → IsChained false (entries_of call)
entries_of-IsChained (submit policy ts op) =
    let (_, unlinked, request) = try_start-this op in
    elim (Bool-cases policy.enable_timeout) [
      | inl e ↦ rw e (request, (refl, refl))
      | inr e ↦ rw e (request, unlinked)
    ]
entries_of-IsChained (submit_eventfd_poll eventfd user_data) = (refl, refl)
entries_of-IsChained (submit_timeout op ts) = (refl, refl)

all_entries-IsChained : (calls : List Call) → IsChained false (all_entries calls)
all_entries-IsChained [] = refl
all_entries-IsChained (call ∷ calls) =
    IsChained-append false (entries_of call) (all_entries calls) (entries_of-IsChained call)
      (all_entries-IsChained calls)

module _ {R : Type 0} (ring : SubmissionRing R) where
  after-IsChained :
      (calls : List Call) (r : R) (result : Option R)
      → IsChained false (ring.sqes r)
      → length (ring.sqes r) + length (all_entries calls) ≤ ring.entries
      → Submitted ring (all_entries calls) r result
      → (r' : R) × (result ≡ some r') × IsChained false (ring.sqes r')
  after-IsChained calls r none h fits full = absurd (omega arith)
  after-IsChained calls r (some r') h fits (_, grown) = (
    r',
    refl,
    subst (IsChained false) (sym grown)
        (IsChained-append false (ring.sqes r) (all_entries calls) h (all_entries-IsChained calls)),
  )

  -- Calls that find room are made without a null pointer and keep the queue chained: every linked
  -- entry has a link timeout directly behind it, and every link timeout stands directly behind a
  -- linked entry.
  pub submit_calls-IsChained :
      (calls : List Call) (r : R)
      → IsChained false (ring.sqes r)
      → length (ring.sqes r) + length (all_entries calls) ≤ ring.entries
      → (r' : R) × (submit_calls ring calls r ≡ some r') × IsChained false (ring.sqes r')
  submit_calls-IsChained calls r h fits =
      after-IsChained calls r (submit_calls ring calls r) h fits
        (submit_calls-Submitted ring calls r (omega arith))

-- The addresses of operations are neither null nor the address of the eventfd.
abbrev pub IsAddressed : ℕ → Call → Type 0
IsAddressed eventfd_user_data (submit policy ts op) =
    (this_of op ≢ 0) × (this_of op ≢ eventfd_user_data)
IsAddressed eventfd_user_data (submit_eventfd_poll eventfd user_data) =
    user_data ≡ eventfd_user_data
IsAddressed eventfd_user_data (submit_timeout op ts) = (op ≢ 0) × (op ≢ eventfd_user_data)

completion_of_eventfd : (e u : ℕ) (cqe : Cqe) → u ≡ e → completion_of e u cqe ≡ eventfd_poll
unfolding completion_of
completion_of_eventfd e u cqe p = ground arith

completion_of-zero : (e : ℕ) (cqe : Cqe) → e ≢ 0 → completion_of e 0 cqe ≡ link_timeout
unfolding completion_of
completion_of-zero e cqe p = ground arith

completion_of-io :
    (e u op : ℕ) (cqe : Cqe) → u ≡ op → op ≢ 0 → op ≢ e → completion_of e u cqe ≡ io op cqe
unfolding completion_of
completion_of-io e u op cqe same p q = ground arith

-- The operations that completions are for, each with what the kernel has answered to it.
abbrev pub delivered : List Completion → List (ℕ × Cqe)
delivered [] = []
delivered (eventfd_poll ∷ cs) = delivered cs
delivered (link_timeout ∷ cs) = delivered cs
delivered (io op cqe ∷ cs) = (op, cqe) ∷ delivered cs

delivered-append : (cs ds : List Completion) → delivered (cs ++ ds) ≡ delivered cs ++ delivered ds
delivered-append [] ds = refl
delivered-append (eventfd_poll ∷ cs) ds = delivered-append cs ds
delivered-append (link_timeout ∷ cs) ds = delivered-append cs ds
delivered-append (io op cqe ∷ cs) ds = ap (λ l. (op, cqe) ∷ l) (delivered-append cs ds)

module _ (eventfd_user_data : ℕ) (answer : Sqe → Cqe) where
  abbrev pub answers : List Sqe → List Completion
  answers sqes = map (λ sqe. completion_of eventfd_user_data sqe.user_data (answer sqe)) sqes

  -- The operation that a call is made for, with the answer to its own entry.
  abbrev pub caller : Call → List (ℕ × Cqe)
  caller (submit policy ts op) =
      let sqe = try_start op in
      (this_of op, answer (if policy.enable_timeout then linked sqe else sqe)) ∷ []
  caller (submit_eventfd_poll eventfd user_data) = []
  caller (submit_timeout op ts) = (op, answer (started op (prep_timeout ts))) ∷ []

  abbrev pub callers : List Call → List (ℕ × Cqe)
  callers [] = []
  callers (call ∷ calls) = caller call ++ callers calls

  answers-caller :
      (call : Call)
      → eventfd_user_data ≢ 0
      → IsAddressed eventfd_user_data call
      → delivered (answers (entries_of call)) ≡ caller call
  answers-caller (submit policy ts op) set (p, q) =
      let (this, _, _) = try_start-this op in
      elim (Bool-cases policy.enable_timeout) [
        | inl e ↦ rw e (λ i. delivered (
            completion_of-io eventfd_user_data _ (this_of op) (answer (linked (try_start op))) this
              p q i
            ∷ completion_of-zero eventfd_user_data (answer (link_timeout_sqe ts)) set i
            ∷ []))
        | inr e ↦ rw e (
            ap (λ c. delivered (c ∷ []))
              (completion_of-io eventfd_user_data _ (this_of op) (answer (try_start op)) this p q))
      ]
  answers-caller (submit_eventfd_poll eventfd user_data) set p =
      ap (λ c. delivered (c ∷ []))
        (completion_of_eventfd eventfd_user_data user_data
          (answer (started user_data (prep_poll_add eventfd))) p)
  answers-caller (submit_timeout op ts) set (p, q) =
      ap (λ c. delivered (c ∷ []))
        (completion_of-io eventfd_user_data op op (answer (started op (prep_timeout ts))) refl p q)

  -- Whatever the kernel answers to the entries of calls that submit, the completions that the loop
  -- makes of the answers hand each operation that submitted the result and the flags that answer
  -- its own entry, once for each call and in order, and nothing for a link timeout or the poll of
  -- the eventfd, where the address of the eventfd is not null and those of the operations are
  -- neither null nor that address.
  pub answers-callers :
      (calls : List Call)
      → eventfd_user_data ≢ 0
      → All (IsAddressed eventfd_user_data) calls
      → delivered (answers (all_entries calls)) ≡ callers calls
  answers-callers [] e h = refl
  answers-callers (call ∷ calls) e (first, rest) =
      ap delivered (map-append _ (entries_of call) (all_entries calls))
      ∙ delivered-append (answers (entries_of call)) (answers (all_entries calls))
      ∙ (λ i. answers-caller call e first i ++ answers-callers calls e rest i)
