-- ===== src/Submission/Entries.antt =====
-- The entries that calls of `submit` leave in the submission queue, and the room for them.
use xynet.Prelude.{◌+◌, ◌≤◌, ◌<◌, ◌≡◌, arith, ◌∙◌, ap, sym}
use xynet.Prelude.{if◌then◌else◌, Bool-cases, inl, inr, ltb}
use xynet.Prelude.{List, [], ◌∷◌, ◌++◌, length, length-append, Option, none, some}
use mathlib.Core.List.{append-nil, append_assoc}
use mathlib.Core.Path.{subst}
use xynet.Timeout.{Timespec}
use xynet.Submission.{
  Sqe, SubmissionRing, started, linked, link_timeout_sqe, prep_timeout, prep_poll_add, Call, submit,
  submit_eventfd_poll, submit_timeout, try_start, try_submit_io, try_submit_io_timeout, submit_call,
  submit_calls,
}

-- The entries of a call: with a prep_timeout, the operation is linked to the timeout behind it.
abbrev pub entries_of : Call → List Sqe
entries_of (submit policy ts op) =
    if policy.enable_timeout
    then linked (try_start op) ∷ link_timeout_sqe ts ∷ []
    else try_start op ∷ []
entries_of (submit_eventfd_poll eventfd user_data) = started user_data (prep_poll_add eventfd) ∷ []
entries_of (submit_timeout op ts) = started op (prep_timeout ts) ∷ []

abbrev pub all_entries : List Call → List Sqe
all_entries [] = []
all_entries (call ∷ calls) = entries_of call ++ all_entries calls

module _ {R : Type 0} (ring : SubmissionRing R) where
  -- A result that has put entries behind those that were there, where they fit, and is a null
  -- pointer where they do not.
  abbrev pub Submitted : List Sqe → R → Option R → Type 0
  Submitted new r none = ring.entries < length (ring.sqes r) + length new
  Submitted new r (some r') =
      (length (ring.sqes r) + length new ≤ ring.entries) × (ring.sqes r' ≡ ring.sqes r ++ new)

  fill-Submitted :
      (sqe : Sqe) (r : R)
      → length (ring.sqes r) ≤ ring.entries
      → Submitted (sqe ∷ []) r (ring.fill sqe r)
  fill-Submitted sqe r fits = elim (Bool-cases (ltb (length (ring.sqes r)) ring.entries)) [
    | inl room ↦
        let (next, filled, grown) = ring.fill_room sqe r (ground (arith, room)) in
        subst (Submitted (sqe ∷ []) r) (sym filled) (ground (arith, room), grown)
    | inr full ↦
        subst (Submitted (sqe ∷ []) r) (sym (ring.fill_full sqe r (ground (arith, full))))
          (ground (arith, full))
  ]

  -- One call after another.
  again-Submitted :
      (xs ys : List Sqe) (r r' : R) (result : Option R)
      → Submitted xs r (some r')
      → Submitted ys r' result
      → Submitted (xs ++ ys) r result
  again-Submitted xs ys r r' none (fits, grown) full =
      omega (arith, length-append xs ys, length-append (ring.sqes r) xs, ap length grown)
  again-Submitted xs ys r r' (some r'') (fits, grown) (fits', grown') = (
    omega (arith, length-append xs ys, length-append (ring.sqes r) xs, ap length grown),
    grown' ∙ ap (λ l. l ++ ys) grown ∙ append_assoc (ring.sqes r) xs ys,
  )

  full-Submitted : (xs ys : List Sqe) (r : R) → Submitted xs r none → Submitted (xs ++ ys) r none
  full-Submitted xs ys r full = omega (arith, length-append xs ys, full)

  within :
      (xs : List Sqe) (r r' : R) → Submitted xs r (some r') → length (ring.sqes r') ≤ ring.entries
  within xs r r' (fits, grown) = omega (arith, length-append (ring.sqes r) xs, ap length grown)

  -- What follows a first result, where it is no null pointer.
  then-Submitted :
      (xs ys : List Sqe) (r : R) (first : Option R) (next : R → Option R)
      → Submitted xs r first
      → ((r' : R) → length (ring.sqes r') ≤ ring.entries → Submitted ys r' (next r'))
      → Submitted (xs ++ ys) r (elim first [ none ↦ none | some r' ↦ next r' ])
  then-Submitted xs ys r none next first rest = full-Submitted xs ys r first
  then-Submitted xs ys r (some r') next first rest =
      again-Submitted xs ys r r' (next r') first (rest r' (within xs r r' first))

  timeout-Submitted :
      (sqe : Sqe) (ts : Timespec) (r : R)
      → length (ring.sqes r) ≤ ring.entries
      → Submitted (linked sqe ∷ link_timeout_sqe ts ∷ []) r (try_submit_io_timeout ring sqe ts r)
  unfolding try_submit_io_timeout
  timeout-Submitted sqe ts r fits =
      then-Submitted (linked sqe ∷ []) (link_timeout_sqe ts ∷ []) r (ring.fill (linked sqe) r)
        (λ r'. ring.fill (link_timeout_sqe ts) r') (fill-Submitted (linked sqe) r fits)
        (λ r' h. fill-Submitted (link_timeout_sqe ts) r' h)

  submit_call-Submitted :
      (call : Call) (r : R)
      → length (ring.sqes r) ≤ ring.entries
      → Submitted (entries_of call) r (submit_call ring call r)
  unfolding submit_call try_submit_io
  submit_call-Submitted (submit policy ts op) r fits = elim (Bool-cases (policy.enable_timeout)) [
    | inl e ↦ rw e (timeout-Submitted (try_start op) ts r fits)
    | inr e ↦ rw e (fill-Submitted (try_start op) r fits)
  ]
  submit_call-Submitted (submit_eventfd_poll eventfd user_data) r fits = fill-Submitted _ r fits
  submit_call-Submitted (submit_timeout op ts) r fits = fill-Submitted _ r fits

  -- From a queue with at most as many entries as it may have, calls that submit put their entries
  -- into the queue, in order, each operation with a timeout directly before its link timeout,
  -- exactly when there is room for all of them; where there is not, the code writes through a null
  -- pointer.
  pub submit_calls-Submitted :
      (calls : List Call) (r : R)
      → length (ring.sqes r) ≤ ring.entries
      → Submitted (all_entries calls) r (submit_calls ring calls r)
  unfolding submit_calls
  submit_calls-Submitted [] r fits = (omega arith, sym (append-nil (ring.sqes r)))
  submit_calls-Submitted (call ∷ calls) r fits =
      then-Submitted (entries_of call) (all_entries calls) r (submit_call ring call r)
        (submit_calls ring calls) (submit_call-Submitted call r fits) (submit_calls-Submitted calls)
