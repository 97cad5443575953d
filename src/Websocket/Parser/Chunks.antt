-- ===== src/Websocket/Parser/Chunks.antt =====
-- Input that arrives in pieces.
use xynet.Prelude.{ℕ, suc, ◌+◌, ◌^◌, ◌≤◌, ◌<◌, ◌≡◌, refl, arith, ◌∙◌, ap, sym, ◌==◌, ◌⊎◌, inl, inr}
use xynet.Prelude.{if◌then◌else◌, List, [], ◌∷◌, ◌++◌, length, length-append, Option, none, some}
use mathlib.Core.List.{append-nil}
use mathlib.Core.Option.{some-injective}
use xynet.Websocket.Parser.Scan.{scan, scan_at, feed_at, feed-IsOpen, IsOpen}
use xynet.Websocket.Parser.{WebsocketFrameHeaderParser, ParserState, Outcome, resume, reset, parse}
use xynet.Websocket.Parser.{s_start, s_head, s_length, s_mask, s_finished, npos, report, new_parser}
use xynet.Websocket.Parser.Machine.{parse-scan}
use xynet.Websocket.Parser.RoundTrip.{scan-layout, parsed}
use xynet.Websocket.Header.Layout.{layout}

-- What more input does to an outcome.
abbrev and_then : Outcome → List ℕ → Outcome
and_then (s, none) ys = scan s ys
and_then (s, some rest) ys = (s, some (rest ++ ys))

-- Where a header ended, fewer bytes are left than the input has.
abbrev IsWithin : ℕ → Option (List ℕ) → Type 0
IsWithin n none = Unit {0}
IsWithin n (some rest) = length rest < n

IsWithin-suc : (n : ℕ) (o : Option (List ℕ)) → IsWithin n o → IsWithin (suc n) o
IsWithin-suc n none h = tt
IsWithin-suc n (some rest) h = omega arith

resume-append :
    (t : WebsocketFrameHeaderParser) (xs ys : List ℕ)
    → scan t (xs ++ ys) ≡ and_then (scan t xs) ys
    → resume (t, some (xs ++ ys)) (λ t'. scan t' (xs ++ ys)) t
      ≡ and_then (resume (t, some xs) (λ t'. scan t' xs) t) ys
resume-append t xs ys ih = ground arith

scan_at-append :
    (st : ParserState) (s : WebsocketFrameHeaderParser) (x : ℕ) (xs ys : List ℕ)
    → ((t : WebsocketFrameHeaderParser) → scan t (xs ++ ys) ≡ and_then (scan t xs) ys)
    → scan_at (λ t. scan t (xs ++ ys)) st s x (xs ++ ys)
      ≡ and_then (scan_at (λ t. scan t xs) st s x xs) ys
scan_at-append s_finished s x xs ys ih = ih s
scan_at-append s_start s x xs ys ih = resume-append (feed_at s_start s x) xs ys (ih _)
scan_at-append s_head s x xs ys ih = resume-append (feed_at s_head s x) xs ys (ih _)
scan_at-append s_length s x xs ys ih = resume-append (feed_at s_length s x) xs ys (ih _)
scan_at-append s_mask s x xs ys ih = resume-append (feed_at s_mask s x) xs ys (ih _)

scan-append :
    (s : WebsocketFrameHeaderParser) (xs ys : List ℕ) → scan s (xs ++ ys) ≡ and_then (scan s xs) ys
unfolding scan
scan-append s [] ys = refl
scan-append s (x ∷ xs) ys = scan_at-append s.m_state s x xs ys (λ t. scan-append t xs ys)

resume_cases :
    (t : WebsocketFrameHeaderParser) (xs : List ℕ)
    → let r = resume (t, some xs) (λ t'. scan t' xs) t in (r ≡ (t, some xs)) ⊎ (r ≡ scan t xs)
resume_cases t xs = ground arith

-- An outcome is open, and the bytes that are left are among those that were given.
abbrev IsSound : ℕ → Outcome → Type 0
IsSound n r = IsOpen r.0 × IsWithin n r.1

resume-IsSound :
    (t : WebsocketFrameHeaderParser) (xs : List ℕ)
    → IsOpen t
    → IsSound (length xs) (scan t xs)
    → IsSound (suc (length xs)) (resume (t, some xs) (λ t'. scan t' xs) t)
resume-IsSound t xs h ih = elim (resume_cases t xs) [
  | inl e ↦ rw e (h, omega arith)
  | inr e ↦ rw e (ih.0, IsWithin-suc (length xs) (scan t xs).1 ih.1)
]

scan_at-IsSound :
    (st : ParserState) (s : WebsocketFrameHeaderParser) (x : ℕ) (xs : List ℕ)
    → ((t : WebsocketFrameHeaderParser) → IsOpen t → IsSound (length xs) (scan t xs))
    → IsOpen s
    → IsOpen (feed_at st s x)
    → IsSound (suc (length xs)) (scan_at (λ t. scan t xs) st s x xs)
scan_at-IsSound s_finished s x xs ih h k =
    ((ih s h).0, IsWithin-suc (length xs) (scan s xs).1 (ih s h).1)
scan_at-IsSound s_start s x xs ih h k = resume-IsSound (feed_at s_start s x) xs k (ih _ k)
scan_at-IsSound s_head s x xs ih h k = resume-IsSound (feed_at s_head s x) xs k (ih _ k)
scan_at-IsSound s_length s x xs ih h k = resume-IsSound (feed_at s_length s x) xs k (ih _ k)
scan_at-IsSound s_mask s x xs ih h k = resume-IsSound (feed_at s_mask s x) xs k (ih _ k)

scan-IsSound :
    (s : WebsocketFrameHeaderParser) (xs : List ℕ) → IsOpen s → IsSound (length xs) (scan s xs)
unfolding scan
scan-IsSound s [] h = (h, tt)
scan-IsSound s (x ∷ xs) h =
    scan_at-IsSound s.m_state s x xs (λ t. scan-IsSound t xs) h (feed-IsOpen s x h)

-- The returned number is `npos` or counts some bytes of the input.
abbrev pub IsCount : ℕ → ℕ → Type 0
IsCount n count = (count ≡ npos) ⊎ ((0 < count) × (count ≤ n))

report-IsSound :
    (bytes : List ℕ) (r : Outcome)
    → IsSound (length bytes) r
    → IsOpen (report bytes r).0 × IsCount (length bytes) (report bytes r).1
report-IsSound bytes (s, none) (h, _) = (h, inl refl)
report-IsSound bytes (s, some rest) (h, k) = (h, inr (omega arith, omega arith))

-- From an open parser `parse` ends, whatever the input, and the parser that it leaves is open; it
-- returns `npos` or a number of bytes of the input, at least one.
pub parse-IsOpen :
    (s : WebsocketFrameHeaderParser) (bytes : List ℕ)
    → IsOpen s
    → (r : WebsocketFrameHeaderParser × ℕ) × (parse s bytes ≡ some r)
      × IsOpen r.0
      × IsCount (length bytes) r.1
parse-IsOpen s bytes h =
    let (open_after, counted) = report-IsSound bytes (scan s bytes) (scan-IsSound s bytes h) in
    (report bytes (scan s bytes), parse-scan s bytes h, open_after, counted)

-- A count that comes `k` bytes into the input.
abbrev pub later : ℕ → WebsocketFrameHeaderParser × ℕ → WebsocketFrameHeaderParser × ℕ
later k (s, count) = (s, if count == npos then npos else k + count)

unfinished :
    (xs : List ℕ) (r : Outcome) (t : WebsocketFrameHeaderParser)
    → length xs < npos
    → report xs r ≡ (t, npos)
    → r ≡ (t, none)
unfinished xs (s, none) t h e = ground arith
unfinished xs (s, some rest) t h e = absurd (omega (arith, ap (λ p. p.1) e))

report-later :
    (xs ys : List ℕ) (r : Outcome)
    → length xs + length ys < npos
    → IsSound (length ys) r
    → report (xs ++ ys) r ≡ later (length xs) (report ys r)
report-later xs ys (s, none) h k = refl
report-later xs ys (s, some rest) h k = ground (arith, length-append xs ys)

-- Input in two pieces: where an open parser finds no end in the first, it reads the second as it
-- would have read the rest of the whole, with the count from the start of the second.
parse-append :
    (s t : WebsocketFrameHeaderParser) (xs ys : List ℕ)
    → IsOpen s
    → length xs + length ys < npos
    → parse s xs ≡ some (t, npos)
    → (r : WebsocketFrameHeaderParser × ℕ) × (parse t ys ≡ some r)
      × (parse s (xs ++ ys) ≡ some (later (length xs) r))
parse-append s t xs ys h short e =
    let ended : scan s xs ≡ (t, none) =
      unfinished xs (scan s xs) t (omega arith)
        (some-injective _ _ (sym (parse-scan s xs h) ∙ e)) in
    let open_t : IsOpen t = rw (← ap (λ (r : Outcome). r.0) ended) (scan-IsSound s xs h).0 in
    (
      report ys (scan t ys),
      parse-scan t ys open_t,
      parse-scan s (xs ++ ys) h
          ∙ ap (λ r. some (report (xs ++ ys) r))
              (scan-append s xs ys ∙ ap (λ r. and_then r ys) ended)
          ∙ ap some (report-later xs ys (scan t ys) short (scan-IsSound t ys open_t)),
    )

-- The first piece of a header leaves no outcome but an open parser.
prefix-unfinished :
    (xs ys : List ℕ) (y : ℕ) (r : Outcome) (done : WebsocketFrameHeaderParser)
    → and_then r (y ∷ ys) ≡ (done, some [])
    → r ≡ (r.0, none)
prefix-unfinished xs ys y (s, none) done e = refl
prefix-unfinished xs ys y (s, some []) done e = absurd (cc e)
prefix-unfinished xs ys y (s, some (z ∷ zs)) done e = absurd (cc e)

-- A header may arrive in two pieces, cut anywhere before its end: the first leaves a reset parser
-- unfinished with `npos`; the second, whatever bytes follow it, finishes it with what the whole
-- header says, and the count of the bytes of the second piece that belong to the header.
pub parse-split :
    (s : WebsocketFrameHeaderParser) (flags k0 k1 k2 k3 n : ℕ) (xs ys payload : List ℕ) (y : ℕ)
    → flags < 256
    → n < 2 ^ 64
    → let key = k0 ∷ k1 ∷ k2 ∷ k3 ∷ [] in
      layout flags key n ≡ xs ++ (y ∷ ys)
      → (t : WebsocketFrameHeaderParser) × (parse (reset s) xs ≡ some (t, npos))
        × (parse t ((y ∷ ys) ++ payload) ≡ some (parsed flags key n, length (y ∷ ys)))
unfolding reset
parse-split s flags k0 k1 k2 k3 n xs ys payload y hf hn e =
    let key : List ℕ = k0 ∷ k1 ∷ k2 ∷ k3 ∷ [] in
    let whole : and_then (scan new_parser xs) (y ∷ ys) ≡ (parsed flags key n, some []) =
      sym (scan-append new_parser xs (y ∷ ys))
      ∙ ap (λ l. scan new_parser l) (sym e ∙ sym (append-nil (layout flags key n)))
      ∙ scan-layout flags n k0 k1 k2 k3 [] hf hn in
    let t = (scan new_parser xs).0 in
    let ended : scan new_parser xs ≡ (t, none) =
      prefix-unfinished xs ys y (scan new_parser xs) (parsed flags key n) whole in
    let open_t : IsOpen t = (scan-IsSound new_parser xs tt).0 in
    let rest : scan t ((y ∷ ys) ++ payload) ≡ (parsed flags key n, some payload) =
      scan-append t (y ∷ ys) payload
      ∙ ap (λ r. and_then r payload) (sym (ap (λ r. and_then r (y ∷ ys)) ended) ∙ whole) in
    (
      t,
      parse-scan new_parser xs tt ∙ ap (λ r. some (report xs r)) ended,
      parse-scan t _ open_t
          ∙ ap (λ r. some (report ((y ∷ ys) ++ payload) r)) rest
          ∙ ap (λ (m : ℕ). some (parsed flags key n, m)) (omega (arith, length-append ys payload)),
    )
