-- ===== src/IoService/Run.antt =====
-- `run` with its stop token, a whole turn at a time: what comes while the loop waits, and then the
-- three calls with nothing between them.
use xynet.Prelude.{
  ℕ, ◌≡◌, refl, ◌∙◌, ap, sym, Bool, true, false, ◌||◌, if◌then◌else◌, List, [], ◌∷◌, ◌++◌, Option,
  some, Bool-cases, inl, inr, arith,
}
use mathlib.Core.List.{append-nil, append_assoc}
use mathlib.Core.Path.{subst}
use xynet.IoService.{EventFd, Completion, Loop, polling, waiting, advance, advance_from}
use xynet.IoService.Steps.{complete, push}
use xynet.IoService.Account.{completed}
use xynet.IoService.Round.{queued, round_steps, steps, steps-Emptied, advance_at}

-- What comes in while the loop waits: a completion, or an operation of another thread.
pub data Arrival : Type 0 where
  completes : Completion → Arrival
  schedules : ℕ → Arrival

-- A turn of the loop: what its token says at the head of it, and what comes in.
pub record Turn : Type 0 where
  pub stop_requested : Bool
  pub arrivals : List Arrival

abbrev completions : List Arrival → List Completion
completions [] = []
completions (completes c ∷ more) = c ∷ completions more
completions (schedules op ∷ more) = completions more

abbrev pub scheduled : List Arrival → List ℕ
scheduled [] = []
scheduled (completes c ∷ more) = scheduled more
scheduled (schedules op ∷ more) = op ∷ scheduled more

-- The operations of the turns before the first whose token asks for a stop: in each turn those of
-- the completions, and then those of other threads.
abbrev pub work : List Turn → List ℕ
work [] = []
work (turn ∷ turns) =
    let later = work turns in
    if turn.stop_requested
    then []
    else (completed (completions turn.arrivals) ++ scheduled turn.arrivals) ++ later

abbrev pub is_stopped : List Turn → Bool
is_stopped [] = false
is_stopped (turn ∷ turns) = turn.stop_requested || is_stopped turns

module _ {C : Type 0} where
  abbrev arrive : Arrival → Loop C → Loop C
  arrive (completes c) l = complete c l
  arrive (schedules op) l = push op l

  abbrev pub arrive_all : List Arrival → Loop C → Loop C
  arrive_all [] l = l
  arrive_all (a ∷ more) l = arrive_all more (arrive a l)

  -- What the arrivals have added.
  abbrev Arrived : List Arrival → Loop C → Loop C → Type 0
  Arrived more l l' =
      (l'.cq ≡ l.cq ++ completions more)
      × (l'.service.m_remote_queue ≡ l.service.m_remote_queue ++ scheduled more)
      × (l'.service.m_local_queue ≡ l.service.m_local_queue)
      × (l'.cq_operation_bases ≡ l.cq_operation_bases)
      × (l'.executed ≡ l.executed)
      × (l'.phase ≡ l.phase)

  arrive_all-Arrived : (more : List Arrival) (l : Loop C) → Arrived more l (arrive_all more l)
  arrive_all-Arrived [] l =
      (sym (append-nil l.cq), sym (append-nil l.service.m_remote_queue), refl, refl, refl, refl)
  arrive_all-Arrived (completes c ∷ more) l =
      let (cq, remote, local, bases, ran, phase) = arrive_all-Arrived more (complete c l) in
      (cq ∙ append_assoc l.cq (c ∷ []) (completions more), remote, local, bases, ran, phase)
  arrive_all-Arrived (schedules op ∷ more) l =
      let (cq, remote, local, bases, ran, phase) = arrive_all-Arrived more (push op l) in
      (
        cq,
        remote ∙ append_assoc l.service.m_remote_queue (op ∷ []) (scheduled more),
        local,
        bases,
        ran,
        phase,
      )

  -- A loop at its head that holds nothing.
  pub record IsQuiet (l : Loop C) : Type 0 where
    pub at_head : l.phase ≡ polling
    pub no_local : l.service.m_local_queue ≡ []
    pub no_remote : l.service.m_remote_queue ≡ []
    pub no_completion : l.cq ≡ []
    pub no_base : l.cq_operation_bases ≡ []

module _ {C : Type 0} (fd : EventFd C) where
  unfoldable pub turn_of : List Arrival → Loop C → Loop C
  turn_of more l = let l' = arrive_all more (advance fd [] l) in steps fd (round_steps l') l'

  -- The loop of `run`, and whether it has ended.
  unfoldable pub run_loop : List Turn → Loop C → Loop C × Bool
  run_loop [] l = (l, false)
  run_loop (turn ∷ turns) l =
      let rest = run_loop turns (turn_of turn.arrivals l) in
      if turn.stop_requested then (l, true) else rest

  -- `run` of the service `this`, with `thread_io_service` before and after it; the guard of the scope
  -- sets it back at the end.
  pub run : ℕ → List Turn → Option ℕ → Loop C → Loop C × Option ℕ
  run this turns thread_io_service l =
      let (l', ended) = run_loop turns l in (l', if ended then thread_io_service else some this)

  -- The head of a turn holds what the loop held.
  abbrev Same : Loop C → Loop C → Type 0
  Same l l' =
      (l'.cq ≡ l.cq)
      × (l'.service.m_remote_queue ≡ l.service.m_remote_queue)
      × (l'.service.m_local_queue ≡ l.service.m_local_queue)
      × (l'.cq_operation_bases ≡ l.cq_operation_bases)
      × (l'.executed ≡ l.executed)
      × (l'.phase ≡ waiting)

  at_polling : (l : Loop C) → Same l (advance_from fd polling [] l)
  unfolding advance_from
  at_polling l = ground arith

  polls-Same : (l : Loop C) → l.phase ≡ polling → Same l (advance fd [] l)
  polls-Same l e = subst (Same l) (sym (advance_at fd polling l e)) (at_polling l)

  -- What a turn runs.
  pub turn_of-IsQuiet :
      (arrivals : List Arrival) (l : Loop C)
      → IsQuiet l
      → ((turn_of arrivals l).executed
          ≡ l.executed ++ (completed (completions arrivals) ++ scheduled arrivals))
        × IsQuiet (turn_of arrivals l)
  unfolding turn_of
  turn_of-IsQuiet arrivals l quiet =
      let l0 = advance fd [] l in
      let (cq0, remote0, local0, bases0, ran0, waits0) = polls-Same l quiet.at_head in
      let (cq1, remote1, local1, bases1, ran1, phase1) = arrive_all-Arrived arrivals l0 in
      let l1 = arrive_all arrivals l0 in
      let (ran2, local2, remote2, cq2, phase2, bases2) = steps-Emptied fd l1 (phase1 ∙ waits0) in
      let held : queued l1 ≡ completed (completions arrivals) ++ scheduled arrivals = λ i.
        ((local1 ∙ local0 ∙ quiet.no_local) i
          ++ ((bases1 ∙ bases0 ∙ quiet.no_base) i
              ++ completed
                  ((cq1 ∙ ap (λ cs. cs ++ completions arrivals) (cq0 ∙ quiet.no_completion)) i)))
        ++ (remote1 ∙ ap (λ ops. ops ++ scheduled arrivals) (remote0 ∙ quiet.no_remote)) i in
      (
        ran2 ∙ (λ i. (ran1 ∙ ran0) i ++ held i),
        record {
          at_head = phase2;
          no_local = local2;
          no_remote = remote2;
          no_completion = cq2;
          no_base = bases2;
        },
      )

  run_turn :
      (turn : Turn) (turns : List Turn) (l : Loop C)
      → turn.stop_requested ≡ false
      → run_loop (turn ∷ turns) l ≡ run_loop turns (turn_of turn.arrivals l)
  unfolding run_loop
  run_turn turn turns l e = rw e refl

  -- A loop that starts with nothing to do, where nothing comes in but while it waits and no callback
  -- schedules anything: `run` ends at the first turn whose token asks for a stop, and not before,
  -- has run by then all that came in, in order, and holds nothing; at its end the thread has the
  -- service that it had before, and until then this one.
  pub run-executed :
      (this : ℕ) (thread_io_service : Option ℕ) (turns : List Turn) (l : Loop C)
      → IsQuiet l
      → let (l', after) = run this turns thread_io_service l in
        (l'.executed ≡ l.executed ++ work turns)
        × IsQuiet l'
        × (after ≡ (if is_stopped turns then thread_io_service else some this))
  unfolding run
  run-executed this thread_io_service [] l quiet =
      unfold run_loop in (sym (append-nil l.executed), quiet, refl)
  run-executed this thread_io_service (turn ∷ turns) l quiet =
      elim (Bool-cases turn.stop_requested) [
        | inl e ↦ unfold run_loop in rw e (sym (append-nil l.executed), quiet, refl)
        | inr e ↦
            let (ran, quiet') = turn_of-IsQuiet turn.arrivals l quiet in
            let (ran_all, quiet_all, after) =
              run-executed this thread_io_service turns (turn_of turn.arrivals l) quiet' in
            rw (run_turn turn turns l e) (
              rw e (
                ran_all
                    ∙ ap (λ ops. ops ++ work turns) ran
                    ∙ append_assoc l.executed _ (work turns),
                quiet_all,
                after,
              ))
      ]
