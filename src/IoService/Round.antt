-- ===== src/IoService/Round.antt =====
-- One round of the event loop, from the wait to the next poll, in which no other thread comes in
-- and no callback schedules anything.
use xynet.Prelude.{ℕ, zero, suc, ◌+◌, ◌≡◌, refl, sym, ap, ◌∙◌, arith, List, [], ◌∷◌, ◌++◌, length}
use mathlib.Core.List.{append-nil, append_assoc}
use mathlib.Core.Path.{subst}
use xynet.IoService.{EventFd, Completion, eventfd_poll, link_timeout, io, Loop, Phase}
use xynet.IoService.{
  polling, waiting, collecting, taking, starting, executing, advance, advance_from, collect,
  execute, take_remote, start_pending, IoService,
}
use xynet.IoService.Account.{completed}

module _ {C : Type 0} where
  -- The operations that the loop holds, in the order in which a round runs them.
  abbrev pub queued : Loop C → List ℕ
  queued l =
      (l.service.m_local_queue ++ (l.cq_operation_bases ++ completed l.cq))
      ++ l.service.m_remote_queue

  -- Nothing is left, and the loop is about to poll.
  abbrev pub Emptied : Loop C → Loop C → Type 0
  Emptied l l' =
      (l'.executed ≡ l.executed ++ queued l)
      × (l'.service.m_local_queue ≡ [])
      × (l'.service.m_remote_queue ≡ [])
      × (l'.cq ≡ [])
      × (l'.phase ≡ polling)
      × (l'.cq_operation_bases ≡ [])

  -- The steps of a round.
  abbrev pub round_steps : Loop C → ℕ
  round_steps l = suc (suc (length l.cq) + suc (suc (suc (length (queued l)))))

module _ {C : Type 0} (fd : EventFd C) where
  unfoldable pub steps : ℕ → Loop C → Loop C
  steps zero l = l
  steps (suc n) l = steps n (advance fd [] l)

  steps_add : (n m : ℕ) (l : Loop C) → steps (n + m) l ≡ steps m (steps n l)
  unfolding steps
  steps_add zero m l = let e : 0 + m ≡ m = omega arith in ap (λ k. steps k l) e
  steps_add (suc n) m l =
      let e : suc n + m ≡ suc (n + m) = omega arith in
      ap (λ k. steps k l) e ∙ steps_add n m (advance fd [] l)

  pub advance_at : (p : Phase) (l : Loop C) → l.phase ≡ p → advance fd [] l ≡ advance_from fd p [] l
  unfolding advance
  advance_at p l e = ap (λ q. advance_from fd q [] l) e

  after_step :
      (P : Loop C → Type 0) (n : ℕ) (l l1 : Loop C)
      → advance fd [] l ≡ l1
      → P (steps n l1)
      → P (steps (suc n) l)
  unfolding steps
  after_step P n l l1 e p = subst (λ m. P (steps n m)) (sym e) p

  executes :
      (ops : List ℕ) (l : Loop C)
      → l.phase ≡ executing
      → l.pending_list ≡ ops
      → advance fd [] l ≡ execute fd [] ops l
  unfolding advance_from
  executes ops l e q = advance_at executing l e ∙ ap (λ ops. execute fd [] ops l) q

  collects :
      (cs : List Completion) (l : Loop C)
      → l.phase ≡ collecting
      → l.cq ≡ cs
      → advance fd [] l ≡ collect fd cs l
  unfolding advance_from
  collects cs l e q = advance_at collecting l e ∙ ap (λ cs. collect fd cs l) q

  -- What the callbacks of `ops` leave, started at `l`.
  abbrev Ran : List ℕ → Loop C → Loop C → Type 0
  Ran ops l l' =
      (l'.phase ≡ polling)
      × (l'.executed ≡ l.executed ++ ops)
      × (l'.service ≡ l.service)
      × (l'.cq ≡ l.cq)
      × (l'.cq_operation_bases ≡ l.cq_operation_bases)

  run_pending :
      (ops : List ℕ) (l : Loop C)
      → l.phase ≡ executing
      → l.pending_list ≡ ops
      → Ran ops l (steps (suc (length ops)) l)
  unfolding steps
  run_pending [] l e q =
      after_step (Ran [] l) 0 l _ (executes [] l e q)
        (refl, sym (append-nil l.executed), refl, refl, refl)
  run_pending (op ∷ ops) l e q =
      let (polls, ran, kept, same, bases) = run_pending ops (execute fd [] (op ∷ ops) l) e refl in
      after_step (Ran (op ∷ ops) l) (suc (length ops)) l _ (executes (op ∷ ops) l e q) (
        polls,
        ran ∙ append_assoc l.executed (op ∷ []) ops,
        kept
            ∙ ap (λ queue. record (l.service) { m_local_queue = queue })
                (append-nil l.service.m_local_queue),
        same,
        bases,
      )

  -- What the completions `cs` leave, collected at `l`.
  abbrev Collected : List Completion → Loop C → Loop C → Type 0
  Collected cs l l' =
      (l'.phase ≡ taking)
      × (l'.executed ≡ l.executed)
      × (l'.service.m_remote_queue ≡ l.service.m_remote_queue)
      × (l'.service.m_local_queue
          ≡ l.service.m_local_queue ++ (l.cq_operation_bases ++ completed cs))
      × (l'.cq ≡ [])
      × (l'.cq_operation_bases ≡ [])

  run_collect :
      (cs : List Completion) (l : Loop C)
      → l.phase ≡ collecting
      → l.cq ≡ cs
      → Collected cs l (steps (suc (length cs)) l)
  unfolding steps
  run_collect [] l e q = after_step (Collected [] l) 0 l _ (collects [] l e q) (
    refl,
    refl,
    refl,
    ap (λ ops. l.service.m_local_queue ++ ops) (sym (append-nil l.cq_operation_bases)),
    q,
    refl,
  )
  run_collect (eventfd_poll ∷ cs) l e q =
      after_step (Collected (eventfd_poll ∷ cs) l) (suc (length cs)) l _
        (collects (eventfd_poll ∷ cs) l e q)
        (run_collect cs (collect fd (eventfd_poll ∷ cs) l) e refl)
  run_collect (link_timeout ∷ cs) l e q =
      after_step (Collected (link_timeout ∷ cs) l) (suc (length cs)) l _
        (collects (link_timeout ∷ cs) l e q)
        (run_collect cs (collect fd (link_timeout ∷ cs) l) e refl)
  run_collect (io op cqe ∷ cs) l e q =
      let (takes, same, remote, local, none_left, none_kept) =
        run_collect cs (collect fd (io op cqe ∷ cs) l) e refl in
      after_step (Collected (io op cqe ∷ cs) l) (suc (length cs)) l _
        (collects (io op cqe ∷ cs) l e q)
        (
          takes,
          same,
          remote,
          local
              ∙ ap (λ ops. l.service.m_local_queue ++ ops)
                  (append_assoc l.cq_operation_bases (op ∷ []) (completed cs)),
          none_left,
          none_kept,
        )

  -- What is left when the callbacks of `ops` have run, where `l` is before the remote queue.
  abbrev Took : List ℕ → Loop C → Loop C → Type 0
  Took ops l l' =
      (l'.executed ≡ l.executed ++ ops)
      × (l'.service.m_local_queue ≡ [])
      × (l'.service.m_remote_queue ≡ [])
      × (l'.cq ≡ l.cq)
      × (l'.phase ≡ polling)
      × (l'.cq_operation_bases ≡ l.cq_operation_bases)

  run_taking :
      (l : Loop C) (ops : List ℕ)
      → l.phase ≡ taking
      → l.service.m_local_queue ++ l.service.m_remote_queue ≡ ops
      → Took ops l (steps (suc (suc (suc (length ops)))) l)
  unfolding advance_from
  run_taking l ops e q =
      let l1 = take_remote fd l in
      let l2 = start_pending fd l1 in
      let (polls, ran, kept, same, bases) = run_pending ops l2 refl q in
      after_step (Took ops l) (suc (suc (length ops))) l l1 (advance_at taking l e) (
        after_step (Took ops l) (suc (length ops)) l1 l2 (advance_at starting l1 refl) (
          ran,
          ap (λ (s : IoService). s.m_local_queue) kept,
          ap (λ (s : IoService). s.m_remote_queue) kept,
          same,
          polls,
          bases,
        ))

  -- From the wait on, where nothing comes between, the loop runs in so many steps all that it
  -- holds: what is in the local queue, then the completions, then the remote queue, each in order,
  -- and it comes to its next poll with its queues empty.
  pub steps-Emptied : (l : Loop C) → l.phase ≡ waiting → Emptied l (steps (round_steps l) l)
  unfolding advance_from
  steps-Emptied l e =
      let n = length l.cq in
      let l1 = record l { phase = collecting } in
      let (takes, ran, remote, local, none_left, none_kept) = run_collect l.cq l1 refl refl in
      let l2 = steps (suc n) l1 in
      let held : l2.service.m_local_queue ++ l2.service.m_remote_queue ≡ queued l =
        λ i. local i ++ remote i in
      let (ran_all, local_left, remote_left, same, polls, bases) =
        run_taking l2 (queued l) takes held in
      after_step (Emptied l) (suc n + suc (suc (suc (length (queued l))))) l l1
        (advance_at waiting l e)
        (subst (Emptied l) (sym (steps_add (suc n) _ l1)) (
          ran_all ∙ ap (λ ops. ops ++ queued l) ran,
          local_left,
          remote_left,
          same ∙ none_left,
          polls,
          bases ∙ none_kept,
        ))
