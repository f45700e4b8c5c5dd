-- ===== src/ReadyQueue/Runs.antt =====
-- schedule/ready_queue.rs against the bounded priority queue, for any sequence of calls.
use vsched.Base.{
  ℕ, zero, suc, ◌+◌, ◌-◌, ◌≤◌, ◌<◌, ◌≡◌, refl, ap, sym, ◌∙◌, ◌⊎◌, inl, inr, List, [], ◌∷◌, arith,
  List-cases, Returns, Returns-done, Returns-map,
}
use vsched.Config.{Config, IsUsable, priority_levels, levels-idle}
use vsched.ReadyQueue.{ReadyQueue, new, push_task, take_task, take_from, taken, hightest_priority}
use vsched.ReadyQueue.Entries.{
  entries_from, entries-push, waiting-entries, entries-first_ready, entries-update_below,
}
use vsched.ReadyQueue.Invariant.{IsValid, new-IsValid, push_task-IsValid, take_task-IsValid}
use vsched.ReadyQueue.Order.{hightest_priority_lem}
use vsched.ReadyQueue.Abstract.{
  Call, push, take, look, gave, shows, reply_of, InRange, entries, answer, run, spec, spec_run,
}

module _ (c : Config) (u : IsUsable c) where
  push_task-entries :
      (prio t : ℕ) (q : ReadyQueue)
      → c.highest_priority ≤ prio
      → prio ≤ c.lowest_priority
      → Returns
          (λ (r, q'). spec c (push prio t) (entries c q) ≡ (reply_of r, entries c q'))
          (push_task c prio t q)
  unfolding push_task priority_levels
  push_task-entries prio t q h k =
      let level = prio - c.highest_priority in
      ground (
        arith,
        waiting-entries (priority_levels c) 0 level q.queues,
        entries-push (priority_levels c) 0 level t q.queues,
      )

  -- `take_from` takes the first entry of its levels.
  abbrev TakesEntry : ℕ → ℕ → ReadyQueue → (ℕ × ℕ) × ReadyQueue → Type 0
  TakesEntry n level q r =
      ((i : ℕ) → i < level → r.1.queues i ≡ q.queues i)
      × (((entries_from n level q.queues ≡ []) × (r.0.0 ≡ 0) × (r.1 ≡ q))
          ⊎ ((k : ℕ) × (entries_from n level q.queues
                ≡ (k, r.0.0) ∷ entries_from n level r.1.queues)))

  taken-TakesEntry :
      (n level t : ℕ) (rest : List ℕ) (q : ReadyQueue)
      → q.queues level ≡ t ∷ rest
      → TakesEntry (suc n) level q (taken c level t rest q)
  unfolding taken entries_from
  taken-TakesEntry n level t [] q e = (
    λ i h. ground arith,
    inr (level, ground (arith, entries-update_below n (level + 1) level q.queues [])),
  )
  taken-TakesEntry n level t (x ∷ rest) q e = (
    λ i h. ground arith,
    inr (level, ground (arith, entries-update_below n (level + 1) level q.queues (x ∷ rest))),
  )

  skip-TakesEntry :
      (n level : ℕ) (q : ReadyQueue) (r : (ℕ × ℕ) × ReadyQueue)
      → q.queues level ≡ []
      → TakesEntry n (level + 1) q r
      → TakesEntry (suc n) level q r
  unfolding entries_from
  skip-TakesEntry n level q r e (below, inl (none_left, null, same)) =
      (λ i h. below i (omega arith), inl (ground arith, null, same))
  skip-TakesEntry n level q r e (below, inr (k, front)) =
      (λ i h. below i (omega arith), inr (k, ground (arith, below level)))

  take_from-TakesEntry :
      (n level : ℕ) (q : ReadyQueue) → TakesEntry n level q (take_from c n level q)
  unfolding take_from
  take_from-TakesEntry zero level q = (λ i h. refl, inl (unfold entries_from in refl, refl, refl))
  take_from-TakesEntry (suc n) level q = elim (List-cases (q.queues level)) [
    | inl e ↦
        rw (e, take_from)
          (skip-TakesEntry n level q (take_from c n (level + 1) q) e
            (take_from-TakesEntry n (level + 1) q))
    | inr (t, rest, e) ↦ rw (e, take_from) (taken-TakesEntry n level t rest q e)
  ]

  take_task-entries :
      (q : ReadyQueue)
      → let ((t, prio), q') = take_task c q in spec c take (entries c q) ≡ (gave t, entries c q')
  unfolding take_task
  take_task-entries q = ground (arith, (take_from-TakesEntry (priority_levels c) 0 q).1)

  hightest_priority-entries :
      (q : ReadyQueue)
      → IsValid c q
      → spec c look (entries c q) ≡ (shows (hightest_priority c q), entries c q)
  hightest_priority-entries q v = ground (
    arith,
    entries-first_ready (priority_levels c) 0 q.queues,
    hightest_priority_lem c u q v,
    levels-idle c u,
  )

  answer-entries :
      (x : Call) (q : ReadyQueue)
      → IsValid c q
      → InRange c (x ∷ [])
      → Returns
          (λ (r, q'). IsValid c q' × (spec c x (entries c q) ≡ (r, entries c q')))
          (answer c x q)
  answer-entries (push prio t) q v (h, k, _) =
      let ((r, q'), pushed, same) =
        Returns-done _ (push_task c prio t q) (push_task-entries prio t q h k) in
      rw pushed (push_task-IsValid c u prio t q q' r v pushed, same)
  answer-entries take q v _ = (take_task-IsValid c u q v, take_task-entries q)
  answer-entries look q v _ = (v, hightest_priority-entries q v)

  run-entries :
      (calls : List Call) (q : ReadyQueue)
      → IsValid c q
      → InRange c calls
      → Returns
          (λ (replies, q').
            IsValid c q' × (spec_run c calls (entries c q) ≡ (replies, entries c q')))
          (run c calls q)
  unfolding run spec_run
  run-entries [] q v h = (v, refl)
  run-entries (x ∷ calls) q v h =
      let ((r, q1), answered, (v1, one)) =
        Returns-done _ (answer c x q) (answer-entries x q v (first x calls h)) in
      let ((rs, q2), ran, (v2, more)) =
        Returns-done _ (run c calls q1) (run-entries calls q1 v1 (later x calls h)) in
      rw (answered, ran) (v2, ground (arith, one, more))
    where
      first : (x : Call) (calls : List Call) → InRange c (x ∷ calls) → InRange c (x ∷ [])
      first (push prio t) calls (h, k, _) = (h, k, tt)
      first take calls h = tt
      first look calls h = tt

      later : (x : Call) (calls : List Call) → InRange c (x ∷ calls) → InRange c calls
      later (push prio t) calls (_, _, h) = h
      later take calls h = h
      later look calls h = h

  no_entries : (n level : ℕ) → entries_from n level (λ _. []) ≡ []
  unfolding entries_from
  no_entries zero level = refl
  no_entries (suc n) level = no_entries n (level + 1)

  -- From a new queue on, any sequence of `push_task`, `take_task` and `hightest_priority`, with
  -- priorities in range, comes to an end with no panic, and answers what a bounded priority queue
  -- does that is one list: a push is refused exactly when its level is full and otherwise puts the
  -- task behind those of its priority; a take gives the front, null for none; the highest priority
  -- is that of the front, LOWEST_PRIORITY + 1 for none. At the end both hold the same tasks in the
  -- same order, and the bitmap agrees with the queues.
  pub run-refines :
      (calls : List Call)
      → InRange c calls
      → Returns
          (λ (replies, q). IsValid c q × (spec_run c calls [] ≡ (replies, entries c q)))
          (run c calls (new c))
  unfolding new
  run-refines calls h =
      let none_yet = no_entries (priority_levels c) 0 in
      Returns-map _ _ (run c calls (new c)) (run-entries calls (new c) (new-IsValid c u) h)
        (λ (replies, q) (v, same). (v, ap (spec_run c calls) (sym none_yet) ∙ same))
