-- ===== src/ReadyQueue/Order.antt =====
-- schedule/ready_queue.rs against its meaning: the ready tasks in one list, the highest priority
-- first and, in one priority, the oldest first.
use vsched.Base.{
  ℕ, zero, suc, ◌+◌, ◌-◌, ◌≤◌, ◌<◌, ◌≡◌, refl, sym, subst, ◌∙◌, ◌⊎◌, inl, inr, true, false, List,
  [], ◌∷◌, arith, ltb, leb, List-cases, Bool-cases,
}
use vsched.Config.{Config, IsUsable, priority_levels, priority_levels_bounds, levels-idle}
use vsched.Bits.{test_bit, highest_one_from-some, highest_one_from-none}
use vsched.ReadyQueue.{
  ReadyQueue, highest_one, bitmap_priority, hightest_priority, taken, take_from, take_task,
}
use vsched.ReadyQueue.Invariant.{IsValid}
use vsched.ReadyQueue.Contents.{
  first_ready, first_ready-le, first_ready_before, first_ready_at, contents_from,
  contents_from-update_below,
}

-- The ready tasks in the order in which they will be taken.
unfoldable pub contents : Config → ReadyQueue → List ℕ
contents c q = contents_from (priority_levels c) 0 q.queues

module _ (c : Config) (u : IsUsable c) (q : ReadyQueue) (v : IsValid c q) where
  ready_bit :
      (k : ℕ)
      → k ≡ first_ready (priority_levels c) 0 q.queues
      → k ≤ 63
      → test_bit q.prio_bitmap (63 - k) ≡ true
  ready_bit k e h = elim (Bool-cases (ltb k (priority_levels c))) [
    | inl lt ↦ ground (arith, v.tracked k, first_ready_at (priority_levels c) 0 q.queues)
    | inr ge ↦ ground (arith, v.sentinel k, first_ready-le (priority_levels c) 0 q.queues)
  ]

  higher_bit :
      (k : ℕ)
      → k ≡ first_ready (priority_levels c) 0 q.queues
      → (j : ℕ) → 63 < k + j
      → j ≤ 63
      → test_bit q.prio_bitmap j ≡ false
  higher_bit k e j h l =
      let same : 63 - (63 - j) ≡ j = omega arith in
      ground (
        arith,
        same,
        v.tracked (63 - j),
        first_ready_before (priority_levels c) 0 (63 - j) q.queues,
        first_ready-le (priority_levels c) 0 q.queues,
      )

  -- The priority that the bitmap gives is that of the first level with a task, and
  -- LOWEST_PRIORITY + 1 when there is none.
  pub hightest_priority_lem :
      hightest_priority c q ≡ c.highest_priority + first_ready (priority_levels c) 0 q.queues
  unfolding hightest_priority bitmap_priority highest_one
  hightest_priority_lem =
      let k = first_ready (priority_levels c) 0 q.queues in
      elim (Bool-cases (leb k 63)) [
        | inl small ↦ ground (
          arith,
          highest_one_from-some q.prio_bitmap 63 (63 - k) (omega arith)
              (ready_bit k refl (ground arith)) (λ j p q. higher_bit k refl j (omega arith) q),
        )
        | inr large ↦ ground (
          arith,
          highest_one_from-none q.prio_bitmap 63 (λ j p. higher_bit k refl j (ground arith) p),
          first_ready-le (priority_levels c) 0 q.queues,
          priority_levels_bounds c u,
        )
      ]

  -- Of the range of `n` levels from `level` on: nothing is there and nothing changes, or the front
  -- goes, with the priority of its level.
  abbrev Takes : ℕ → ℕ → (ℕ × ℕ) × ReadyQueue → Type 0
  Takes n level r =
      ((i : ℕ) → i < level → r.1.queues i ≡ q.queues i)
      × (((contents_from n level q.queues ≡ []) × (r ≡ ((0, c.highest_priority + (level + n)), q)))
          ⊎ ((contents_from n level q.queues ≡ r.0.0 ∷ contents_from n level r.1.queues)
              × (r.0.1 ≡ c.highest_priority + first_ready n level q.queues)))

  taken-Takes :
      (n level task : ℕ) (rest : List ℕ)
      → q.queues level ≡ task ∷ rest
      → first_ready (priority_levels c) 0 q.queues ≡ level
      → Takes (suc n) level (taken c level task rest q)
  unfolding taken contents_from first_ready hightest_priority
  taken-Takes n level task [] e f = (
    λ i h. ground arith,
    inr (
      ground (arith, contents_from-update_below n (level + 1) level q.queues []),
      ground (arith, hightest_priority_lem),
    ),
  )
  taken-Takes n level task (x ∷ rest) e f = (
    λ i h. ground arith,
    inr (
      ground (arith, contents_from-update_below n (level + 1) level q.queues (x ∷ rest)),
      ground arith,
    ),
  )

  skip-Takes :
      (n level : ℕ) (r : (ℕ × ℕ) × ReadyQueue)
      → q.queues level ≡ []
      → Takes n (level + 1) r
      → Takes (suc n) level r
  unfolding contents_from first_ready
  skip-Takes n level r e (below, inl (none_left, same)) =
      (λ i h. below i (omega arith), inl (ground arith, ground arith))
  skip-Takes n level r e (below, inr (front, prio)) =
      (λ i h. below i (omega arith), inr (ground (arith, below level), ground arith))

  take_from-nil :
      (n level : ℕ)
      → q.queues level ≡ []
      → take_from c (suc n) level q ≡ take_from c n (level + 1) q
  unfolding take_from
  take_from-nil n level e = rw (e, take_from)

  take_from-cons :
      (n level task : ℕ) (rest : List ℕ)
      → q.queues level ≡ task ∷ rest
      → take_from c (suc n) level q ≡ taken c level task rest q
  unfolding take_from
  take_from-cons n level task rest e = rw (e, take_from)

  first_ready-cons :
      (n level task : ℕ) (rest : List ℕ)
      → q.queues level ≡ task ∷ rest
      → first_ready (suc n) level q.queues ≡ level
  unfolding first_ready
  first_ready-cons n level task rest e = ground arith

  first_ready-nil :
      (n level : ℕ)
      → q.queues level ≡ []
      → first_ready (suc n) level q.queues ≡ first_ready n (level + 1) q.queues
  unfolding first_ready
  first_ready-nil n level e = ground arith

  take_from-Takes :
      (n level : ℕ)
      → level + n ≡ priority_levels c
      → first_ready (priority_levels c) 0 q.queues ≡ first_ready n level q.queues
      → Takes n level (take_from c n level q)
  take_from-Takes zero level h f =
      (unfold take_from in λ i l. refl, unfold take_from contents_from in inl (refl, ground arith))
  take_from-Takes (suc n) level h f = elim (List-cases (q.queues level)) [
    | inl e ↦ subst (Takes (suc n) level) (sym (take_from-nil n level e)) (
        skip-Takes n level _ e
          (take_from-Takes n (level + 1) (omega arith) (f ∙ first_ready-nil n level e)))
    | inr (task, rest, e) ↦
        subst (Takes (suc n) level) (sym (take_from-cons n level task rest e))
          (taken-Takes n level task rest e (f ∙ first_ready-cons n level task rest e))
  ]

  -- On a queue that agrees with its bitmap, `take_task` gives the first ready task, the oldest of
  -- the highest priority, and leaves the others in their order. The priority that comes with it is
  -- the highest one before the call. With no ready task it gives the null pointer and
  -- LOWEST_PRIORITY + 1, and changes nothing.
  pub take_task_lem :
      let ((task, prio), q') = take_task c q in
      ((contents c q ≡ []) × (take_task c q ≡ ((0, c.lowest_priority + 1), q)))
      ⊎ ((contents c q ≡ task ∷ contents c q') × (prio ≡ hightest_priority c q))
  unfolding take_task contents hightest_priority_lem
  take_task_lem = ground (
    arith,
    (take_from-Takes (priority_levels c) 0 (omega arith) refl).1,
    hightest_priority_lem,
    levels-idle c u,
  )
