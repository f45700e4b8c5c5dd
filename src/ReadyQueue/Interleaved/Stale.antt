-- ===== src/ReadyQueue/Interleaved/Stale.antt =====
-- schedule/ready_queue.rs on several CPUs: a bit that is set with no task behind it. CPU 1 takes a
-- task between the `push_back` and the `fetch_or` of CPU 0, and so clears the bit first.
use vsched.Base.{
  ℕ, zero, suc, ◌+◌, ◌-◌, ◌<◌, ◌≡◌, ◌≢◌, refl, sym, subst, true, false, [], ◌∷◌, ◌++◌, arith,
  is_empty, update,
}
use vsched.Config.{Config, IsUsable, priority_levels, priority_levels_bounds}
use vsched.Bits.{
  test_bit, set_bit, clear_bit, test_bit-set_bit, test_bit-clear_bit, test_bit-zero,
  highest_one_from-some,
}
use vsched.ReadyQueue.{ReadyQueue, hightest_priority, highest_one, bitmap_priority, new}
use vsched.ReadyQueue.Interleaved.{
  Shared, Pc, idle, pushed, scan, popped, emptied, set_queue, Move, push_back, fetch_or, start_take,
  pop_none, pop_front, lock_empty, fetch_and, returned, System, pick, init, Reach, start, later,
}

-- No task at the level, its bit set, and no CPU on the way to add a task or to clear the bit.
pub record IsStale (level : ℕ) (s : System) : Type 0 where
  pub empty : is_empty (s.mem.ready.queues level) ≡ true
  pub bit : test_bit s.mem.ready.prio_bitmap (63 - level) ≡ true
  pub none_pushes : (cpu : ℕ) → s.pc cpu ≢ pushed level
  pub none_popped : (cpu task : ℕ) → s.pc cpu ≢ popped level task
  pub none_emptied : (cpu task : ℕ) → s.pc cpu ≢ emptied level task

-- CPU 1 scans from level `i` up to `level`, all levels in between being empty.
scans :
    (c : Config) (m : Shared) (pc : ℕ → Pc) (level n i : ℕ)
    → i + n ≡ level
    → level < priority_levels c
    → ((j : ℕ) → m.locked j ≡ false)
    → ((j : ℕ) → j < level → m.ready.queues j ≡ [])
    → Reach c (record { mem = m; pc = update pc 1 (scan i) })
    → (pc' : ℕ → Pc) × Reach c (record { mem = m; pc = pc' })
      × (pc' 0 ≡ pc 0)
      × (pc' 1 ≡ scan level)
      × ((j : ℕ) → 1 < j → pc' j ≡ pc j)
scans c m pc level zero i e h free none_before r =
    (update pc 1 (scan i), r, ground arith, ground arith, λ j k. ground arith)
scans c m pc level (suc n) i e h free none_before r =
    let (pc', r', a, b, d) =
      scans c m (update pc 1 (scan i)) level n (i + 1) (omega arith) h free none_before
        (later r (pick 1 (pop_none (omega arith) (free i) (none_before i (omega arith))))) in
    (pc', r', ground arith, b, λ j k. ground (arith, d j k))

-- A step of a CPU that stands at `p`.
step_at :
    {c : Config} {m m' : Shared} {pc : ℕ → Pc} {p p' : Pc} (cpu : ℕ)
    → Reach c (record { mem = m; pc = pc })
    → pc cpu ≡ p
    → Move c m p m' p'
    → Reach c (record { mem = m'; pc = update pc cpu p' })
step_at {c} {m} {m'} {pc} {p' = p'} cpu r e mv =
    later r (pick cpu (subst (λ q. Move c m q m' p') (sym e) mv))

module _ (c : Config) (u : IsUsable c) (level task : ℕ) where
  -- After the `push_back` of CPU 0.
  abbrev behind : Shared
  behind = set_queue (init c).mem level ((init c).mem.ready.queues level ++ task ∷ [])

  -- CPU 1 has cleared the bit, CPU 0 sets it.
  abbrev stale : ReadyQueue
  stale = record {
    queues = update behind.ready.queues level [];
    prio_bitmap = set_bit (clear_bit (new c).prio_bitmap (63 - level)) (63 - level);
  }

  stale-hightest_priority :
      level < priority_levels c → hightest_priority c stale ≡ c.highest_priority + level
  unfolding hightest_priority bitmap_priority highest_one new
  stale-hightest_priority h =
      let b : ℕ = stale.prio_bitmap in
      ground (
        arith,
        priority_levels_bounds c u,
        highest_one_from-some b 63 (63 - level) (omega arith)
            (ground (
              arith,
              test_bit-set_bit (clear_bit (new c).prio_bitmap (63 - level)) (63 - level)
                  (63 - level),
            ))
            (λ j p q. ground (
              arith,
              priority_levels_bounds c u,
              test_bit-set_bit (clear_bit (new c).prio_bitmap (63 - level)) (63 - level) j,
              test_bit-clear_bit (new c).prio_bitmap (63 - level) j,
              test_bit-set_bit 0 (63 - priority_levels c) j,
              test_bit-zero j,
            )),
      )

  stale-bit : test_bit stale.prio_bitmap (63 - level) ≡ true
  stale-bit = ground (
    arith,
    test_bit-set_bit (clear_bit (new c).prio_bitmap (63 - level)) (63 - level) (63 - level),
  )

  -- Where the queues have room, for every level there is a state that steps of CPUs lead to from the empty queue, where no CPU
  -- is in a call and no task is in any queue, but the bit of the level is set and
  -- `hightest_priority` gives the priority of the level.
  pub IsStale-reachable :
      0 < c.ready_queue_size
      → level < priority_levels c
      → (s : System) × Reach c s
        × ((cpu : ℕ) → s.pc cpu ≡ idle)
        × ((i : ℕ) → s.mem.ready.queues i ≡ [])
        × (hightest_priority c s.mem.ready ≡ c.highest_priority + level)
        × IsStale level s
  unfolding new
  IsStale-reachable room h =
      let pushing : Reach c (record { mem = behind; pc = update (λ _. idle) 0 (pushed level) }) =
        later start (pick 0 (push_back level task h refl (omega arith))) in
      let (pc, r, zero_at, one_at, rest) =
        scans c behind (update (λ _. idle) 0 (pushed level)) level level 0 (omega arith) h
          (λ j. refl) (λ j k. ground arith) (later pushing (pick 1 start_take)) in
      let taken = step_at 1 r one_at (pop_front task [] h refl (ground arith)) in
      let guarded =
        step_at 1 taken (ground arith)
          (lock_empty {level = level} {task = task} refl (ground arith)) in
      let cleared = step_at 1 guarded (ground arith) (fetch_and {level = level} {task = task}) in
      let back =
        step_at 1 cleared (ground arith)
          (returned {task = task} {prio = bitmap_priority c behind.ready.prio_bitmap}) in
      let marked = step_at 0 back (ground arith) (fetch_or {level = level}) in
      (
        _,
        marked,
        λ cpu. ground (arith, rest cpu),
        λ i. ground arith,
        stale-hightest_priority h,
        record {
          empty = ground arith;
          bit = stale-bit;
          none_pushes = λ cpu q. ground (arith, rest cpu);
          none_popped = λ cpu t q. ground (arith, rest cpu);
          none_emptied = λ cpu t q. ground (arith, rest cpu);
        },
      )
