-- ===== src/ReadyQueue/Interleaved/Marked.antt =====
-- schedule/ready_queue.rs on several CPUs: whatever the order of their steps, a queue with tasks
-- has its bit, or a CPU is about to set it.
use vsched.Base.{
  ℕ, ◌+◌, ◌-◌, ◌≤◌, ◌<◌, ◌≡◌, ◌⊎◌, refl, inl, inr, Bool, true, false, [], ◌∷◌, arith, ◌==◌,
  is_empty, update, Bool-cases,
}
use vsched.Config.{Config, IsUsable, priority_levels, priority_levels_bounds}
use vsched.Bits.{test_bit, test_bit-set_bit, test_bit-clear_bit, highest_one_from-ge}
use vsched.ReadyQueue.{hightest_priority, highest_one, bitmap_priority, new}
use vsched.ReadyQueue.Interleaved.{
  Shared, Pc, pushed, popped, emptied, Move, push_back, fetch_or, pop_front, lock_empty, fetch_and,
  System, pick, init, Reach, start, later,
}

-- The bit of a level, by its place in the bitmap.
abbrev marked : Shared → ℕ → Bool
marked m level = test_bit m.ready.prio_bitmap (63 - level)

-- The level that a CPU has taken a task from is one of the array.
abbrev pub Inside : Config → Pc → Type 0
Inside c (popped level task) = level < priority_levels c
Inside c (emptied level task) = level < priority_levels c
Inside c _ = Unit

-- A queue with tasks is marked, or some CPU is between `push_back` and `fetch_or`; a guard is that
-- of one CPU, and its queue is empty.
record IsMarked (c : Config) (m : Shared) (pc : ℕ → Pc) : Type 0 where
  covered :
      (level : ℕ)
      → level < priority_levels c
      → is_empty (m.ready.queues level) ≡ false
      → (marked m level ≡ true) ⊎ ((cpu : ℕ) × (pc cpu ≡ pushed level))
  inside : (cpu : ℕ) → Inside c (pc cpu)
  guarded :
      (cpu level task : ℕ)
      → pc cpu ≡ emptied level task
      → (m.locked level ≡ true) × (is_empty (m.ready.queues level) ≡ true)
  unique : (i j level s t : ℕ) → pc i ≡ emptied level s → pc j ≡ emptied level t → i ≡ j

-- The premises of a move, for the catch-all clauses below.
abbrev Guard : {c : Config} {m m' : Shared} {p p' : Pc} → Move c m p m' p' → Type 0
Guard {c} {m} (push_back level task h l r) = (m.locked level ≡ false) × (level < priority_levels c)
Guard {c} {m} (pop_front {level} task rest h l e) =
    (level < priority_levels c) × (m.ready.queues level ≡ task ∷ rest) × (m.locked level ≡ false)
Guard {m} (lock_empty {level} l e) = (m.ready.queues level ≡ []) × (m.locked level ≡ false)
Guard _ = Unit

guard : {c : Config} {m m' : Shared} {p p' : Pc} (mv : Move c m p m' p') → Guard mv
guard (push_back level task h l r) = (l, h)
guard (pop_front task rest h l e) = (h, e, l)
guard (lock_empty l e) = (e, l)
guard _ = tt

module _ (c : Config) (u : IsUsable c) {m : Shared} {pc : ℕ → Pc} (inv : IsMarked c m pc)
    (cpu : ℕ) where
  open inv use {covered, inside, guarded, unique}

  moved-Inside : {p p' : Pc} {m' : Shared} → Move c m p m' p' → Inside c p → Inside c p'
  moved-Inside (lock_empty l e) k = k
  moved-Inside mv k = ground (arith, guard mv)

  Move-guarded :
      {p p' : Pc} {m' : Shared}
      → Move c m p m' p'
      → pc cpu ≡ p
      → (i level task : ℕ) → update pc cpu p' i ≡ emptied level task
      → (m'.locked level ≡ true) × (is_empty (m'.ready.queues level) ≡ true)
  Move-guarded (fetch_and {level} {task}) e i lv t q =
      ground (arith, guarded i lv t, unique i cpu lv t task)
  Move-guarded mv e i lv t q = ground (arith, guard mv, guarded i lv t)

  Move-unique :
      {p p' : Pc} {m' : Shared}
      → Move c m p m' p'
      → pc cpu ≡ p
      → (i j level s t : ℕ) → update pc cpu p' i ≡ emptied level s
      → update pc cpu p' j ≡ emptied level t
      → i ≡ j
  Move-unique (lock_empty l g) e i j lv s t qi qj =
      ground (arith, guarded i lv s, guarded j lv t, unique i j lv s t)
  Move-unique mv e i j lv s t qi qj = ground (arith, unique i j lv s t)

  update-Inside :
      {p p' : Pc} {m' : Shared}
      → Move c m p m' p'
      → Inside c p
      → (i : ℕ) → Inside c (update pc cpu p' i)
  update-Inside mv k i = elim (Bool-cases (cpu == i)) [
    | inl here ↦ rw here (moved-Inside mv k)
    | inr other ↦ rw other (inside i)
  ]

  Move-covered :
      {p p' : Pc} {m' : Shared}
      → Move c m p m' p'
      → Inside c p
      → pc cpu ≡ p
      → (level : ℕ) → level < priority_levels c
      → is_empty (m'.ready.queues level) ≡ false
      → (marked m' level ≡ true) ⊎ ((i : ℕ) × (update pc cpu p' i ≡ pushed level))
  Move-covered (push_back lv task h l r) n e level k q = elim (Bool-cases (lv == level)) [
    | inl same ↦ inr (cpu, ground arith)
    | inr other ↦ elim (covered level k (ground arith)) [
      | inl bit ↦ inl bit
      | inr (i, at) ↦ inr (i, ground arith)
    ]
  ]
  Move-covered (fetch_or {level = lv}) n e level k q =
      elim (Bool-cases ((63 - lv) == (63 - level))) [
        | inl same ↦
            inl (ground (arith, test_bit-set_bit m.ready.prio_bitmap (63 - lv) (63 - level)))
        | inr other ↦ elim (covered level k q) [
          | inl bit ↦
              inl (ground (arith, test_bit-set_bit m.ready.prio_bitmap (63 - lv) (63 - level)))
          | inr (i, at) ↦ inr (i, ground arith)
        ]
      ]
  Move-covered (fetch_and {level = lv} {task}) n e level k q = elim (covered level k q) [
    | inl bit ↦ inl (
        ground (
          arith,
          guarded cpu lv task,
          priority_levels_bounds c u,
          test_bit-clear_bit m.ready.prio_bitmap (63 - lv) (63 - level),
        ))
    | inr (i, at) ↦ inr (i, ground arith)
  ]
  Move-covered mv n e level k q = elim (covered level k (ground (arith, guard mv))) [
    | inl bit ↦ inl (ground arith)
    | inr (i, at) ↦ inr (i, ground arith)
  ]

  Move-IsMarked :
      {p' : Pc} {m' : Shared} → Move c m (pc cpu) m' p' → IsMarked c m' (update pc cpu p')
  Move-IsMarked mv = record {
    covered = Move-covered mv (inside cpu) refl;
    inside = update-Inside mv (inside cpu);
    guarded = Move-guarded mv refl;
    unique = Move-unique mv refl;
  }

module _ (c : Config) (u : IsUsable c) where
  init-IsMarked : IsMarked c (init c).mem (init c).pc
  unfolding new
  init-IsMarked = record {
    covered = λ level h q. cc q;
    inside = λ i. tt;
    guarded = λ i level task q. cc q;
    unique = λ i j level s t q r. cc q;
  }

  Reach-IsMarked : {s : System} → Reach c s → IsMarked c s.mem s.pc
  Reach-IsMarked start = init-IsMarked
  Reach-IsMarked (later r (pick cpu mv)) = Move-IsMarked c u (Reach-IsMarked r) cpu mv

  pub Reach-Inside : {s : System} → Reach c s → (cpu : ℕ) → Inside c (s.pc cpu)
  Reach-Inside r = (Reach-IsMarked r).inside

  pub hightest_priority-marked :
      (m : Shared) (level : ℕ)
      → level < priority_levels c
      → marked m level ≡ true
      → hightest_priority c m.ready ≤ c.highest_priority + level
  unfolding hightest_priority bitmap_priority highest_one
  hightest_priority-marked m level h bit =
      let (j, found, ge, le) =
        highest_one_from-ge m.ready.prio_bitmap 63 (63 - level) (omega arith) bit in
      ground (arith, found, priority_levels_bounds c u)

  -- In every state that calls of `push_task` and `take_task` on any number of CPUs reach, whatever
  -- the order of their steps: `hightest_priority` gives the priority of each level with a task or a
  -- more urgent one, unless a CPU is between the `push_back` and the `fetch_or` of a `push_task` to
  -- that level.
  pub no_hidden_task :
      {s : System}
      → Reach c s
      → (level : ℕ) → level < priority_levels c
      → is_empty (s.mem.ready.queues level) ≡ false
      → (hightest_priority c s.mem.ready ≤ c.highest_priority + level)
        ⊎ ((cpu : ℕ) × (s.pc cpu ≡ pushed level))
  no_hidden_task {s} r level h q = elim ((Reach-IsMarked r).covered level h q) [
    | inl bit ↦ inl (hightest_priority-marked s.mem level h bit)
    | inr waiting ↦ inr waiting
  ]
