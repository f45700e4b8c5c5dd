-- ===== src/ReadyQueue/Interleaved/Alone.antt =====
-- schedule/ready_queue.rs: what the steps of one call come to when no other CPU comes between.
use vsched.Base.{
  ℕ, zero, suc, ◌+◌, ◌-◌, ◌≤◌, ◌≡◌, refl, sym, subst, inl, inr, false, List, [], ◌∷◌, arith,
  List-cases, Bool-cases, leb, length, Bool, true, is_empty, if◌then◌else◌, Whole, ended, moved,
  Only, Whole-Only, ◌++◌, update, Returns, Result, done, ok, err,
}
use vsched.Config.{Config, priority_levels}
use vsched.Bits.{set_bit, clear_bit}
use vsched.ReadyQueue.{ReadyQueue, taken, take_from, bitmap_priority, take_task, push_task}
use vsched.ReadyQueue.Interleaved.{
  Shared, Pc, idle, scan, pushed, emptied, set_bitmap, set_locked, returned, popped, took, Move,
  start_take, pop_none, pop_front, give_up, lock_empty, lock_more, fetch_and, set_queue, push_back,
  push_full, fetch_or,
}

-- Where a call that no other CPU disturbs ends: `took` is the end of `take_task`.
abbrev pub is_end : Pc → Bool
is_end idle = true
is_end (took task prio) = true
is_end p = false

abbrev next_step : Config → Shared → Pc → Shared × Pc
next_step c m idle = (m, idle)
next_step c m (pushed level) = (set_bitmap m (set_bit m.ready.prio_bitmap (63 - level)), idle)
next_step c m (scan level) =
    if leb (priority_levels c) level
    then (m, took 0 (c.highest_priority + level))
    else elim (m.ready.queues level) [
      | [] ↦ (m, scan (level + 1))
      | task ∷ rest ↦ (set_queue m level rest, popped level task)
    ]
next_step c m (popped level task) =
    if is_empty (m.ready.queues level)
    then (set_locked m level true, emptied level task)
    else (m, took task (c.highest_priority + level))
next_step c m (emptied level task) = (
  set_locked (set_bitmap m (clear_bit m.ready.prio_bitmap (63 - level))) level false,
  took task (bitmap_priority c m.ready.prio_bitmap),
)
next_step c m (took task prio) = (m, idle)

Move-next_step :
    (c : Config) {m m' : Shared} {p p' : Pc}
    → is_end p ≡ false
    → Move c m p m' p'
    → next_step c m p ≡ (m', p')
Move-next_step c e (push_back level task h k l) = cc e
Move-next_step c e (push_full level h k l) = cc e
Move-next_step c e fetch_or = refl
Move-next_step c e start_take = cc e
Move-next_step c {m} e (pop_none {level} h k l) =
    let below : leb (priority_levels c) level ≡ false = ground (arith, h) in rw (below, l) refl
Move-next_step c e (pop_front {level} task rest h k l) =
    let below : leb (priority_levels c) level ≡ false = ground (arith, h) in rw (below, l) refl
Move-next_step c e (give_up {level} h) =
    let above : leb (priority_levels c) level ≡ true = ground (arith, h) in rw above refl
Move-next_step c e (lock_empty k l) = rw l refl
Move-next_step c e (lock_more k l) = rw l refl
Move-next_step c e fetch_and = refl
Move-next_step c e returned = cc e

-- All steps of a call from `p`, if no other CPU comes between, end at `p'` with `m'`.
abbrev pub Ends : Config → Shared → Pc → Shared → Pc → Type 0
Ends c = Only (Move c) is_end

-- From `p` the CPU comes to the result `r` of `take_task`, with no lock held.
abbrev Gives : Config → Shared → Pc → (ℕ × ℕ) × ReadyQueue → Type 0
Gives c m p ((task, prio), q) =
    (m' : Shared) × Whole (Move c) is_end m p m' (took task prio)
    × (m'.ready ≡ q)
    × ((i : ℕ) → m'.locked i ≡ false)

module _ (c : Config) where
  before :
      {m m' : Shared} {p p' : Pc} (r : (ℕ × ℕ) × ReadyQueue)
      → is_end p ≡ false
      → Move c m p m' p'
      → Gives c m' p' r
      → Gives c m p r
  before r e mv (m', run, same, free) = (m', moved e mv run, same, free)

  taken-Gives :
      (m : Shared) (level task : ℕ) (rest : List ℕ)
      → ((i : ℕ) → m.locked i ≡ false)
      → Gives c (set_queue m level rest) (popped level task) (taken c level task rest m.ready)
  unfolding taken
  taken-Gives m level task [] free = (
    _,
    moved refl (lock_empty (free level) (ground arith)) (moved refl fetch_and (ended refl)),
    refl,
    λ i. ground (arith, free i),
  )
  taken-Gives m level task (x ∷ rest) free =
      (_, moved refl (lock_more (free level) (ground arith)) (ended refl), refl, free)

  take_from-Gives :
      (n level : ℕ) (m : Shared)
      → level + n ≡ priority_levels c
      → ((i : ℕ) → m.locked i ≡ false)
      → Gives c m (scan level) (take_from c n level m.ready)
  unfolding take_from
  take_from-Gives zero level m h free =
      (m, moved refl (give_up (omega arith)) (ended refl), refl, free)
  take_from-Gives (suc n) level m h free = elim (List-cases (m.ready.queues level)) [
    | inl e ↦
        rw (e, take_from)
          (before _ refl (pop_none (omega arith) (free level) e)
            (take_from-Gives n (level + 1) m (omega arith) free))
    | inr (task, rest, e) ↦
        rw (e, take_from)
          (before _ refl (pop_front task rest (omega arith) (free level) e)
            (taken-Gives m level task rest free))
  ]

  -- The steps of `take_task` in a call that is not disturbed: its first access, and then the one way
  -- to the end of the call.
  abbrev pub Takes : Shared → (ℕ × ℕ) × ReadyQueue → Type 0
  Takes m ((task, prio), q) =
      Move c m idle m (scan 0)
      × (m' : Shared) × Ends c m (scan 0) m' (took task prio)
      × (m'.ready ≡ q)
      × ((i : ℕ) → m'.locked i ≡ false)

  take_task-Takes : (m : Shared) → ((i : ℕ) → m.locked i ≡ false) → Takes m (take_task c m.ready)
  unfolding take_task
  take_task-Takes m free =
      let (m', run, same, unlocked) = take_from-Gives (priority_levels c) 0 m (omega arith) free in
      (
        start_take,
        m',
        Whole-Only (Move c) is_end (next_step c) (λ n n' r r' e mv. Move-next_step c e mv) run,
        same,
        unlocked,
      )

  -- The steps of `push_task` at a level, by its result. Where the task goes into the queue, the
  -- first access is the `push_back` of this task, then there is one way to the end. Where the task
  -- is given back, no `push_back` can be made at this level.
  abbrev pub Pushes : Shared → ℕ → ℕ → Result (Unit {0}) ℕ × ReadyQueue → Type 0
  Pushes m level task (ok _, q) =
      let m1 = set_queue m level (m.ready.queues level ++ task ∷ []) in
      Move c m idle m1 (pushed level)
      × (m' : Shared) × Ends c m1 (pushed level) m' idle
      × (m'.ready ≡ q)
      × ((i : ℕ) → m'.locked i ≡ false)
  Pushes m level task (err back, q) =
      (back ≡ task)
      × (q ≡ m.ready)
      × Move c m idle m idle
      × ((n : Shared) → ¬ Move c m idle n (pushed level))

  no_push :
      (m n : Shared) (level : ℕ)
      → c.ready_queue_size ≤ length (m.ready.queues level)
      → ¬ Move c m idle n (pushed level)
  no_push m n level full (push_back l task h k room) = absurd (omega arith)

  push_task-Pushes :
      (m : Shared)
      → ((i : ℕ) → m.locked i ≡ false)
      → (prio task : ℕ) → c.highest_priority ≤ prio
      → prio ≤ c.lowest_priority
      → Returns (Pushes m (prio - c.highest_priority) task) (push_task c prio task m.ready)
  unfolding push_task priority_levels
  push_task-Pushes m free prio task h k =
      let level = prio - c.highest_priority in
      let q : ReadyQueue = record {
        queues = update m.ready.queues level (m.ready.queues level ++ task ∷ []);
        prio_bitmap = set_bit m.ready.prio_bitmap (63 - level);
      } in
      elim (Bool-cases (leb c.ready_queue_size (length (m.ready.queues level)))) [
        | inl full ↦
            let e : push_task c prio task m.ready ≡ done (err task, m.ready) = ground arith in
            subst (Returns (Pushes m level task)) (sym e) (
              refl,
              refl,
              push_full level (omega arith) (free level) (ground arith),
              λ n. no_push m n level (ground arith),
            )
        | inr room ↦
            let e : push_task c prio task m.ready ≡ done (ok tt, q) = ground arith in
            subst (Returns (Pushes m level task)) (sym e) (
              push_back level task (omega arith) (free level) (ground arith),
              _,
              Whole-Only (Move c) is_end (next_step c) (λ n n' r r' e mv. Move-next_step c e mv)
                  (moved refl fetch_or (ended refl)),
              refl,
              free,
            )
      ]

  -- A call that finds no lock held and that no other CPU comes between. `take_task` has one way
  -- from its first access to its end, which comes to the task and the priority of the one-step
  -- `take_task` and leaves its queue. `push_task`, with a priority in range, does not panic. Where
  -- the one-step `push_task` accepts the task, the steps push this task at its level, have one way
  -- from there to the end, and leave its queue; where it gives the task back, the queue is as it
  -- was and the steps can push nothing at this level. No lock is held at the end.
  pub steps-Alone :
      (m : Shared)
      → ((i : ℕ) → m.locked i ≡ false)
      → (prio task : ℕ) → c.highest_priority ≤ prio
      → prio ≤ c.lowest_priority
      → Takes m (take_task c m.ready)
        × Returns (Pushes m (prio - c.highest_priority) task) (push_task c prio task m.ready)
  steps-Alone m free prio task h k = (take_task-Takes m free, push_task-Pushes m free prio task h k)
