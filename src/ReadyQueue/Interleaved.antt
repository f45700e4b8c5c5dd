-- ===== src/ReadyQueue/Interleaved.antt =====
-- schedule/ready_queue.rs on several CPUs at once: `push_task` and `take_task` in the steps that
-- other CPUs can come between. A lock that is held over one access only is not seen by others, so
-- it is part of that access; the guard that `take_task` keeps over `is_empty` and `fetch_and` is
-- seen. It is dropped with the `fetch_and`, after which nothing shared is touched.
pub mod Alone
pub mod Marked
pub mod Stale
pub mod Stays
use vsched.Base.{
  ℕ, ◌+◌, ◌-◌, ◌≤◌, ◌<◌, ◌≡◌, Bool, true, false, List, [], ◌∷◌, ◌++◌, length, is_empty, update,
}
use vsched.Config.{Config, priority_levels}
use vsched.Bits.{set_bit, clear_bit}
use vsched.ReadyQueue.{ReadyQueue, new, bitmap_priority}

-- The queue, and the levels whose lock is held by a guard.
pub record Shared : Type 0 where
  pub ready : ReadyQueue
  pub locked : ℕ → Bool

-- Where a CPU stands, with the local variables that are live there.
pub data Pc : Type 0 where
  idle : Pc  -- in no call
  pushed : (level : ℕ) → Pc  -- `push_task`, before the `fetch_or`
  scan : (level : ℕ) → Pc  -- `take_task`, head of the loop
  popped : (level task : ℕ) → Pc  -- with a task, before the guard
  emptied : (level task : ℕ) → Pc  -- with the guard, and the queue empty
  took : (task prio : ℕ) → Pc  -- `take_task`, with its result

-- The shared part after an access.
abbrev pub set_queue : Shared → ℕ → List ℕ → Shared
set_queue m level tasks = record m {
  ready = record (m.ready) { queues = update m.ready.queues level tasks };
}

abbrev pub set_bitmap : Shared → ℕ → Shared
set_bitmap m bitmap = record m { ready = record (m.ready) { prio_bitmap = bitmap } }

abbrev pub set_locked : Shared → ℕ → Bool → Shared
set_locked m level held = record m { locked = update m.locked level held }

-- One step of one CPU. From `idle` it may call `push_task` with any task, or `take_task`.
pub data Move (c : Config) (m : Shared) : Pc → Shared → Pc → Type 0 where
  push_back :
      (level task : ℕ)
      → level < priority_levels c
      → m.locked level ≡ false
      → length (m.ready.queues level) < c.ready_queue_size
      → Move c m idle (set_queue m level (m.ready.queues level ++ task ∷ [])) (pushed level)
  push_full :
      (level : ℕ)
      → level < priority_levels c
      → m.locked level ≡ false
      → c.ready_queue_size ≤ length (m.ready.queues level)
      → Move c m idle m idle
  fetch_or :
      {level : ℕ}
      → Move c m (pushed level) (set_bitmap m (set_bit m.ready.prio_bitmap (63 - level))) idle
  start_take : Move c m idle m (scan 0)
  pop_none :
      {level : ℕ}
      → level < priority_levels c
      → m.locked level ≡ false
      → m.ready.queues level ≡ []
      → Move c m (scan level) m (scan (level + 1))
  pop_front :
      {level : ℕ} (task : ℕ) (rest : List ℕ)
      → level < priority_levels c
      → m.locked level ≡ false
      → m.ready.queues level ≡ task ∷ rest
      → Move c m (scan level) (set_queue m level rest) (popped level task)
  give_up :
      {level : ℕ}
      → priority_levels c ≤ level
      → Move c m (scan level) m (took 0 (c.highest_priority + level))
  lock_empty :
      {level task : ℕ}
      → m.locked level ≡ false
      → m.ready.queues level ≡ []
      → Move c m (popped level task) (set_locked m level true) (emptied level task)
  lock_more :
      {level task : ℕ}
      → m.locked level ≡ false
      → is_empty (m.ready.queues level) ≡ false
      → Move c m (popped level task) m (took task (c.highest_priority + level))
  fetch_and :
      {level task : ℕ}
      → Move c m
          (emptied level task)
          (set_locked (set_bitmap m (clear_bit m.ready.prio_bitmap (63 - level))) level false)
          (took task (bitmap_priority c m.ready.prio_bitmap))
  returned : {task prio : ℕ} → Move c m (took task prio) m idle

-- Any number of CPUs.
pub record System : Type 0 where
  pub mem : Shared
  pub pc : ℕ → Pc

pub data Step (c : Config) (s : System) : System → Type 0 where
  pick :
      (cpu : ℕ) {m : Shared} {p : Pc}
      → Move c s.mem (s.pc cpu) m p
      → Step c s (record { mem = m; pc = update s.pc cpu p })

abbrev pub init : Config → System
init c = record { mem = record { ready = new c; locked = λ _. false }; pc = λ _. idle }

pub data Reach (c : Config) : System → Type 0 where
  start : Reach c (init c)
  later : {s t : System} → Reach c s → Step c s t → Reach c t
