-- ===== src/Process/Interleaved.antt =====
-- schedule/process_info.rs on several CPUs at once: `register_process` and `unregister_process` in
-- single accesses to the table, which other CPUs can come between.
pub mod Unique
pub mod Alone
pub mod Early
use vsched.Base.{
  ℕ, ◌+◌, ◌-◌, ◌%◌, ◌^◌, ◌<◌, ◌≡◌, ◌≢◌, Bool, true, false, ◌==◌, if◌then◌else◌, update,
}
use vsched.Config.{Config}

-- The `valid` flags and the counter; and, for each number, how often it is given out: returned by
-- `register_process` and not yet handed to `unregister_process`.
pub record Shared : Type 0 where
  pub valid : ℕ → Bool
  pub next_i : ℕ
  pub given : ℕ → ℕ

-- Where a CPU stands, with the local variables that are live there.
pub data Pc : Type 0 where
  idle : Pc  -- in no call
  drawn : (start index : ℕ) → Pc  -- before `valid.swap(true)`
  failed : (start : ℕ) → Pc  -- before the next `fetch_add`
  dropping : (pid : ℕ) → Pc  -- `unregister_process`, before `valid.swap(false)`

abbrev pub bumped : Shared → Shared
bumped m = record m { next_i = (m.next_i + 1) % 2 ^ 64 }

abbrev pub next_index : Config → Shared → ℕ
next_index c m = m.next_i % c.process_num

-- One access of one CPU. A number is unregistered by one that it is given to.
pub data Move (c : Config) (m : Shared) : Pc → Shared → Pc → Type 0 where
  draw : Move c m idle (bumped m) (drawn (next_index c m) (next_index c m))
  swap_free :
      {start index : ℕ}
      → m.valid index ≡ false
      → Move c m
          (drawn start index)
          (record m {
            valid = update m.valid index true;
            given = update m.given index (m.given index + 1);
          })
          idle
  swap_taken :
      {start index : ℕ} → m.valid index ≡ true → Move c m (drawn start index) m (failed start)
  draw_next :
      {start : ℕ}
      → (next_index c m == start) ≡ false
      → Move c m (failed start) (bumped m) (drawn start (next_index c m))
  none_left :
      {start : ℕ} → (next_index c m == start) ≡ true → Move c m (failed start) (bumped m) idle
  unregister :
      (pid : ℕ)
      → 0 < m.given pid
      → Move c m idle (record m { given = update m.given pid (m.given pid - 1) }) (dropping pid)
  swap_false :
      {pid : ℕ} → Move c m (dropping pid) (record m { valid = update m.valid pid false }) idle

-- Any number of CPUs.
pub record System : Type 0 where
  pub mem : Shared
  pub pc : ℕ → Pc

pub data Step (c : Config) (s : System) : System → Type 0 where
  pick :
      (cpu : ℕ) {m : Shared} {p : Pc}
      → Move c s.mem (s.pc cpu) m p
      → Step c s (record { mem = m; pc = update s.pc cpu p })

-- The kernel, process 0, is registered, as in `ProcessInfoTable::default`.
abbrev pub init : System
init = record {
  mem = record { valid = λ i. i == 0; next_i = 1; given = λ i. if i == 0 then 1 else 0 };
  pc = λ _. idle;
}

pub data Reach (c : Config) : System → Type 0 where
  start : Reach c init
  later : {s t : System} → Reach c s → Step c s t → Reach c t
