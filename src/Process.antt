-- ===== src/Process.antt =====
-- schedule/process_info.rs: the table of the processes, by process number. The `scheduler` and
-- `vspace` fields are addresses, 0 for null.
pub mod Register
pub mod Best
pub mod Covered
pub mod Interleaved
use vsched.Base.{
  ℕ, zero, suc, ◌+◌, ◌-◌, ◌%◌, ◌^◌, ◌≤◌, ◌<◌, ◌≡◌, refl, Bool, true, false, not, ◌||◌, Option, none,
  some, List, [], ◌∷◌, ◌++◌, arith, ltb, leb, ◌==◌, if◌then◌else◌, length, is_empty, update,
  Outcome, done, panic, spinning, ◌>>=◌,
}
use vsched.Config.{Config, isize_max}
use vsched.Os.{Os}

pub record ProcessInfo : Type 0 where
  pub valid : Bool
  pub highest_prio : ℕ → ℕ
  pub vspace : ℕ
  pub scheduler : ℕ

pub record ProcessInfoTable : Type 0 where
  pub table : ℕ → ProcessInfo
  pub next_i : ℕ

unfoldable pub default_info : ProcessInfo
default_info = record { valid = false; highest_prio = λ _. isize_max; vspace = 0; scheduler = 0 }

-- `ProcessInfoTable::default`: the kernel, process 0, is registered.
unfoldable pub default_table : ProcessInfoTable
unfolding default_info
default_table = record {
  table = update (λ _. default_info) 0 (record default_info { valid = true });
  next_i = 1;
}

-- `next_i.fetch_add(1)` on a 64-bit word.
unfoldable pub bump : ProcessInfoTable → ProcessInfoTable
bump t = record t { next_i = (t.next_i + 1) % 2 ^ 64 }

unfoldable pub set_valid : ℕ → Bool → ProcessInfoTable → ProcessInfoTable
set_valid index b t = record t {
  table = update t.table index (record (t.table index) { valid = b });
}

unfoldable pub contains : ℕ → List ℕ → Bool
contains x [] = false
contains x (y ∷ ys) = y == x || contains x ys

unfoldable pub choose : ℕ → List ℕ → Outcome ℕ
choose current [] = panic
choose current (p ∷ ps) = done (if contains current (p ∷ ps) then current else p)

module _ (c : Config) where
  -- The loop of `register_process`, at `index`.
  unfoldable pub register_from :
      ℕ → ℕ → ℕ → ProcessInfoTable → Outcome (Option ℕ × ProcessInfoTable)
  register_from zero start index t = spinning
  register_from (suc n) start index t =
      let next = t.next_i % c.process_num in
      let rest = register_from n start next (bump t) in
      if not (t.table index).valid
      then done (some index, set_valid index true t)
      else if next == start
      then done (none, bump t)
      else rest

  -- `process_num` rounds are enough: `Register.register_process-Registers`.
  unfoldable pub register_process : ProcessInfoTable → Outcome (Option ℕ × ProcessInfoTable)
  register_process t =
      let start = t.next_i % c.process_num in register_from c.process_num start start (bump t)

  unfoldable pub unregister_process :
      {S : Type 0} → Os S → ℕ → ProcessInfoTable → S → Outcome (Bool × ProcessInfoTable × S)
  unregister_process os index t s =
      let info = t.table index in
      if leb c.process_num index
      then panic
      else done (
        info.valid,
        record t { table = update t.table index (record info { valid = false; vspace = 0 }) },
        if info.vspace == 0 then s else os.dealloc_vspace info.vspace s,
      )

  -- The loop of `highest_prio_process` over `start..end`, with the number of rounds left. `push`
  -- on a full vector panics.
  unfoldable pub best_processes : ℕ → ℕ → ℕ → ℕ → List ℕ → ProcessInfoTable → Outcome (List ℕ)
  best_processes zero i cpu highest processes t = done processes
  best_processes (suc n) i cpu highest processes t =
      let index = i % c.process_num in
      let prio = (t.table index).highest_prio cpu in
      let skipped = best_processes n (i + 1) cpu highest processes t in
      let better = best_processes n (i + 1) cpu prio (index ∷ []) t in
      let equal = best_processes n (i + 1) cpu highest (processes ++ index ∷ []) t in
      if not (t.table index).valid
      then skipped
      else if ltb prio highest
      then better
      else if prio == highest
      then (if ltb (length processes) c.process_num then equal else panic)
      else skipped

  unfoldable pub highest_prio_process : ℕ → ℕ → ProcessInfoTable → Outcome ℕ
  highest_prio_process current cpu t =
      let start = if leb c.process_num t.next_i then t.next_i - c.process_num else 0 in
      if leb c.cpu_num cpu
      then panic
      else best_processes (t.next_i - start) start cpu isize_max [] t >>= λ processes.
          choose current processes
