-- ===== src/MainLoop/Choose.antt =====
-- main_loop.rs: the process that a round of the loop chooses.
use vsched.Base.{
  ℕ, ◌≤◌, ◌<◌, ◌≡◌, ◌≢◌, refl, ap, ◌∙◌, true, false, some, arith, ◌==◌, done, Returns-done,
  Bool-cases, inl, inr,
}
use vsched.Config.{Config, IsUsable, isize_max}
use vsched.Current.{scheduler_at}
use vsched.MainLoop.{process_schedule}
use vsched.Os.{Os}
use vsched.Process.{ProcessInfoTable, highest_prio_process}
use vsched.Process.Best.{IsCovered, IsChoice, highest_prio_process-IsChoice}
use vsched.World.{World, Scheduler}

module _ {S : Type 0} (c : Config) (u : IsUsable c) (os : Os S) where
  -- The valid process `pid` comes before all others for the CPU.
  pub record IsBest (pid cpu : ℕ) (t : ProcessInfoTable) : Type 0 where
    pub covered : IsCovered c t
    pub small : pid < c.process_num
    pub valid : (t.table pid).valid ≡ true
    pub bounded : (t.table pid).highest_prio cpu ≤ isize_max
    pub first :
        (i : ℕ)
        → i < c.process_num
        → (t.table i).valid ≡ true
        → i ≢ pid
        → (t.table pid).highest_prio cpu < (t.table i).highest_prio cpu

  best-chosen :
      (pid cpu current : ℕ) (t : ProcessInfoTable)
      → cpu < c.cpu_num
      → IsBest pid cpu t
      → highest_prio_process c current cpu t ≡ done pid
  best-chosen pid cpu current t on_cpu b =
      let (found, chosen, choice) =
        Returns-done (IsChoice c t cpu u.some_process current)
          (highest_prio_process c current cpu t)
          (highest_prio_process-IsChoice c t cpu u.some_process b.covered pid b.small b.valid
            b.bounded current on_cpu) in
      elim (Bool-cases (found == pid)) [
        | inl same ↦ let at : found ≡ pid = ground arith in chosen ∙ ap done at
        | inr other ↦
            absurd (ground (arith, choice.2 pid b.small b.valid, b.first found choice.0 choice.1))
      ]

  pub process_schedule_lem :
      (pid p cpu : ℕ) (k : Scheduler) (w : World S)
      → p ≢ 0
      → w.schedulers p ≡ some k
      → cpu < c.cpu_num
      → IsBest pid cpu w.process_info_table
      → process_schedule c os p cpu w ≡ done (pid, w)
  unfolding process_schedule scheduler_at
  process_schedule_lem pid p cpu k w np there on_cpu best =
      let b : (p == 0) ≡ false = ground (arith, np) in
      rw (b, there, best-chosen pid cpu k.global_index w.process_info_table on_cpu best) refl
