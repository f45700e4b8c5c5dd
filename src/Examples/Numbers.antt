-- ===== src/Examples/Numbers.antt =====
-- Process numbers given out by two CPUs.
use vsched.Base.{ℕ, ◌≤◌, ◌<◌, ◌≡◌, refl, true, false, arith, Returns}
use vsched.Config.{default}
use vsched.Process.{default_table, register_process, unregister_process}
use vsched.Process.Interleaved.{
  idle, failed, bumped, Move, draw, swap_free, unregister, System, init, Reach, start, later, pick,
}
use vsched.Process.Interleaved.Unique.{given_once}
use vsched.Process.Interleaved.Early.{none_early}
use vsched.Process.Interleaved.Alone.{IsSame, Draws, Drops, steps_alone}
use vsched.Examples.Setup.{os, tasks}

-- CPU 0 draws 1 and CPU 1 draws 2; CPU 1 is given 2, then CPU 0 is given 1, which CPU 1
-- unregisters.
abbrev shared_table : (s : System) × Reach default s
shared_table = (
  _,
  later
      (later (later (later (later start (pick 0 draw)) (pick 1 draw)) (pick 1 (swap_free refl)))
        (pick 0 (swap_free refl)))
      (pick 1 (unregister 1 (omega arith))),
)

given_once_example :
    (shared_table.0.mem.given 2 ≤ 1)
    × (0 < shared_table.0.mem.given 2 → shared_table.0.mem.valid 2 ≡ true)
given_once_example = given_once default shared_table.0 shared_table.1 2

default_table-IsSame : IsSame init.mem default_table
unfolding default_table
default_table-IsSame = (λ i. ground arith, refl)

steps_alone_example :
    Returns (Draws default init.mem) (register_process default default_table)
    × Returns
        (λ (was_valid, t', s'). Drops default 0 init.mem (was_valid, t'))
        (unregister_process default os 0 default_table tasks)
unfolding default_table
steps_alone_example =
    steps_alone default os 0 init.mem default_table tasks default_table-IsSame (omega arith)
      (omega arith) (omega arith)

none_early_example :
    (s : System) × Reach default s
    × (s.pc 0 ≡ failed 0)
    × Move default s.mem (failed 0) (bumped s.mem) idle
    × ((i : ℕ) → 0 < i → s.mem.valid i ≡ false)
none_early_example = none_early default (omega arith) (omega arith)
