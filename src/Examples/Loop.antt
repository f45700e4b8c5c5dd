-- ===== src/Examples/Loop.antt =====
-- The event sources, the stacks and the main loop at concrete inputs.
use vsched.Base.{ℕ, ◌<◌, ◌≡◌, ◌↔◌, refl, true, false, arith, done, panic, Returns}
use vsched.Examples.Setup.{os}
use vsched.Examples.Machine.{
  dual, dual-IsUsable, vtable_of, own, world, world-IsOwn, world-scheduler, new-0,
}
use vsched.Examples.Queue.{two_processes, two_processes-IsCovered}
use vsched.MainLoop.{wait_for_runnable_task}
use vsched.MainLoop.States.{wait_for_runnable_task_lem}
use vsched.Os.{ready_queue_code}
use vsched.Scheduler.{hightest_priority, get_and_update_all_prio}
use vsched.Scheduler.Own.{get_and_update_all_prio-hides}
use vsched.Sources.{negsuc, register_event_source}
use vsched.Sources.Index.{register_event_source_panics}

get_and_update_all_prio-hides_example :
    Returns
      (λ (prio, w').
        ((w'.process_info_table.table 1).highest_prio 1 ≡ prio)
        × (hightest_priority dual os 64 1 w' ≡ done (dual.highest_priority, w'))
        × (dual.highest_priority < prio))
      (get_and_update_all_prio dual os 64 0 world)
get_and_update_all_prio-hides_example =
    get_and_update_all_prio-hides dual dual-IsUsable os 64 0 1 own world (omega arith) (omega arith)
      world-IsOwn refl (λ e. cc) new-0

wait_for_runnable_task_lem_example :
    Returns
      (λ (sleeps, w').
        (w'.is_sleeping 0 ≡ sleeps)
        × (w'.current_task 0 ≡ 3)
        × ((sleeps ≡ true) ↔ (
            (i : ℕ)
            → i < dual.process_num
            → (two_processes.table i).valid ≡ true
            → dual.lowest_priority < (two_processes.table i).highest_prio 0)))
      (wait_for_runnable_task dual os 64 0 world)
wait_for_runnable_task_lem_example =
    wait_for_runnable_task_lem dual os 64 0 0 own world (λ e. cc) refl (λ e. cc) (omega arith)
      (omega arith) two_processes-IsCovered (omega arith) refl (omega arith)

register_event_source_panics_example :
    register_event_source dual os 64 8 16 (vtable_of ready_queue_code false) (negsuc 2) 0 world
    ≡ panic
register_event_source_panics_example =
    register_event_source_panics dual os 64 8 16 0 (vtable_of ready_queue_code false) own world
      (λ e. cc) (λ e. cc) world-scheduler (omega arith)
