-- ===== src/MainLoop/States.antt =====
-- main_loop.rs: the states of tasks as they leave and get a CPU, and when a CPU goes to sleep.
use vsched.Base.{
  ℕ, ◌+◌, ◌≤◌, ◌<◌, ◌≡◌, ◌≢◌, ◌↔◌, refl, ap, true, false, some, arith, leb, if◌then◌else◌, ◌==◌,
  panic, Returns, Returns-done, Bool-cases, ◌∙◌, ◌⊎◌, inl, inr,
}
use vsched.Config.{Config, isize_max}
use vsched.Current.{scheduler_at, get_current_task, set_current_task}
use vsched.MainLoop.{
  set_state, settle, push_prev_task, put_away, thread_entry_phase2, process_schedule,
  wait_for_runnable_task,
}
use vsched.MainLoop.Run.{start_running, may_run}
use vsched.Os.{Os, TaskLaws, ready, running, blocked, exited, blocking, next_state}
use vsched.Process.{highest_prio_process}
use vsched.Process.Best.{IsCovered, IsChoice, highest_prio_process-IsChoice}
use vsched.World.{World, Scheduler}

module _ {S : Type 0} (c : Config) (os : Os S) (laws : TaskLaws os) where
  -- A thread that comes back Running or Blocking is Blocked afterwards, no other task changes its
  -- state, and nothing but the operating system's state changes. The result is the privilege level,
  -- plus 2 for a single CPU.
  pub thread_entry_phase2-blocks :
      (cpu : ℕ) (w : World S)
      → (os.state w.os_state (w.current_task cpu) ≡ running)
        ⊎ (os.state w.os_state (w.current_task cpu) ≡ blocking)
      → Returns
          (λ (res, w').
            (os.state w'.os_state (w.current_task cpu) ≡ blocked)
            × ((j : ℕ) → w.current_task cpu ≢ j → os.state w'.os_state j ≡ os.state w.os_state j)
            × (w' ≡ record w { os_state = w'.os_state })
            × (res ≡ (if c.cpu_num == 1 then 2 else 0) + (if w.in_kernel cpu then 0 else 1)))
          (thread_entry_phase2 c os cpu w)
  unfolding thread_entry_phase2 get_current_task settle put_away push_prev_task next_state
  thread_entry_phase2-blocks cpu w (inl e) =
      let task = w.current_task cpu in
      let old = laws.match_set_state_old ready blocked blocked exited blocked task w.os_state ∙ e in
      let new =
        laws.match_set_state_new ready blocked blocked exited blocked task w.os_state
        ∙ ap (next_state ready blocked blocked exited blocked) e in
      let other = λ (j : ℕ) (ne : task ≢ j).
        laws.match_set_state_other ready blocked blocked exited blocked task j w.os_state ne in
      rw (old, put_away) (new, other, refl, refl)
  thread_entry_phase2-blocks cpu w (inr e) =
      let task = w.current_task cpu in
      let old = laws.match_set_state_old ready blocked blocked exited blocked task w.os_state ∙ e in
      let new =
        laws.match_set_state_new ready blocked blocked exited blocked task w.os_state
        ∙ ap (next_state ready blocked blocked exited blocked) e in
      let other = λ (j : ℕ) (ne : task ≢ j).
        laws.match_set_state_other ready blocked blocked exited blocked task j w.os_state ne in
      rw (old, put_away) (new, other, refl, refl)

  -- If the current task is Ready or Blocked, it is Running afterwards and nothing but the operating
  -- system's state changes. From any other state the code panics.
  pub start_running_lem :
      (cpu : ℕ) (w : World S)
      → ((may_run (os.state w.os_state (w.current_task cpu)) ≡ true)
          × Returns
              (λ (task, w').
                (task ≡ w.current_task cpu)
                × (os.state w'.os_state task ≡ running)
                × (w' ≡ record w { os_state = w'.os_state }))
              (start_running c os cpu w))
        ⊎ ((may_run (os.state w.os_state (w.current_task cpu)) ≡ false)
            × (start_running c os cpu w ≡ panic))
  unfolding start_running get_current_task set_state
  start_running_lem cpu w =
      let task = w.current_task cpu in
      let old = laws.set_state_old running task w.os_state in
      elim (Bool-cases (may_run (os.state w.os_state task))) [
        | inl yes' ↦
            inl (yes', rw (old, yes') (refl, laws.set_state_new running task w.os_state, refl))
        | inr no' ↦ inr (no', rw (old, no'))
      ]

module _ {S : Type 0} (c : Config) (os : Os S) where
  -- On a CPU with a wait context, where the scheduler is there, the scan passes every valid
  -- process, and one of them has a priority up to `isize::MAX`, the call ends. The CPU goes to
  -- sleep exactly when no valid process has a priority up to LOWEST_PRIORITY for it; IS_SLEEPING
  -- says so either way, and the wait context is the current task.
  pub wait_for_runnable_task_lem :
      (p cpu k : ℕ) (x : Scheduler) (w : World S)
      → p ≢ 0
      → w.schedulers p ≡ some x
      → w.scheduler_wait_context cpu ≢ 0
      → cpu < c.cpu_num
      → 0 < c.process_num
      → IsCovered c w.process_info_table
      → k < c.process_num
      → (w.process_info_table.table k).valid ≡ true
      → (w.process_info_table.table k).highest_prio cpu ≤ isize_max
      → Returns
          (λ (sleeps, w').
            (w'.is_sleeping cpu ≡ sleeps)
            × (w'.current_task cpu ≡ w.scheduler_wait_context cpu)
            × ((sleeps ≡ true) ↔ (
                (i : ℕ)
                → i < c.process_num
                → (w.process_info_table.table i).valid ≡ true
                → c.lowest_priority < (w.process_info_table.table i).highest_prio cpu)))
          (wait_for_runnable_task c os p cpu w)
  unfolding wait_for_runnable_task set_current_task process_schedule scheduler_at
  wait_for_runnable_task_lem p cpu k x w hp hx hc on_cpu size covered lk vk pk =
      let t = w.process_info_table in
      let (pid, found, choice) =
        Returns-done (IsChoice c t cpu size x.global_index)
          (highest_prio_process c x.global_index cpu t)
          (highest_prio_process-IsChoice c t cpu size covered k lk vk pk x.global_index on_cpu) in
      let a : (w.scheduler_wait_context cpu == 0) ≡ false = ground arith in
      let b : (p == 0) ≡ false = ground arith in
      rw (a, b, hx, found)
        (elim (Bool-cases (leb ((t.table pid).highest_prio cpu) c.lowest_priority)) [
          | inl work ↦ rw work (
            ground arith,
            ground arith,
            (λ e. cc, λ all. absurd (ground (arith, all pid choice.0 choice.1))),
          )
          | inr no_work ↦
              rw no_work
                (ground arith, ground arith, (λ _ i l v. ground (arith, choice.2 i l v), λ _. refl))
        ])
