-- ===== src/MainLoop/Rounds.antt =====
-- main_loop.rs: a round of `kschedule`, from the choice of a process to its first task.
use vsched.Base.{
  ℕ, suc, ◌<◌, ◌≡◌, ◌≢◌, refl, ap, ◌∙◌, true, false, Option, some, List, [], ◌∷◌, arith, ◌==◌, done,
  Returns, Returns-done, Returns-map,
}
use vsched.Config.{Config, IsUsable}
use vsched.Current.{scheduler_at, set_current_task}
use vsched.MainLoop.{jump, switch_vspace, run_next_kernel, ktask_schedule, kernel_loop, kschedule}
use vsched.Os.{Os, TaskLaws, blocked}
use vsched.ReadyQueue
use vsched.ReadyQueue.Order.{contents}
use vsched.Scheduler.{pop_task}
use vsched.Scheduler.Own.{IsOwn}
use vsched.Scheduler.Pop.{pop_task-ready}
use vsched.Scheduler.Traps.{pop_task-trap}
use vsched.TrapWaitQueue
use vsched.World.{World, Scheduler}
use vsched.MainLoop.Choose.{IsBest, process_schedule_lem}
use vsched.MainLoop.Spaces.{switch_vspace-Returns}

module _ {S : Type 0} (c : Config) (u : IsUsable c) (os : Os S) where
  -- What is left of a round of the kernel once the kernel's scheduler has given a task.
  runs_popped :
      (rounds cpu task prio : ℕ) (k : Scheduler) (w w2 : World S)
      → w.kernel_scheduler ≢ 0
      → w.schedulers w.kernel_scheduler ≡ some k
      → k.global_index ≡ 0
      → cpu < c.cpu_num
      → IsBest c u os 0 cpu w.process_info_table
      → pop_task c os w.kernel_scheduler cpu w ≡ done ((some task, prio), w2)
      → os.pid w2.os_state task < c.process_num
      → Returns
          (λ (turn, w').
            (turn ≡ jump 0)
            × (w'.current_task cpu ≡ task)
            × (w'.current_vspace cpu ≡ os.pid w2.os_state task)
            × (w'.schedulers ≡ w2.schedulers))
          (kschedule c os (suc rounds) cpu w)
  unfolding kschedule scheduler_at kernel_loop ktask_schedule run_next_kernel set_current_task
  runs_popped rounds cpu task prio k w w2 nk there zero_index on_cpu best popped small =
      let bk : (w.kernel_scheduler == 0) ≡ false = ground (arith, nk) in
      let b0 : (k.global_index == 0) ≡ true = ground arith in
      let chosen = process_schedule_lem c u os 0 w.kernel_scheduler cpu k w nk there on_cpu best in
      let ((_, w3), switched, (at, kept)) =
        Returns-done _ (switch_vspace c os cpu (os.pid w2.os_state task) w2)
          (switch_vspace-Returns c os cpu (os.pid w2.os_state task) w2 small) in
      rw (bk, there, b0, chosen, popped, switched)
        (refl, ground arith, at, ap (λ v. v.schedulers) kept)

  -- Where the kernel comes before all processes, and its scheduler has its own two sources, no trap
  -- for this CPU, and a ready task with a process number: `kschedule` ends in its first round, with
  -- 0 for `run_task`. The oldest ready task of the highest priority is the current task, in its
  -- address space, and the rest stays queued in its order.
  pub kschedule-kernel :
      (rounds cpu task : ℕ) (rest : List ℕ) (x : Scheduler) (w : World S)
      → x.global_index ≡ 0
      → cpu < c.cpu_num
      → IsBest c u os 0 cpu w.process_info_table
      → IsOwn c w.kernel_scheduler x w
      → x.trap_wait_queue.queues cpu ≡ []
      → contents c x.ready_queue ≡ task ∷ rest
      → task ≢ 0
      → os.pid w.os_state task < c.process_num
      → Returns
          (λ (turn, w').
            (q : ReadyQueue.ReadyQueue) × (turn ≡ jump 0)
            × (w'.current_task cpu ≡ task)
            × (w'.current_vspace cpu ≡ os.pid w.os_state task)
            × (w'.schedulers w.kernel_scheduler ≡ some (record x { ready_queue = q }))
            × (contents c q ≡ rest))
          (kschedule c os (suc rounds) cpu w)
  kschedule-kernel rounds cpu task rest x w zero_index on_cpu best own quiet e ne small =
      let p = w.kernel_scheduler in
      let (((popped, prio), w2), popping, (q, e1, left, e2, kept)) =
        Returns-done _ (pop_task c os p cpu w)
          (pop_task-ready c u os p cpu task rest x w on_cpu own quiet e ne) in
      let took = popping ∙ ap (λ f. done ((f, prio), w2)) e1 in
      let same : os.pid w2.os_state task ≡ os.pid w.os_state task =
        ap (λ v. os.pid v.os_state task) kept in
      Returns-map _ _ (kschedule c os (suc rounds) cpu w)
        (runs_popped rounds cpu task prio x w w2 own.not_null own.there zero_index on_cpu best took
          (omega (arith, same)))
        (λ (turn, w') (ends, current, space, queues).
          (q, ends, current, space ∙ same, ap (λ f. f p) queues ∙ left, e2))

  -- With task states as documented, where the kernel comes before all processes, its scheduler has
  -- its own two sources, this CPU has a trap to handle, and a blocked handler is the first of the
  -- free ones: `kschedule` ends in its first round, with 0 for `run_task`, and that handler is the
  -- current task, whatever tasks are ready. The traps stay queued for it.
  pub kschedule-trap :
      (laws : TaskLaws os)
      → (rounds cpu trap_info handler : ℕ) (task : Option ℕ) (rest : List (ℕ × Option ℕ))
        (idle : List ℕ) (x : Scheduler) (w : World S)
      → x.global_index ≡ 0
      → cpu < c.cpu_num
      → IsBest c u os 0 cpu w.process_info_table
      → IsOwn c w.kernel_scheduler x w
      → x.trap_wait_queue.queues cpu ≡ (trap_info, task) ∷ rest
      → x.trap_wait_queue.idle_handlers ≡ handler ∷ idle
      → os.state w.os_state handler ≡ blocked
      → handler ≢ 0
      → TrapWaitQueue.task_pid c os task w.os_state < c.process_num
      → Returns
          (λ (turn, w').
            (turn ≡ jump 0)
            × (w'.current_task cpu ≡ handler)
            × (w'.current_vspace cpu ≡ TrapWaitQueue.task_pid c os task w.os_state)
            × (w'.schedulers w.kernel_scheduler
                ≡ some (record x {
                  trap_wait_queue = record {
                    queues = x.trap_wait_queue.queues;
                    idle_handlers = idle;
                  };
                })))
          (kschedule c os (suc rounds) cpu w)
  kschedule-trap laws rounds cpu trap_info handler task rest idle x w zero_index on_cpu best own e f
        g ne small =
      let p = w.kernel_scheduler in
      let (((popped, prio), w2), popping, (e1, _, pid, left)) =
        Returns-done _ (pop_task c os p cpu w) (
          pop_task-trap c u os laws p cpu trap_info handler task rest idle x w on_cpu own e f g
            ne) in
      let took = popping ∙ ap (λ f. done ((f, prio), w2)) e1 in
      Returns-map _ _ (kschedule c os (suc rounds) cpu w)
        (runs_popped rounds cpu handler prio x w w2 own.not_null own.there zero_index on_cpu best
          took (omega (arith, pid)))
        (λ (turn, w') (ends, current, space, queues).
          (ends, current, space ∙ pid, ap (λ f. f p) queues ∙ left))
