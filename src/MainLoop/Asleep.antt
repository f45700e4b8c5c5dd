-- ===== src/MainLoop/Asleep.antt =====
-- main_loop.rs: an interrupt on a CPU that is asleep in `wait_irqs`.
use vsched.Base.{
  ℕ, suc, ◌<◌, ◌≡◌, ◌≢◌, refl, ap, sym, subst, ◌∙◌, true, false, Option, some, none, List, [], ◌∷◌,
  ◌++◌, arith, Result, length, update, done, Returns, Returns-done, Returns-map,
}
use vsched.Config.{Config, IsUsable}
use vsched.Current.{get_current_task}
use vsched.MainLoop.{jump, kschedule}
use vsched.MainLoop.Choose.{IsBest}
use vsched.MainLoop.Entry.{deliver, rotate_stacks, irq_trap}
use vsched.MainLoop.Rounds.{kschedule-trap}
use vsched.Os.{Os, TaskLaws, blocked}
use vsched.Process.Best.{IsCovered}
use vsched.Scheduler
use vsched.Scheduler.Own.{IsOwn, move-IsOwn}
use vsched.Scheduler.Deliver.{IsDelivered, recorded, push_trap-IsDelivered, push_trap-recorded}
use vsched.Stacks.{StackHandler, set_trap_stack, set_current_stack, in_use}
use vsched.Stacks.Exclusive.{free_to_use}
use vsched.TrapWaitQueue
use vsched.World.{World, Scheduler}

module _ {S : Type 0} (c : Config) (os : Os S) where
  -- The stacks of a CPU that slept, with the one that it slept on as the next trap stack.
  abbrev pub woken : ℕ → ℕ → World S → World S
  woken current cpu w =
      let stack = os.thread_stack w.os_state (w.current_task cpu) in
      let h = (set_trap_stack stack cpu w.kernel_stacks).1 in
      record w {
        is_sleeping = update w.is_sleeping cpu false;
        kernel_stacks = record h { current_stack = update h.current_stack cpu (some current) };
        pre_stack = update w.pre_stack cpu (os.base w.os_state stack);
      }

  rotate_stacks-woken :
      (cpu current : ℕ) (w : World S)
      → w.kernel_stacks.trap_stack cpu ≡ some current
      → w.kernel_stacks.current_stack cpu ≡ none
      → ((i : ℕ) → i < c.cpu_num → i ≢ cpu → w.kernel_stacks.current_stack i ≢ some current)
      → rotate_stacks c os
          (os.thread_stack w.os_state (w.current_task cpu))
          cpu
          (record w { is_sleeping = update w.is_sleeping cpu false })
        ≡ done (tt, woken current cpu w)
  unfolding rotate_stacks set_trap_stack set_current_stack
  rotate_stacks-woken cpu current w had unused free =
      let stack = os.thread_stack w.os_state (w.current_task cpu) in
      let h = w.kernel_stacks in
      let h' : StackHandler = record h { trap_stack = update h.trap_stack cpu (some stack) } in
      let idle : in_use c os c.cpu_num current cpu h' w.os_state ≡ false =
        free_to_use c os c.cpu_num current cpu h' w.os_state free in
      ground (arith, had, idle, unused)

module _ {S : Type 0} (c : Config) (u : IsUsable c) (os : Os S) (laws : TaskLaws os) where
  -- The trap that the interrupt makes of the wait context.
  abbrev pub wake_trap : ℕ → World S → ℕ × S
  wake_trap cpu w = os.from_task (w.current_task cpu) w.os_state

  irq_trap-woken :
      (cpu current : ℕ) (x : Scheduler) (w : World S)
      → cpu < c.cpu_num
      → w.is_sleeping cpu ≡ true
      → w.kernel_stacks.trap_stack cpu ≡ some current
      → w.kernel_stacks.current_stack cpu ≡ none
      → ((i : ℕ) → i < c.cpu_num → i ≢ cpu → w.kernel_stacks.current_stack i ≢ some current)
      → IsOwn c w.kernel_scheduler x w
      → length (x.trap_wait_queue.queues cpu) < c.trap_wait_queue_size
      → Returns
          (λ (res, w').
            (res ≡ 1)
            × IsDelivered c w.kernel_scheduler cpu (wake_trap cpu w).0 none x w'
            × (w'.process_info_table
                ≡ (recorded c u os x.global_index cpu c.highest_priority w).process_info_table)
            × (w' ≡ record (woken c os current cpu w) {
              os_state = (wake_trap cpu w).1;
              schedulers = w'.schedulers;
              process_info_table = w'.process_info_table;
            }))
          (irq_trap c os cpu w)
  unfolding irq_trap get_current_task deliver
  irq_trap-woken cpu current x w h asleep trap none_yet free o room =
      let p = w.kernel_scheduler in
      let made = wake_trap cpu w in
      let w2 = record (woken c os current cpu w) { os_state = made.1 } in
      let r = rotate_stacks-woken c os cpu current w trap none_yet free in
      let o2 = move-IsOwn c u os p x w w2 o.there o in
      let ((res, w'), pushed, (worked, delivered, same)) =
        Returns-done _ (Scheduler.push_trap c os p made.0 none cpu cpu w2)
          (push_trap-IsDelivered c u os p cpu made.0 none x w2 h o2 room) in
      let written =
        subst
          (Returns (λ (res, v).
            v.process_info_table
            ≡ (recorded c u os x.global_index cpu c.highest_priority w2).process_info_table))
          pushed (push_trap-recorded c u os p cpu made.0 none x w2 h o2 room) in
      let taken = pushed ∙ ap (λ (r : Result (Unit {0}) (ℕ × Option ℕ)). done (r, w')) worked in
      rw (asleep, r, taken) (refl, delivered, written, same)

  -- With HIGHEST_PRIORITY recorded for it, the kernel comes first if no process had that before.
  recorded-IsBest :
      (cpu : ℕ) (w : World S)
      → IsCovered c w.process_info_table
      → (w.process_info_table.table 0).valid ≡ true
      → ((i : ℕ)
          → i < c.process_num
          → (w.process_info_table.table i).valid ≡ true
          → i ≢ 0
          → c.highest_priority < (w.process_info_table.table i).highest_prio cpu)
      → IsBest c u os 0 cpu (recorded c u os 0 cpu c.highest_priority w).process_info_table
  recorded-IsBest cpu w covered valid later = record {
    covered = λ i l v. covered i l (ground arith);
    small = u.some_process;
    valid = ground arith;
    bounded = ground (arith, u.ordered, u.below_max);
    first = λ i l v ne. ground (arith, later i l);
  }

  -- With task states as documented: a CPU that is asleep with one trap stack, which no other CPU has
  -- as its current one, gets an interrupt, while it has no trap to handle, no process comes up to
  -- HIGHEST_PRIORITY for it, the kernel's scheduler has its own two sources, and the first free
  -- handler is Blocked once the trap is made. `trap_entry` then wakes the CPU with 1, for
  -- kschedule, the stack that it slept on is its trap stack, and the first round of kschedule
  -- chooses the handler, which is the current task when it ends with 0, for `run_task`; the trap is
  -- queued for it.
  pub irq_trap-handled :
      (rounds cpu current handler : ℕ) (idle : List ℕ) (x : Scheduler) (w : World S)
      → cpu < c.cpu_num
      → w.is_sleeping cpu ≡ true
      → w.kernel_stacks.trap_stack cpu ≡ some current
      → w.kernel_stacks.current_stack cpu ≡ none
      → ((i : ℕ) → i < c.cpu_num → i ≢ cpu → w.kernel_stacks.current_stack i ≢ some current)
      → IsOwn c w.kernel_scheduler x w
      → x.global_index ≡ 0
      → x.trap_wait_queue.queues cpu ≡ []
      → 0 < c.trap_wait_queue_size
      → x.trap_wait_queue.idle_handlers ≡ handler ∷ idle
      → os.state (wake_trap cpu w).1 handler ≡ blocked
      → handler ≢ 0
      → IsCovered c w.process_info_table
      → (w.process_info_table.table 0).valid ≡ true
      → ((i : ℕ)
          → i < c.process_num
          → (w.process_info_table.table i).valid ≡ true
          → i ≢ 0
          → c.highest_priority < (w.process_info_table.table i).highest_prio cpu)
      → Returns
          (λ (res, w1).
            (res ≡ 1)
            × (w1.is_sleeping cpu ≡ false)
            × (w1.kernel_stacks.trap_stack cpu
                ≡ some (os.thread_stack w.os_state (w.current_task cpu)))
            × Returns
                (λ (turn, w2).
                  (turn ≡ jump 0)
                  × (w2.current_task cpu ≡ handler)
                  × (after : Scheduler) × (w2.schedulers w1.kernel_scheduler ≡ some after)
                  × (after.trap_wait_queue.queues cpu ≡ ((wake_trap cpu w).0, none) ∷ []))
                (kschedule c os (suc rounds) cpu w1))
          (irq_trap c os cpu w)
  unfolding set_trap_stack TrapWaitQueue.task_pid
  irq_trap-handled rounds cpu current handler idle x w h asleep trap none_yet free o zero_index
        quiet room handlers is_blocked ne covered valid later =
      Returns-map _ _ (irq_trap c os cpu w)
        (irq_trap-woken cpu current x w h asleep trap none_yet free o
          (ground (arith, ap (λ l. length l) quiet)))
        (λ (res, w1) (one, delivered, written, same).
          let y = delivered.after in
          let kernel : w1.kernel_scheduler ≡ w.kernel_scheduler =
            ap (λ v. v.kernel_scheduler) same in
          let queue : y.trap_wait_queue.queues cpu ≡ ((wake_trap cpu w).0, none) ∷ [] =
            delivered.queue ∙ ap (λ l. l ++ ((wake_trap cpu w).0, none) ∷ []) quiet in
          let at_zero =
            written
            ∙ ap (λ i. (recorded c u os i cpu c.highest_priority w).process_info_table)
                zero_index in
          let best =
            subst (IsBest c u os 0 cpu) (sym at_zero) (recorded-IsBest cpu w covered valid later) in
          let own = subst (λ p. IsOwn c p y w1) (sym kernel) delivered.own in
          (
            one,
            ap (λ v. v.is_sleeping cpu) same ∙ ground arith,
            ap (λ v. v.kernel_stacks.trap_stack cpu) same ∙ ground arith,
            Returns-map _ _ (kschedule c os (suc rounds) cpu w1)
                (kschedule-trap c u os laws rounds cpu (wake_trap cpu w).0 handler none [] idle y w1
                  (delivered.index ∙ zero_index) h best own queue (delivered.handlers ∙ handlers)
                  (ap (λ v. os.state v.os_state handler) same ∙ is_blocked) ne u.some_process)
                (λ (turn, w2) (ends, task, space, left). (
                  ends,
                  task,
                  record y {
                    trap_wait_queue = record {
                      queues = y.trap_wait_queue.queues;
                      idle_handlers = idle;
                    };
                  },
                  left,
                  queue,
                )),
          ))
