-- ===== src/MainLoop/Traps.antt =====
-- main_loop.rs: a trap of the current task in the kernel that is no interrupt.
use vsched.Base.{
  ℕ, ◌<◌, ◌≡◌, ◌≢◌, refl, ap, sym, update, ◌∙◌, false, Option, some, none, arith, Result, length,
  done, Returns, Returns-done,
}
use vsched.Config.{Config, IsUsable}
use vsched.Current.{get_current_task}
use vsched.MainLoop.{push_prev_task, set_state}
use vsched.MainLoop.Entry.{deliver, rotate_stacks, fresh_stack, leave_running, sync_trap}
use vsched.Os.{Os, TaskLaws, running, blocked}
use vsched.Scheduler
use vsched.Scheduler.Own.{IsOwn, move-IsOwn}
use vsched.Scheduler.Deliver.{IsDelivered, push_trap-IsDelivered}
use vsched.Stacks
use vsched.Stacks.{StackHandler, set_trap_stack, set_current_stack, in_use}
use vsched.Stacks.Exclusive.{free_to_use}
use vsched.World.{World, Scheduler}

module _ {S : Type 0} (c : Config) (os : Os S) where
  -- The pool once a stack is taken from it changes no stack in use.
  alloc_stack_lem :
      (cpu : ℕ) (h : StackHandler) (s : S)
      → ((Stacks.alloc_stack c os cpu h s).1.current_stack ≡ h.current_stack)
        × ((Stacks.alloc_stack c os cpu h s).1.trap_stack ≡ h.trap_stack)
  unfolding Stacks.alloc_stack
  alloc_stack_lem cpu h s = ground arith

  -- `rotate_stacks` after `fresh_stack`.
  abbrev pub rotated : ℕ → ℕ → World S → World S
  rotated current cpu w =
      let (stack, h, s) = Stacks.alloc_stack c os cpu w.kernel_stacks w.os_state in
      let h' = (set_trap_stack stack cpu h).1 in
      record w {
        os_state = s;
        kernel_stacks = record h' { current_stack = update h'.current_stack cpu (some current) };
        pre_stack = update w.pre_stack cpu (os.base s stack);
      }

  pub rotate_stacks_lem :
      (cpu current : ℕ) (w : World S)
      → w.kernel_stacks.trap_stack cpu ≡ some current
      → w.kernel_stacks.current_stack cpu ≡ none
      → ((i : ℕ) → i < c.cpu_num → i ≢ cpu → w.kernel_stacks.current_stack i ≢ some current)
      → let (stack, h, s) = Stacks.alloc_stack c os cpu w.kernel_stacks w.os_state in
        rotate_stacks c os stack cpu (record w { kernel_stacks = h; os_state = s })
        ≡ done (tt, rotated current cpu w)
  unfolding rotate_stacks set_trap_stack set_current_stack
  rotate_stacks_lem cpu current w trap none_yet free =
      let (stack, h, s) = Stacks.alloc_stack c os cpu w.kernel_stacks w.os_state in
      let (currents, traps) = alloc_stack_lem cpu w.kernel_stacks w.os_state in
      let h' : StackHandler = record h { trap_stack = update h.trap_stack cpu (some stack) } in
      let had : h.trap_stack cpu ≡ some current = ap (λ (f : ℕ → Option ℕ). f cpu) traps ∙ trap in
      let unused : h.current_stack cpu ≡ none =
        ap (λ (f : ℕ → Option ℕ). f cpu) currents ∙ none_yet in
      let idle : in_use c os c.cpu_num current cpu h' s ≡ false =
        free_to_use c os c.cpu_num current cpu h' s
          (λ i l ne e. free i l ne (sym (ap (λ (f : ℕ → Option ℕ). f i) currents) ∙ e)) in
      ground (arith, had, idle, unused)

  rotated_stacks :
      (cpu current : ℕ) (w : World S)
      → ((rotated current cpu w).kernel_stacks.current_stack cpu ≡ some current)
        × ((rotated current cpu w).kernel_stacks.trap_stack cpu
            ≡ some (Stacks.alloc_stack c os cpu w.kernel_stacks w.os_state).0)
  unfolding set_trap_stack
  rotated_stacks cpu current w = ground arith

  -- The state that `from_task` finds: the stacks are rotated and the task is Blocked.
  abbrev pub interrupted : ℕ → ℕ → World S → World S
  interrupted current cpu w =
      let w1 = rotated current cpu w in
      record w1 { os_state = (os.set_state blocked (w.current_task cpu) w1.os_state).1 }

module _ {S : Type 0} (c : Config) (u : IsUsable c) (os : Os S) (laws : TaskLaws os) where
  -- A trap in the kernel that is no interrupt, on a CPU that is awake and between two stacks, the
  -- trap stack and no other, which no other CPU has: if the current task is Running, the kernel's
  -- scheduler has its own two sources, and there is room in the CPU's queue, then the task is
  -- Blocked when its trap is made; the trap stands last in the CPU's queue, with the task as the one
  -- that waits; the process table gives the CPU HIGHEST_PRIORITY; the former trap stack is the
  -- current one, and the new trap stack comes from the pool; the result is 1, for kschedule.
  pub sync_trap-IsDelivered :
      (cpu current : ℕ) (x : Scheduler) (w : World S)
      → cpu < c.cpu_num
      → w.is_sleeping cpu ≡ false
      → w.kernel_stacks.trap_stack cpu ≡ some current
      → w.kernel_stacks.current_stack cpu ≡ none
      → ((i : ℕ) → i < c.cpu_num → i ≢ cpu → w.kernel_stacks.current_stack i ≢ some current)
      → os.state (rotated c os current cpu w).os_state (w.current_task cpu) ≡ running
      → IsOwn c w.kernel_scheduler x w
      → length (x.trap_wait_queue.queues cpu) < c.trap_wait_queue_size
      → let task = w.current_task cpu in
        let w1 = interrupted c os current cpu w in
        let (trap_info, s) = os.from_task task w1.os_state in
        (os.state w1.os_state task ≡ blocked)
        × Returns
            (λ (res, w').
              (res ≡ 1)
              × IsDelivered c w.kernel_scheduler cpu trap_info (some task) x w'
              × (w'.os_state ≡ s)
              × (w'.kernel_stacks.current_stack cpu ≡ some current)
              × (w'.kernel_stacks.trap_stack cpu
                  ≡ some (Stacks.alloc_stack c os cpu w.kernel_stacks w.os_state).0))
            (sync_trap c os cpu w)
  unfolding sync_trap fresh_stack get_current_task leave_running set_state push_prev_task deliver
      set_trap_stack
  sync_trap-IsDelivered cpu current x w h awake trap none_yet free runs o room =
      let task = w.current_task cpu in
      let w1 = interrupted c os current cpu w in
      let made = os.from_task task w1.os_state in
      let w2 = record w1 { os_state = made.1 } in
      let r = rotate_stacks_lem c os cpu current w trap none_yet free in
      let old = laws.set_state_old blocked task (rotated c os current cpu w).os_state ∙ runs in
      let o2 = move-IsOwn c u os w.kernel_scheduler x w w2 o.there o in
      let ((res, w'), pushed, (worked, delivered, same)) =
        Returns-done _ (Scheduler.push_trap c os w.kernel_scheduler made.0 (some task) cpu cpu w2)
          (push_trap-IsDelivered c u os w.kernel_scheduler cpu made.0 (some task) x w2 h o2 room) in
      let taken = pushed ∙ ap (λ (r : Result (Unit {0}) (ℕ × Option ℕ)). done (r, w')) worked in
      (
        laws.set_state_new blocked task (rotated c os current cpu w).os_state,
        rw (awake, r, old, push_prev_task, taken)
            (
              refl,
              delivered,
              ap (λ v. v.os_state) same,
              ap (λ v. v.kernel_stacks.current_stack cpu) same
                  ∙ (rotated_stacks c os cpu current w).0,
              ap (λ v. v.kernel_stacks.trap_stack cpu) same ∙ (rotated_stacks c os cpu current w).1,
            ),
      )
