-- ===== src/MainLoop/Interrupts.antt =====
-- main_loop.rs: an interrupt in the kernel that comes while a kernel task runs.
use vsched.Base.{
  ℕ, ◌-◌, ◌≤◌, ◌<◌, ◌≡◌, ◌≢◌, refl, ap, ◌∙◌, true, false, Option, some, none, ◌∷◌, [], ◌++◌, arith,
  ok, Result, length, update, done, Returns, Returns-done, Returns-map, inl, inr,
}
use vsched.Config.{Config, IsUsable}
use vsched.Current.{get_current_task}
use vsched.MainLoop.{push_prev_task, set_state, push_back, home_of}
use vsched.MainLoop.Entry.{deliver, fresh_stack, leave_running, irq_trap}
use vsched.MainLoop.Traps.{rotated, rotate_stacks_lem}
use vsched.Monad.{M, pure, ◌>>=◌, ◌>>◌}
use vsched.Os.{Os, TaskLaws, ready, running}
use vsched.Scheduler
use vsched.Scheduler.Own.{IsOwn, move-IsOwn}
use vsched.Scheduler.Deliver.{push_trap-IsDelivered}
use vsched.Scheduler.Push.{IsQueued, push_task-IsQueued}
use vsched.World.{World, Scheduler}

module _ {S : Type 0} (c : Config) (os : Os S) where
  -- The operating system's state once the trap is made, and once the task is Ready again.
  abbrev pub trap_made : ℕ → ℕ → World S → ℕ × S
  trap_made current cpu w = os.from_task (w.current_task cpu) (rotated c os current cpu w).os_state

  abbrev pub preempted : ℕ → ℕ → World S → S
  preempted current cpu w = (os.set_state ready (w.current_task cpu) (trap_made current cpu w).1).1

  home_of-kernel :
      (task : ℕ) (w : World S)
      → os.is_kernel w.os_state task ≡ true
      → home_of c os task w ≡ done (w.kernel_scheduler, w)
  unfolding home_of
  home_of-kernel task w e = rw e

-- Both queues of the scheduler at `p` have grown: the trap stands last in the CPU's queue, and the
-- task last in the queue of its level.
pub record IsPreempted {S : Type 0} (c : Config) (p cpu level trap_info task : ℕ) (x : Scheduler)
    (w' : World S) : Type 0 where
  pub after : Scheduler
  pub own : IsOwn c p after w'
  pub traps :
      after.trap_wait_queue.queues cpu ≡ x.trap_wait_queue.queues cpu ++ (trap_info, none) ∷ []
  pub tasks :
      after.ready_queue.queues
      ≡ update x.ready_queue.queues level (x.ready_queue.queues level ++ task ∷ [])

module _ {S : Type 0} (c : Config) (u : IsUsable c) (os : Os S) (laws : TaskLaws os) where
  -- The end of `irq_trap`, from the state `v` that `push_trap` left.
  abbrev requeue : ℕ → M S ℕ
  requeue cpu = do
    task ← get_current_task cpu
    leave_running c os ready task
    push_prev_task c os ready cpu
    pure 1

  requeue-IsQueued :
      (cpu : ℕ) (x : Scheduler) (v : World S)
      → let task = v.current_task cpu in
        let v1 = record v { os_state = (os.set_state ready task v.os_state).1 } in
        let level = os.priority v1.os_state task - c.highest_priority in
        cpu < c.cpu_num
        → os.state v.os_state task ≡ running
        → os.is_kernel v1.os_state task ≡ true
        → c.highest_priority ≤ os.priority v1.os_state task
        → os.priority v1.os_state task ≤ c.lowest_priority
        → IsOwn c v.kernel_scheduler x v
        → length (x.ready_queue.queues level) < c.ready_queue_size
        → Returns
            (λ (res, w').
              (res ≡ 1)
              × IsQueued c v.kernel_scheduler level task x v1 w'
              × (os.state w'.os_state task ≡ ready))
            (requeue cpu v)
  unfolding get_current_task leave_running set_state push_prev_task push_back
  requeue-IsQueued cpu x v h runs kernel above below o space =
      let p = v.kernel_scheduler in
      let task = v.current_task cpu in
      let v1 = record v { os_state = (os.set_state ready task v.os_state).1 } in
      let old = laws.set_state_old ready task v.os_state ∙ runs in
      let home = home_of-kernel c os task v1 kernel in
      let ((res, w'), pushed, result) = Returns-done _ (Scheduler.push_task c os p task cpu v1) (
        push_task-IsQueued c u os p cpu task x v1 h (move-IsOwn c u os p x v v1 o.there o) above
          below) in
      elim result [
        | inl (worked, queued) ↦
            let in_queue = pushed ∙ ap (λ (r : Result (Unit {0}) ℕ). done (r, w')) worked in
            rw (old, push_prev_task, home, in_queue)
              (
                refl,
                queued,
                ap (λ s. os.state s task) queued.same_os ∙ laws.set_state_new ready task v.os_state,
              )
        | inr (full, size, _, _) ↦ absurd (omega (arith, size, space))
      ]

  -- An interrupt on a CPU that is awake and whose stacks are as for `sync_trap`, while a kernel task
  -- with a priority in range runs, and where the kernel's scheduler has its own two sources and room
  -- in both queues: the trap stands last in the CPU's queue, with no task that waits for it; the
  -- task is Ready and stands last in the queue of its priority; the result is 1, for kschedule.
  pub irq_trap-IsPreempted :
      (cpu current : ℕ) (x : Scheduler) (w : World S)
      → cpu < c.cpu_num
      → w.is_sleeping cpu ≡ false
      → w.kernel_stacks.trap_stack cpu ≡ some current
      → w.kernel_stacks.current_stack cpu ≡ none
      → ((i : ℕ) → i < c.cpu_num → i ≢ cpu → w.kernel_stacks.current_stack i ≢ some current)
      → let task = w.current_task cpu in
        let s = preempted c os current cpu w in
        let level = os.priority s task - c.highest_priority in
        os.state (trap_made c os current cpu w).1 task ≡ running
        → os.is_kernel s task ≡ true
        → c.highest_priority ≤ os.priority s task
        → os.priority s task ≤ c.lowest_priority
        → IsOwn c w.kernel_scheduler x w
        → length (x.trap_wait_queue.queues cpu) < c.trap_wait_queue_size
        → length (x.ready_queue.queues level) < c.ready_queue_size
        → Returns
            (λ (res, w').
              (res ≡ 1)
              × IsPreempted c w.kernel_scheduler cpu level
                  (trap_made c os current cpu w).0
                  task
                  x
                  w'
              × (os.state w'.os_state task ≡ ready))
            (irq_trap c os cpu w)
  unfolding irq_trap fresh_stack get_current_task leave_running set_state push_prev_task push_back
      deliver
  irq_trap-IsPreempted cpu current x w h awake trap none_yet free runs kernel above below o room
        space =
      let p = w.kernel_scheduler in
      let task = w.current_task cpu in
      let w0 = record w { is_sleeping = update w.is_sleeping cpu false } in
      let made = trap_made c os current cpu w in
      let w2 = record (rotated c os current cpu w0) { os_state = made.1 } in
      let r = rotate_stacks_lem c os cpu current w0 trap none_yet free in
      let ((res, w'), pushed, (worked, delivered, same)) =
        Returns-done _ (Scheduler.push_trap c os p made.0 none cpu cpu w2) (
          push_trap-IsDelivered c u os p cpu made.0 none x w2 h
            (move-IsOwn c u os p x w w2 o.there o) room) in
      let v = record w2 {
        schedulers = w'.schedulers;
        process_info_table = w'.process_info_table;
      } in
      let taken =
        pushed
        ∙ ap (λ (r : Result (Unit {0}) (ℕ × Option ℕ)). done (r, w')) worked
        ∙ ap (λ (z : World S). done (ok tt, z)) same in
      let x1 = delivered.after in
      let level = os.priority (preempted c os current cpu w) task - c.highest_priority in
      let same_tasks = delivered.ready_tasks in
      let fits : length (x1.ready_queue.queues level) < c.ready_queue_size =
        omega (arith, space, ap (λ q. length (q.queues level)) same_tasks) in
      rw (awake, r, taken)
        (Returns-map _ _ (requeue cpu v)
          (requeue-IsQueued cpu x1 v h runs kernel above below
            (move-IsOwn c u os p x1 w' v delivered.own.there delivered.own) fits)
          (λ (res, w'') (one, queued, is_ready). (
            one,
            record {
              after = queued.after;
              own = queued.own;
              traps = ap (λ q. q.queues cpu) queued.traps ∙ delivered.queue;
              tasks =
                  queued.queues
                  ∙ ap (λ q. update q.queues level (q.queues level ++ task ∷ [])) same_tasks;
            },
            is_ready,
          )))
