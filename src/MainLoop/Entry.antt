-- ===== src/MainLoop/Entry.antt =====
-- main_loop.rs: `trap_entry`, from a trap of the current task to the number of the code that runs
-- next.
use vsched.Base.{
  ℕ, Bool, true, false, not, Option, none, some, ◌==◌, if◌then◌else◌, update, ok, err,
}
use vsched.Config.{Config}
use vsched.Current.{set_pre_stack, get_current_task}
use vsched.MainLoop.{set_state, push_prev_task}
use vsched.Monad.{M, pure, ◌>>=◌, ◌>>◌, get, modify, lift, fail, check}
use vsched.Os.{Os, TaskState, ready, running, blocked}
use vsched.Scheduler
use vsched.Stacks
use vsched.Stacks.{is_none}

abbrev pub is_running : TaskState → Bool
is_running running = true
is_running _ = false

module _ {S : Type 0} (c : Config) (os : Os S) where
  -- `from_task`, and `push_trap` on the kernel's scheduler, which must not refuse.
  unfoldable pub deliver : ℕ → Option ℕ → ℕ → M S (Unit {0})
  deliver current task cpu = do
    w ← get
    let (trap_info, s) = os.from_task current w.os_state
    modify (λ w. record w { os_state = s })
    res ← Scheduler.push_trap c os w.kernel_scheduler trap_info task cpu cpu
    elim res [ ok _ ↦ pure tt | err _ ↦ fail ]

  -- `set_trap_stack(new_stack).unwrap()`, then `set_current_stack` of the stack in use so far.
  unfoldable pub rotate_stacks : ℕ → ℕ → M S (Unit {0})
  rotate_stacks new_stack cpu = do
    w ← get
    let (old_trap, h) = Stacks.set_trap_stack new_stack cpu w.kernel_stacks
    elim old_trap [
      | none ↦ fail
      | some current ↦ do
        (old, h') ← lift (Stacks.set_current_stack c os current cpu h w.os_state)
        check (is_none old)
        modify (λ w.
            set_pre_stack cpu (os.base w.os_state new_stack) (record w { kernel_stacks = h' }))
    ]

  unfoldable pub fresh_stack : ℕ → M S ℕ
  fresh_stack cpu = do
    w ← get
    let (stack, h, s) = Stacks.alloc_stack c os cpu w.kernel_stacks w.os_state
    modify (λ w. record w { kernel_stacks = h; os_state = s })
    pure stack

  unfoldable pub leave_running : TaskState → ℕ → M S (Unit {0})
  leave_running x task = do old ← set_state c os x task; check (is_running old)

  -- Trap type 0 in the kernel.
  unfoldable pub sync_trap : ℕ → M S ℕ
  sync_trap cpu = do
    w ← get
    check (not (w.is_sleeping cpu))
    stack ← fresh_stack cpu
    rotate_stacks stack cpu
    task ← get_current_task cpu
    leave_running blocked task
    push_prev_task c os blocked cpu
    deliver task (some task) cpu
    pure 1

  -- Trap type 1 in the kernel. A CPU that was asleep gives up the stack it slept on.
  unfoldable pub irq_trap : ℕ → M S ℕ
  irq_trap cpu = do
    task ← get_current_task cpu
    w ← get
    let waiting = w.is_sleeping cpu
    modify (λ w. record w { is_sleeping = update w.is_sleeping cpu false })
    stack ← if waiting then pure (os.thread_stack w.os_state task) else fresh_stack cpu
    rotate_stacks stack cpu
    deliver task none cpu
    if waiting then pure 1 else (do leave_running ready task; push_prev_task c os ready cpu; pure 1)

  -- Traps in user mode end in `unimplemented!` and `todo!`.
  unfoldable pub trap_entry : ℕ → ℕ → ℕ → M S ℕ
  trap_entry trap_type privilege cpu =
      if privilege == 0
      then (do
        modify (λ w. record w { in_kernel = update w.in_kernel cpu true })
        if trap_type == 0
            then sync_trap cpu
            else if trap_type == 1
            then irq_trap cpu
            else if trap_type == 2
            then pure 3
            else fail)
      else if privilege == 1
      then (do
        modify (λ w. record w { in_kernel = update w.in_kernel cpu false })
        if trap_type == 2 then pure 3 else fail)
      else fail
