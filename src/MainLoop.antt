-- ===== src/MainLoop.antt =====
-- main_loop.rs: the scheduling loop. The functions run on CPU `cpu` with interrupts off. Those that
-- the user's instance runs take the addresses that USER_SCHEDULER and STACK_HANDLER have there.
pub mod Entry
pub mod Run
pub mod Handler
pub mod States
pub mod Yield
pub mod Traps
pub mod Wake
pub mod Serve
pub mod Interrupts
pub mod Choose
pub mod Spaces
pub mod Rounds
pub mod Handover
pub mod Asleep
use vsched.Base.{
  ℕ, zero, suc, ◌+◌, ◌-◌, ◌≤◌, ◌<◌, Bool, true, false, not, ◌&&◌, ◌||◌, Option, none, some, ltb,
  leb, ◌==◌, if◌then◌else◌, update, Outcome, done, panic, spinning, Result, ok, err,
}
use vsched.Config.{Config}
use vsched.Current.{
  scheduler_at, put_scheduler, put_stacks, stacks_at, set_current_task, get_current_task,
  get_user_data,
}
use vsched.Monad.{M, pure, ◌>>=◌, ◌>>◌, get, modify, lift, fail, check}
use vsched.Os.{Os, TaskState, ready, running, blocked, exited, blocking}
use vsched.Process.{highest_prio_process}
use vsched.Scheduler
use vsched.Stacks.{StackHandler}
use vsched.Stacks
use vsched.World.{World}

-- How a run of the kernel's loop ends: with a number for the code that called it, or with the CPU
-- asleep in `wait_irqs`, from which the next interrupt leaves by `trap_entry`.
pub data Turn : Type 0 where
  jump : ℕ → Turn
  asleep : Turn

-- How a function that gives the CPU away ends.
pub data Transfer : Type 0 where
  into_coroutine : ℕ → Transfer
  into_thread : ℕ → Transfer
  into_user : ℕ → Transfer
  into_user_context : ℕ → Transfer
  into_kernel : Transfer

module _ {S : Type 0} (c : Config) (os : Os S) where
  abbrev put_os : S → World S → World S
  put_os s w = record w { os_state = s }

  unfoldable pub set_state : TaskState → ℕ → M S TaskState
  set_state x task = do
    w ← get
    let (old, s) = os.set_state x task w.os_state
    modify (put_os s)
    pure old

  -- `match_set_state(Ready, Blocked, Blocked, Exited, Blocked)`.
  unfoldable pub settle : ℕ → M S TaskState
  settle task = do
    w ← get
    let (old, s) = os.match_set_state ready blocked blocked exited blocked task w.os_state
    modify (put_os s)
    pure old

  unfoldable pub switch_vspace : ℕ → ℕ → M S (Unit {0})
  switch_vspace cpu pid = do
    w ← get
    let prev = w.current_vspace cpu
    modify (λ w. record w { current_vspace = update w.current_vspace cpu pid })
    let vspace = (w.process_info_table.table pid).vspace
    if pid == prev
        then pure tt
        else if leb c.process_num pid
        then fail
        else if vspace == 0
        then pure tt
        else modify (λ w. put_os (os.into_vspace vspace w.os_state) w)

  -- Where `push_prev_task` puts a task that is ready.
  unfoldable pub home_of : ℕ → M S ℕ
  home_of task = do
    w ← get
    let pid = os.pid w.os_state task
    let p = (w.process_info_table.table pid).scheduler
    if os.is_kernel w.os_state task
        then pure w.kernel_scheduler
        else if leb c.process_num pid
        then fail
        else pure (if p == 0 then w.kernel_scheduler else p)

  unfoldable pub push_back : ℕ → ℕ → M S (Unit {0})
  push_back cpu task = do
    target ← home_of task
    res ← Scheduler.push_task c os target task cpu
    elim res [ ok _ ↦ pure tt | err _ ↦ fail ]

  unfoldable pub push_prev_task : TaskState → ℕ → M S (Unit {0})
  push_prev_task ready cpu = do task ← get_current_task cpu; push_back cpu task
  push_prev_task exited cpu = do
    task ← get_current_task cpu
    modify (λ w. put_os (os.dealloc_task task w.os_state) w)
  push_prev_task running cpu = pure tt
  push_prev_task blocked cpu = pure tt
  push_prev_task blocking cpu = pure tt

  -- What follows on the old state of a task that comes back to the scheduler, the same in
  -- `thread_entry_phase2` and, for a coroutine that is pending, in `run_coroutine`.
  unfoldable pub put_away : TaskState → ℕ → M S (Unit {0})
  put_away blocking cpu = push_prev_task blocked cpu
  put_away running cpu = push_prev_task blocked cpu
  put_away blocked cpu = fail
  put_away ready cpu = push_prev_task ready cpu
  put_away exited cpu = push_prev_task exited cpu

  unfoldable pub thread_entry_phase2 : ℕ → M S ℕ
  thread_entry_phase2 cpu = do
    task ← get_current_task cpu
    old ← settle task
    put_away old cpu
    w ← get
    pure ((if c.cpu_num == 1 then 2 else 0) + (if w.in_kernel cpu then 0 else 1))

  unfoldable pub kernel_empty_stack : ℕ → ℕ → M S ℕ
  kernel_empty_stack stack_status cpu = do
    w ← get
    (sp, h, s) ← lift (Stacks.get_empty_stack c os stack_status cpu w.kernel_stacks w.os_state)
    modify (λ w. record w { kernel_stacks = h; os_state = s })
    pure sp

  unfoldable pub user_empty_stack : ℕ → ℕ → ℕ → M S ℕ
  user_empty_stack p stack_status cpu = do
    h ← stacks_at p
    w ← get
    (sp, h', s) ← lift (Stacks.get_empty_stack c os stack_status cpu h w.os_state)
    modify (λ w. put_stacks p h' (put_os s w))
    pure sp

  unfoldable pub kernel_thread_stack : Option ℕ → ℕ → ℕ → M S (Unit {0})
  kernel_thread_stack stack stack_status cpu = do
    w ← get
    (h, s) ← lift (Stacks.get_thread_stack c os stack stack_status cpu w.kernel_stacks w.os_state)
    modify (λ w. record w { kernel_stacks = h; os_state = s })

  unfoldable pub user_thread_stack : ℕ → Option ℕ → ℕ → ℕ → M S (Unit {0})
  user_thread_stack p stack stack_status cpu = do
    h ← stacks_at p
    w ← get
    (h', s) ← lift (Stacks.get_thread_stack c os stack stack_status cpu h w.os_state)
    modify (λ w. put_stacks p h' (put_os s w))

  -- The trampoline goes on to `thread_entry_phase2`.
  unfoldable pub thread_entry : ℕ → ℕ → M S ℕ
  thread_entry stack_handler cpu = do
    task ← get_current_task cpu
    w ← get
    if ltb 1 c.cpu_num || not (os.is_coroutine w.os_state task)
        then (do
          _ ←
              if w.in_kernel cpu
              then kernel_empty_stack 1 cpu
              else user_empty_stack stack_handler 1 cpu
          thread_entry_phase2 cpu)
        else thread_entry_phase2 cpu

  unfoldable pub process_schedule : ℕ → ℕ → M S ℕ
  process_schedule p cpu = do
    x ← scheduler_at p
    w ← get
    lift (highest_prio_process c x.global_index cpu w.process_info_table)

  unfoldable pub run_next : ℕ → ℕ → Option ℕ × ℕ → M S ℕ
  run_next result cpu (none, prio) = pure 2
  run_next result cpu (some task, prio) = do set_current_task cpu task; pure result

  unfoldable pub run_next_kernel : ℕ → Option ℕ × ℕ → M S ℕ
  run_next_kernel cpu (none, prio) = pure 2
  run_next_kernel cpu (some task, prio) = do
    w ← get
    switch_vspace cpu (os.pid w.os_state task)
    set_current_task cpu task
    pure 0

  unfoldable pub ktask_schedule : ℕ → ℕ → M S ℕ
  ktask_schedule next_pid cpu =
      if next_pid == 0
      then (do
        w ← get
        popped ← Scheduler.pop_task c os w.kernel_scheduler cpu
        run_next_kernel cpu popped)
      else (do
        switch_vspace cpu next_pid
        w ← get
        p ← get_user_data os cpu w.user_scheduler w.scheduler_size none
        popped ← Scheduler.pop_task c os p cpu
        run_next 1 cpu popped)

  -- True when the CPU goes to sleep.
  unfoldable pub wait_for_runnable_task : ℕ → ℕ → M S Bool
  wait_for_runnable_task p cpu = do
    w ← get
    let context = w.scheduler_wait_context cpu
    check (not (context == 0))
    set_current_task cpu context
    modify (λ w. record w { is_sleeping = update w.is_sleeping cpu true })
    next_pid ← process_schedule p cpu
    w ← get
    if leb ((w.process_info_table.table next_pid).highest_prio cpu) c.lowest_priority
        then (do
          modify (λ w. record w { is_sleeping = update w.is_sleeping cpu false })
          pure false)
        else pure true

  -- The loop of `kschedule` and `utok_schedule`, from a chosen process on.
  unfoldable pub kernel_loop : ℕ → ℕ → ℕ → ℕ → M S Turn
  kernel_loop zero p next_pid cpu = λ w. spinning
  kernel_loop (suc n) p next_pid cpu = do
    res ← ktask_schedule next_pid cpu
    elim (res == 2) [
      | false ↦ pure (jump res)
      | true ↦ do
        sleeps ← wait_for_runnable_task p cpu
        elim sleeps [
          | true ↦ pure asleep
          | false ↦ do pid ← process_schedule p cpu; kernel_loop n p pid cpu
        ]
    ]

  -- With the number of rounds that the model follows.
  unfoldable pub kschedule : ℕ → ℕ → M S Turn
  kschedule rounds cpu = do
    w ← get
    x ← scheduler_at w.kernel_scheduler
    check (x.global_index == 0)
    next_pid ← process_schedule w.kernel_scheduler cpu
    kernel_loop rounds w.kernel_scheduler next_pid cpu

  unfoldable pub utok_schedule : ℕ → ℕ → M S Turn
  utok_schedule rounds cpu = do
    w ← get
    kernel_loop rounds w.kernel_scheduler (w.current_vspace cpu) cpu

  -- Result 2 stands for `into_kernel`, which does not return.
  unfoldable pub utask_schedule : ℕ → ℕ → ℕ → ℕ → ℕ → M S ℕ
  utask_schedule p stack_handler next_pid stack_status cpu = do
    x ← scheduler_at p
    if next_pid == x.global_index
        then (do
          popped ← Scheduler.pop_task c os p cpu
          left ← run_next 0 cpu popped
          pure (if left == 0 then 0 else 1))
        else (do
          modify (λ w. record w { current_vspace = update w.current_vspace cpu next_pid })
          user_thread_stack stack_handler none stack_status cpu
          pure 2)

  -- None when the code goes on to `run_task`. `into_kernel` does not return, so the loop has one
  -- round.
  unfoldable pub uschedule : ℕ → ℕ → ℕ → ℕ → M S (Option Transfer)
  uschedule p stack_handler stack_status cpu = do
    next_pid ← process_schedule p cpu
    res ← utask_schedule p stack_handler next_pid stack_status cpu
    pure (if res == 0 then none else some into_kernel)
