-- ===== src/Api.antt =====
-- api.rs: the calls that the operating system makes.
pub mod Users
pub mod Boot
use vsched.Base.{ℕ, Bool, true, false, not, none, some, leb, ◌==◌, if◌then◌else◌, update, Outcome}
use vsched.Config.{Config}
use vsched.Current.{
  set_pre_stack, put_stacks, get_user_data, get_user_addr, get_current_task, stacks_at,
}
use vsched.Monad.{M, pure, ◌>>=◌, ◌>>◌, get, modify, lift, fail, check}
use vsched.Os.{Os}
use vsched.Process.{ProcessInfo, ProcessInfoTable}
use vsched.Process
use vsched.Scheduler
use vsched.Scheduler.{is_ok}
use vsched.Sources
use vsched.Stacks
use vsched.World.{World}

module _ {S : Type 0} (c : Config) (os : Os S) where
  -- The part of the initialisation that every CPU makes: the current task, the wait context, the
  -- flags, and the stacks.
  unfoldable pub init_cpu_task : ℕ → ℕ → M S (Unit {0})
  init_cpu_task init_task cpu = do
    modify (λ w. record w { current_task = update w.current_task cpu init_task })
    w ← get
    let (context, s) = os.new_handler 0 w.os_state
    modify (λ w. record w {
      os_state = s;
      scheduler_wait_context = update w.scheduler_wait_context cpu context;
    })

  unfoldable pub init_cpu_flags : ℕ → ℕ → M S (Unit {0})
  init_cpu_flags init_stack cpu = do
    modify (λ w. record w {
      in_kernel = update w.in_kernel cpu true;
      current_vspace = update w.current_vspace cpu 0;
    })
    w ← get
    let h = w.kernel_stacks
    let h' = record h { current_stack = update h.current_stack cpu (some init_stack) }
    (base, h2, s) ← lift (Stacks.alloc_trap_stack c os cpu h' w.os_state)
    modify (λ w. set_pre_stack cpu base (record w { kernel_stacks = h2; os_state = s }))

  unfoldable pub kernel_init_main : ℕ → ℕ → ℕ → M S (Unit {0})
  kernel_init_main init_stack init_task cpu = do
    init_cpu_task init_task cpu
    w ← get
    Sources.init c os w.user_scheduler 0 cpu
    modify (λ w. record w { kernel_scheduler = w.user_scheduler })
    init_cpu_flags init_stack cpu

  unfoldable pub kernel_init_secondary : ℕ → ℕ → ℕ → M S (Unit {0})
  kernel_init_secondary init_stack init_task cpu = do
    init_cpu_task init_task cpu
    init_cpu_flags init_stack cpu

  abbrev set_info : ℕ → (ProcessInfo → ProcessInfo) → World S → World S
  set_info pid f w =
      let t = w.process_info_table in
      record w { process_info_table = record t { table = update t.table pid (f (t.table pid)) } }

  unfoldable pub process_init : ℕ → ℕ → M S ℕ
  process_init vspace cpu = do
    w ← get
    (found, t) ← lift (Process.register_process c w.process_info_table)
    modify (λ w. record w { process_info_table = t })
    pid ← elim found [ none ↦ fail | some pid ↦ pure pid ]
    modify (set_info pid (λ i. record i { vspace = vspace }))
    p ← get_user_data os cpu w.user_scheduler w.scheduler_size (some vspace)
    Sources.init_except_sources c os p pid
    modify (set_info pid (λ i. record i { scheduler = p }))
    stacks ← get_user_data os cpu w.stack_handler w.stack_handler_size (some vspace)
    w ← get
    elim (w.stack_handlers stacks) [
      | some _ ↦ fail
      | none ↦ modify (put_stacks stacks Stacks.default_handler)
    ]
    pure pid

  unfoldable pub process_drop : ℕ → M S (Unit {0})
  process_drop pid = do
    w ← get
    (was_valid, t, s) ← lift (Process.unregister_process c os pid w.process_info_table w.os_state)
    modify (λ w. record w { process_info_table = t; os_state = s })

  unfoldable pub user_init : ℕ → ℕ → M S (Unit {0})
  user_init vspace cpu = do
    w ← get
    p ← get_user_data os cpu w.user_scheduler w.scheduler_size (some vspace)
    user ← get_user_addr os w.user_scheduler w.scheduler_size (some vspace)
    Sources.init_sources c os p user vspace cpu

  -- `scheduler.push_task(…).is_ok()`.
  unfoldable pub push_to : ℕ → ℕ → ℕ → M S Bool
  push_to p task cpu = do res ← Scheduler.push_task c os p task cpu; pure (is_ok c os res)

  -- `p` is the address of USER_SCHEDULER where the code runs.
  unfoldable pub push_task_into_current : ℕ → ℕ → ℕ → M S Bool
  push_task_into_current p task cpu = push_to p task cpu

  unfoldable pub push_task_into_process : ℕ → ℕ → ℕ → M S Bool
  push_task_into_process task pid cpu = do
    w ← get
    let info = w.process_info_table.table pid
    if leb c.process_num pid
        then fail
        else if not info.valid
        then pure false
        else if info.scheduler == 0
        then pure false
        else push_to info.scheduler task cpu

  unfoldable pub push_task : ℕ → ℕ → M S Bool
  push_task task cpu = do
    w ← get
    if os.is_kernel w.os_state task
        then push_to w.user_scheduler task cpu
        else push_task_into_process task (os.pid w.os_state task) cpu

  unfoldable pub current_vspace : ℕ → M S ℕ
  current_vspace cpu w = Outcome.done (w.current_vspace cpu, w)

  unfoldable pub current_task_ptr : ℕ → M S ℕ
  current_task_ptr cpu = get_current_task cpu

  unfoldable pub set_current_task_ptr : ℕ → ℕ → M S ℕ
  set_current_task_ptr task cpu = do
    check (not (task == 0))
    old ← get_current_task cpu
    modify (λ w. record w { current_task = update w.current_task cpu task })
    pure old

  -- `stack_handler` is the address of STACK_HANDLER where the code runs.
  unfoldable pub take_current_stack : ℕ → ℕ → M S ℕ
  take_current_stack stack_handler cpu = do
    task ← get_current_task cpu
    w ← get
    if os.is_kernel w.os_state task
        then (do
          (stack, h) ← lift (Stacks.take_current_stack cpu w.kernel_stacks)
          modify (λ w. record w { kernel_stacks = h })
          pure stack)
        else (do
          h ← stacks_at stack_handler
          (stack, h') ← lift (Stacks.take_current_stack cpu h)
          modify (put_stacks stack_handler h')
          pure stack)
