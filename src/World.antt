-- ===== src/World.antt =====
-- current.rs: the data that the CPUs and the address spaces share, and the instances of the private
-- data: schedulers and stack pools by address. The code at work runs on one CPU, `cpu`, which
-- `SMP::cpu_id` would return; it is under `cpu_num`. What other CPUs do comes between two calls.
use vsched.Base.{ℕ, Bool, Option, List}
use vsched.Os.{Code}
use vsched.Process.{ProcessInfoTable}
use vsched.ReadyQueue.{ReadyQueue}
use vsched.Stacks.{StackHandler}
use vsched.TrapWaitQueue.{TrapWaitQueue}

-- schedule/event_source.rs: the vtable. Its functions are code at an address.
pub record EventSourceVtable : Type 0 where
  pub kernel_hightest_priority : Code × ℕ
  pub user_hightest_priority : Code × ℕ
  pub kernel_take_task : Code × ℕ
  pub user_take_task : Code × ℕ
  pub is_prio_per_cpu : Bool

-- schedule/scheduler.rs: an event source's data in both address spaces, and its vtable.
pub record EventSourceEntry : Type 0 where
  pub kernel_data : ℕ
  pub user_data : ℕ
  pub vtable : EventSourceVtable

pub record Scheduler : Type 0 where
  pub sources : List EventSourceEntry
  pub global_index : ℕ
  pub ready_queue : ReadyQueue
  pub trap_wait_queue : TrapWaitQueue

pub record World (S : Type 0) : Type 0 where
  pub os_state : S
  pub current_task : ℕ → ℕ
  pub scheduler_wait_context : ℕ → ℕ
  pub is_sleeping : ℕ → Bool
  pub kernel_scheduler : ℕ
  pub in_kernel : ℕ → Bool
  pub current_vspace : ℕ → ℕ
  pub process_info_table : ProcessInfoTable
  pub kernel_stacks : StackHandler
  -- The register that holds the base of the stack for the next trap.
  pub pre_stack : ℕ → ℕ
  -- `LazyInit` instances: none before `init_once`.
  pub schedulers : ℕ → Option Scheduler
  pub stack_handlers : ℕ → Option StackHandler
  -- The kernel's addresses of the statics USER_SCHEDULER and STACK_HANDLER, and of the
  -- functions that an event source's entry points to; their sizes.
  pub user_scheduler : ℕ
  pub stack_handler : ℕ
  pub scheduler_size : ℕ
  pub stack_handler_size : ℕ
  pub code_address : Code → ℕ → ℕ
