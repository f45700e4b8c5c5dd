-- ===== src/Os.antt =====
-- interface.rs: the states of a task, and the traits that the operating system implements. Their
-- code is not in the repository: an `Os` is any implementation over any state `S`, with what
-- interface.rs documents of it as the hypotheses `TaskLaws`. A pointer is its address, 0 for null.
use vsched.Base.{ℕ, ◌≡◌, ◌≢◌, Bool, Option}

pub data TaskState : Type 0 where
  ready running blocked exited blocking : TaskState

pub TaskState-discrete : Discrete TaskState
TaskState-discrete = hlevel

-- A function pointer of an event source's vtable: the code that it runs, and its address.
pub data Code : Type 0 where
  trap_wait_queue_code ready_queue_code : Code
  external_code : ℕ → Code

pub record Os (S : Type 0) : Type 0 where
  -- trait Task
  pub state : S → ℕ → TaskState
  pub set_state : TaskState → ℕ → S → TaskState × S
  pub match_set_state :
      TaskState → TaskState → TaskState → TaskState → TaskState → ℕ → S → TaskState × S
  pub priority : S → ℕ → ℕ
  pub is_coroutine : S → ℕ → Bool
  pub is_kernel : S → ℕ → Bool
  pub pid : S → ℕ → ℕ
  pub set_pid : ℕ → ℕ → S → S
  pub thread_stack : S → ℕ → ℕ
  pub set_return_value : ℕ → ℕ → S → S
  pub dealloc_task : ℕ → S → S
  -- trait Stack
  pub alloc_stack : S → ℕ × S
  pub dealloc_stack : ℕ → S → S
  pub base : S → ℕ → ℕ
  -- trait TrapInfo
  pub from_task : ℕ → S → ℕ × S
  pub handle : ℕ → Option ℕ → S → S
  pub dealloc_trap_info : ℕ → S → S
  pub new_handler : ℕ → S → ℕ × S
  -- trait VSpace
  pub into_vspace : ℕ → S → S
  pub dealloc_vspace : ℕ → S → S
  -- trait UserData: position, length and address space
  pub get_user_data : S → ℕ → ℕ → Option ℕ → ℕ
  pub get_user_addr : S → ℕ → ℕ → Option ℕ → ℕ
  -- external event sources: the code, its data and the CPU
  pub source_hightest_priority : S → ℕ → ℕ → ℕ → ℕ
  pub source_take_task : ℕ → ℕ → ℕ → S → (ℕ × ℕ) × S
  -- what the other CPUs do to the state between two looks of a CPU that spins, and for how many
  -- looks the model follows it
  pub others : S → S
  pub looks : ℕ

-- What `match_set_state` makes of a state.
unfoldable pub next_state :
    TaskState → TaskState → TaskState → TaskState → TaskState → TaskState → TaskState
next_state from_ready from_running from_blocked from_exited from_blocking ready = from_ready
next_state from_ready from_running from_blocked from_exited from_blocking running = from_running
next_state from_ready from_running from_blocked from_exited from_blocking blocked = from_blocked
next_state from_ready from_running from_blocked from_exited from_blocking exited = from_exited
next_state from_ready from_running from_blocked from_exited from_blocking blocking = from_blocking

-- interface.rs on `set_state` and `match_set_state`: they return the old state, set the new one,
-- and do so in one step. No other task's state changes.
pub record TaskLaws {S : Type 0} (os : Os S) : Type 0 where
  pub set_state_old : (x : TaskState) (t : ℕ) (s : S) → (os.set_state x t s).0 ≡ os.state s t
  pub set_state_new : (x : TaskState) (t : ℕ) (s : S) → os.state (os.set_state x t s).1 t ≡ x
  pub set_state_other :
      (x : TaskState) (t j : ℕ) (s : S) → t ≢ j → os.state (os.set_state x t s).1 j ≡ os.state s j
  pub match_set_state_old :
      (a b c d e : TaskState) (t : ℕ) (s : S) → (os.match_set_state a b c d e t s).0 ≡ os.state s t
  pub match_set_state_new :
      (a b c d e : TaskState) (t : ℕ) (s : S)
      → os.state (os.match_set_state a b c d e t s).1 t ≡ next_state a b c d e (os.state s t)
  pub match_set_state_other :
      (a b c d e : TaskState) (t j : ℕ) (s : S)
      → t ≢ j
      → os.state (os.match_set_state a b c d e t s).1 j ≡ os.state s j
  -- `set_pid` sets the process and no state.
  pub set_pid_new : (p t : ℕ) (s : S) → os.pid (os.set_pid p t s) t ≡ p
  pub set_pid_state : (p t j : ℕ) (s : S) → os.state (os.set_pid p t s) j ≡ os.state s j
