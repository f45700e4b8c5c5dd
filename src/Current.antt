-- ===== src/Current.antt =====
-- current.rs: the accessors of the shared data, and the instances behind the statics.
use vsched.Base.{ℕ, Option, none, some, if◌then◌else◌, ◌==◌, update, done, panic, null_deref}
use vsched.Os.{Os}
use vsched.Monad.{M}
use vsched.Stacks.{StackHandler}
use vsched.World.{World, Scheduler}

module _ {S : Type 0} where
  -- Follows a pointer to a scheduler.
  unfoldable pub scheduler_at : ℕ → M S Scheduler
  scheduler_at p w =
      if p == 0 then null_deref else elim (w.schedulers p) [ none ↦ panic | some x ↦ done (x, w) ]

  abbrev pub put_scheduler : ℕ → Scheduler → World S → World S
  put_scheduler p x w = record w { schedulers = update w.schedulers p (some x) }

  abbrev pub put_stacks : ℕ → StackHandler → World S → World S
  put_stacks p x w = record w { stack_handlers = update w.stack_handlers p (some x) }

  -- `set_pre_stack!` of src/arch/riscv.rs.
  abbrev pub set_pre_stack : ℕ → ℕ → World S → World S
  set_pre_stack cpu base w = record w { pre_stack = update w.pre_stack cpu base }

  unfoldable pub stacks_at : ℕ → M S StackHandler
  stacks_at p w =
      if p == 0
      then null_deref
      else elim (w.stack_handlers p) [ none ↦ panic | some x ↦ done (x, w) ]

  unfoldable pub set_current_task : ℕ → ℕ → M S (Unit {0})
  set_current_task cpu task w =
      done (tt, record w { current_task = update w.current_task cpu task })

  unfoldable pub get_current_task : ℕ → M S ℕ
  get_current_task cpu w = done (w.current_task cpu, w)

  -- Without an address space the process number of the current one is passed on, as a pointer.
  unfoldable pub get_user_data : Os S → ℕ → ℕ → ℕ → Option ℕ → M S ℕ
  get_user_data os cpu addr size vspace w =
      let space : ℕ = elim vspace [ none ↦ w.current_vspace cpu | some v ↦ v ] in
      let found = os.get_user_data w.os_state addr size (some space) in
      if found == 0 then panic else done (found, w)

  unfoldable pub get_user_addr : Os S → ℕ → ℕ → Option ℕ → M S ℕ
  get_user_addr os addr size vspace w =
      let found = os.get_user_addr w.os_state addr size vspace in
      if found == 0 then panic else done (found, w)
