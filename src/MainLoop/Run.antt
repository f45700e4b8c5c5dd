-- ===== src/MainLoop/Run.antt =====
-- main_loop.rs: how the chosen task gets the CPU, and what follows when a coroutine returns. The
-- task's own run, between `set_state(Running)` and its return, is no part of a call here.
use vsched.Base.{ℕ, Bool, true, false, Option, none, some, ◌==◌, if◌then◌else◌, update}
use vsched.Config.{Config}
use vsched.Current.{get_current_task, get_user_data}
use vsched.MainLoop.{
  Transfer, into_coroutine, into_thread, into_user, into_user_context, set_state, settle,
  push_prev_task, put_away, kernel_empty_stack, user_empty_stack, kernel_thread_stack,
  user_thread_stack,
}
use vsched.Monad.{M, pure, ◌>>=◌, ◌>>◌, get, modify, check}
use vsched.Os.{Os, TaskState, ready, running, blocked, exited}

-- The states from which a task is run.
abbrev pub may_run : TaskState → Bool
may_run ready = true
may_run blocked = true
may_run _ = false

module _ {S : Type 0} (c : Config) (os : Os S) where
  unfoldable pub start_running : ℕ → M S ℕ
  start_running cpu = do
    task ← get_current_task cpu
    old ← set_state c os running task
    check (may_run old)
    pure task

  unfoldable pub run_thread : ℕ → M S Transfer
  run_thread cpu = do task ← start_running cpu; pure (into_thread task)

  -- `run_coroutine` up to `poll`.
  unfoldable pub run_coroutine : ℕ → M S Transfer
  run_coroutine cpu = do task ← start_running cpu; pure (into_coroutine task)

  -- `run_coroutine` from the result of `poll` on: some value for `Poll::Ready`.
  unfoldable pub coroutine_returned : Option ℕ → ℕ → M S ℕ
  coroutine_returned res cpu = do
    task ← get_current_task cpu
    elim res [
      | some val ↦ do
        modify (λ w. record w { os_state = os.set_return_value val task w.os_state })
        _ ← set_state c os exited task
        push_prev_task c os exited cpu
      | none ↦ do old ← settle c os task; put_away c os old cpu
    ]
    w ← get
    pure (if w.in_kernel cpu then 0 else 1)

  unfoldable pub run_task : ℕ → ℕ → ℕ → ℕ → M S Transfer
  run_task stack_handler privilege stack_status cpu = do
    task ← get_current_task cpu
    w ← get
    if os.is_coroutine w.os_state task
        then (do
          _ ←
              if privilege == 0
              then kernel_empty_stack c os stack_status cpu
              else user_empty_stack c os stack_handler stack_status cpu
          run_coroutine cpu)
        else (do
          let stack = some (os.thread_stack w.os_state task)
          if privilege == 0
              then kernel_thread_stack c os stack stack_status cpu
              else user_thread_stack c os stack_handler stack stack_status cpu
          run_thread cpu)

  -- The common start of `run_coroutine_into_user` and `run_thread_into_user`.
  unfoldable pub leave_kernel : ℕ → M S ℕ
  leave_kernel cpu = do
    task ← get_current_task cpu
    _ ← set_state c os running task
    modify (λ w. record w { in_kernel = update w.in_kernel cpu false })
    pure task

  unfoldable pub run_coroutine_into_user : ℕ → ℕ → M S Transfer
  run_coroutine_into_user user_sp cpu = do _ ← leave_kernel cpu; pure (into_user user_sp)

  unfoldable pub run_thread_into_user : ℕ → M S Transfer
  run_thread_into_user cpu = do task ← leave_kernel cpu; pure (into_user_context task)

  unfoldable pub krun_utask : ℕ → ℕ → M S Transfer
  krun_utask stack_status cpu = do
    task ← get_current_task cpu
    w ← get
    if os.is_coroutine w.os_state task
        then (do
          p ← get_user_data os cpu w.stack_handler w.stack_handler_size none
          user_sp ← user_empty_stack c os p stack_status cpu
          kernel_thread_stack c os none stack_status cpu
          run_coroutine_into_user user_sp cpu)
        else (do kernel_thread_stack c os none stack_status cpu; run_thread_into_user cpu)
