-- ===== src/MainLoop/Handler.antt =====
-- schedule/trap_wait_queue.rs: `trap_handler`, which a handler task runs. What `handle` does to the
-- operating system's state is the operating system's; calls that it makes back into the scheduler
-- are steps of their own.
use vsched.Base.{
  ℕ, Bool, true, false, Option, none, some, [], ◌∷◌, leb, if◌then◌else◌, update, is_empty, ok, err,
}
use vsched.Config.{Config}
use vsched.Current.{scheduler_at, put_scheduler}
use vsched.MainLoop.{switch_vspace}
use vsched.Monad.{M, pure, ◌>>=◌, ◌>>◌, get, modify, lift, fail}
use vsched.Os.{Os, ready, running, blocked, exited, blocking}
use vsched.Scheduler
use vsched.TrapWaitQueue

module _ {S : Type 0} (c : Config) (os : Os S) where
  unfoldable pub scheduler_of : ℕ → M S ℕ
  scheduler_of task = do
    w ← get
    if os.is_kernel w.os_state task
        then pure w.kernel_scheduler
        else if leb c.process_num (os.pid w.os_state task)
        then fail
        else pure (w.process_info_table.table (os.pid w.os_state task)).scheduler

  -- A task that exited in the meantime is freed, one that is blocked is woken.
  unfoldable pub wake : ℕ → ℕ → M S (Unit {0})
  wake task cpu = do
    w ← get
    let (old, s) = os.match_set_state ready running ready exited blocking task w.os_state
    modify (λ w. record w { os_state = s })
    elim old [
      | blocked ↦ do
        p ← scheduler_of task
        res ← Scheduler.push_task c os p task cpu
        elim res [ ok _ ↦ pure tt | err _ ↦ fail ]
      | exited ↦ modify (λ w. record w { os_state = os.dealloc_task task w.os_state })
      | _ ↦ fail
    ]

  unfoldable pub wake_waiter : Option ℕ → ℕ → M S (Unit {0})
  wake_waiter none cpu = pure tt
  wake_waiter (some task) cpu = wake task cpu

  unfoldable pub serve : ℕ → ℕ → Option ℕ → ℕ → M S (Unit {0})
  serve handler trap_info task cpu = do
    w ← get
    let pid = TrapWaitQueue.task_pid c os task w.os_state
    modify (λ w. record w { os_state = os.set_pid pid handler w.os_state })
    switch_vspace c os cpu pid
    modify (λ w. record w { os_state = os.handle trap_info task w.os_state })
    wake_waiter task cpu
    modify (λ w. record w { os_state = os.dealloc_trap_info trap_info w.os_state })

  -- The first half of a round: the front of this CPU's queue, and the scheduler's priority anew
  -- when that was the last trap.
  unfoldable pub pop_trap : ℕ → ℕ → M S (Option (ℕ × Option ℕ))
  pop_trap p cpu = do
    x ← scheduler_at p
    elim (x.trap_wait_queue.queues cpu) [
      | [] ↦ pure none
      | item ∷ rest ↦ do
        let q = x.trap_wait_queue
        modify (
            put_scheduler p
              (record x { trap_wait_queue = record q { queues = update q.queues cpu rest } }))
        _ ← if is_empty rest then Scheduler.get_and_update_current_prio c os p cpu else pure 0
        pure (some item)
    ]

  -- One round of the loop; false when the handler left the CPU by `resched`.
  unfoldable pub trap_handler_round : ℕ → ℕ → ℕ → M S Bool
  trap_handler_round p handler cpu = do
    popped ← pop_trap p cpu
    elim popped [
      | some (trap_info, task) ↦ do serve handler trap_info task cpu; pure true
      | none ↦ do
        x ← scheduler_at p
        w ← get
        (q, s) ← lift (TrapWaitQueue.reschedule_handler c os handler x.trap_wait_queue w.os_state)
        modify (λ w. put_scheduler p (record x { trap_wait_queue = q }) (record w { os_state = s }))
        pure false
    ]
