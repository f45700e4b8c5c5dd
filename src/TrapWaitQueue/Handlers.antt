-- ===== src/TrapWaitQueue/Handlers.antt =====
-- schedule/trap_wait_queue.rs: which handler `take_task` gives, and in what state.
use vsched.Base.{
  ℕ, zero, suc, ◌+◌, ◌≤◌, ◌<◌, ◌≡◌, ◌≢◌, refl, ap, false, Option, List, [], ◌∷◌, ◌++◌, arith, leb,
  length, is_empty, done, ok, err, Returns, Bool-cases, ◌∙◌, ◌⊎◌, inl, inr,
}
use vsched.Config.{Config}
use vsched.Os.{Os, TaskLaws, TaskState, ready, running, blocked, exited, blocking, next_state}
use vsched.TrapWaitQueue.{
  TrapWaitQueue, inactive_priority, active_priority, push_trap, hightest_priority, get_idle_handler,
  wait_blocked, pick_handler, task_pid, take_handler, take_task,
}

pub append-IsFull {ℓ} : {A : Type ℓ} (xs : List A) (x : A) → is_empty (xs ++ x ∷ []) ≡ false
append-IsFull [] x = refl
append-IsFull (y ∷ xs) x = refl

-- On a CPU that exists, `push_trap` appends to the queue of the CPU, touches no other, and makes
-- its priority HIGHEST_PRIORITY; or the queue is full, the trap is given back and nothing changes.
pub push_trap_lem :
    (c : Config) (trap_info cpuid : ℕ) (task : Option ℕ) (q : TrapWaitQueue)
    → cpuid < c.cpu_num
    → Returns
        (λ (r, q').
          ((length (q.queues cpuid) < c.trap_wait_queue_size)
            × (r ≡ ok tt)
            × (q'.queues cpuid ≡ q.queues cpuid ++ (trap_info, task) ∷ [])
            × ((j : ℕ) → j ≢ cpuid → q'.queues j ≡ q.queues j)
            × (hightest_priority c cpuid q' ≡ done c.highest_priority))
          ⊎ ((c.trap_wait_queue_size ≤ length (q.queues cpuid))
              × (r ≡ err (trap_info, task))
              × (q' ≡ q)))
        (push_trap c trap_info task cpuid q)
unfolding push_trap hightest_priority active_priority
push_trap_lem c trap_info cpuid task q h =
    elim (Bool-cases (leb c.trap_wait_queue_size (length (q.queues cpuid)))) [
      | inl full ↦
          let on_cpu : leb c.cpu_num cpuid ≡ false = ground arith in
          rw (on_cpu, full) (inr (ground arith, refl, refl))
      | inr room ↦
          let on_cpu : leb c.cpu_num cpuid ≡ false = ground arith in
          rw (on_cpu, room)
            (inl (
              ground arith,
              refl,
              ground arith,
              λ j ne. ground arith,
              ground (arith, append-IsFull (q.queues cpuid) (trap_info, task)),
            ))
    ]

module _ {S : Type 0} (c : Config) (os : Os S) (laws : TaskLaws os) where
  -- The state after `n` looks at a handler that does not block.
  unfoldable pub looked : ℕ → ℕ → S → S
  looked zero handler s = s
  looked (suc n) handler s =
      looked n handler
        (os.others (os.match_set_state ready running ready exited blocking handler s).1)

  -- The wait for a handler ends, with the handler ready, if it is Blocked at a look within those
  -- that are followed.
  pub wait_blocked_lem :
      (n k handler : ℕ) (s : S)
      → k < n
      → ((j : ℕ) → j < k → os.state (looked j handler s) handler ≢ blocked)
      → os.state (looked k handler s) handler ≡ blocked
      → Returns
          (λ (h, s'). (h ≡ handler) × (os.state s' handler ≡ ready))
          (wait_blocked c os n handler s)
  unfolding wait_blocked looked
  wait_blocked_lem zero k handler s h before now = absurd (omega arith)
  wait_blocked_lem (suc n) zero handler s h before now =
      let e = laws.match_set_state_old ready running ready exited blocking handler s ∙ now in
      let e' =
        laws.match_set_state_new ready running ready exited blocking handler s
        ∙ ap (next_state ready running ready exited blocking) now in
      rw (e, wait_blocked) (refl, unfold next_state in e')
  wait_blocked_lem (suc n) (suc k) handler s h before now =
      again (os.state s handler)
        (laws.match_set_state_old ready running ready exited blocking handler s)
        (before 0 (omega arith))
        (wait_blocked_lem n k handler _ (omega arith) (λ j l. before (suc j) (omega arith)) now)
    where
      again :
          (old : TaskState)
          → (os.match_set_state ready running ready exited blocking handler s).0 ≡ old
          → old ≢ blocked
          → Returns
              (λ (h, s'). (h ≡ handler) × (os.state s' handler ≡ ready))
              (wait_blocked c os n handler
                (os.others (os.match_set_state ready running ready exited blocking handler s).1))
          → Returns
              (λ (h, s'). (h ≡ handler) × (os.state s' handler ≡ ready))
              (wait_blocked c os (suc n) handler s)
      again blocked e ne r = absurd (ne refl)
      again ready e ne r = rw (e, wait_blocked) r
      again _ e ne r = rw (e, wait_blocked) r

  -- With a trap for this CPU and a blocked handler first among the free ones, `take_task` gives
  -- that handler, in state Ready and with the process of the task that waits for the trap, and
  -- HIGHEST_PRIORITY. The traps stay in their queues, and the handler is no longer free.
  pub take_task-runnable :
      (scheduler cpu trap_info handler : ℕ) (task : Option ℕ) (rest : List (ℕ × Option ℕ))
      (idle : List ℕ) (q : TrapWaitQueue) (s : S)
      → cpu < c.cpu_num
      → q.queues cpu ≡ (trap_info, task) ∷ rest
      → q.idle_handlers ≡ handler ∷ idle
      → os.state s handler ≡ blocked
      → Returns
          (λ (res, q', s').
            (res ≡ (handler, c.highest_priority))
            × (q'.queues ≡ q.queues)
            × (q'.idle_handlers ≡ idle)
            × (os.state s' handler ≡ ready)
            × (os.pid s' handler ≡ task_pid c os task s))
          (take_task c os scheduler cpu q s)
  unfolding take_task take_handler get_idle_handler pick_handler active_priority next_state
  take_task-runnable scheduler cpu trap_info handler task rest idle q s h e f g =
      let s' = (os.match_set_state ready running ready exited blocking handler s).1 in
      let old = laws.match_set_state_old ready running ready exited blocking handler s ∙ g in
      ground (
        arith,
        e,
        f,
        old,
        laws.match_set_state_new ready running ready exited blocking handler s,
        g,
        laws.set_pid_state (task_pid c os task s) handler handler s',
        laws.set_pid_new (task_pid c os task s) handler s',
      )

  -- With no trap for this CPU there is nothing to run, and nothing changes.
  pub take_task-idle :
      (scheduler cpu : ℕ) (q : TrapWaitQueue) (s : S)
      → cpu < c.cpu_num
      → q.queues cpu ≡ []
      → take_task c os scheduler cpu q s ≡ done ((0, c.lowest_priority + 1), q, s)
  unfolding take_task inactive_priority
  take_task-idle scheduler cpu q s h e =
      let on_cpu : leb c.cpu_num cpu ≡ false = ground arith in rw (on_cpu, e)
