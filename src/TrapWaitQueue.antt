-- ===== src/TrapWaitQueue.antt =====
-- schedule/trap_wait_queue.rs: for each CPU a queue of traps with the tasks that wait for them, and
-- the handler tasks that are free, shared by the CPUs. `trap_handler` is in MainLoop/Handler.
pub mod Handlers
use vsched.Base.{
  ℕ, zero, suc, ◌+◌, ◌≤◌, ◌<◌, ◌≡◌, refl, Bool, true, false, Option, none, some, List, [], ◌∷◌,
  ◌++◌, arith, ltb, leb, if◌then◌else◌, length, is_empty, update, Outcome, done, panic, spinning,
  Result, ok, err, ◌>>=◌,
}
use vsched.Config.{Config}
use vsched.Os.{Os, TaskState, ready, running, blocked, exited, blocking}

pub record TrapWaitQueue : Type 0 where
  pub queues : ℕ → List (ℕ × Option ℕ)
  pub idle_handlers : List ℕ

pub data IdleHandler : Type 0 where
  runnable : ℕ → IdleHandler
  still_blocking : ℕ → IdleHandler
  empty : IdleHandler

unfoldable pub inactive_priority : Config → ℕ
inactive_priority c = c.lowest_priority + 1

unfoldable pub active_priority : Config → ℕ
active_priority c = c.highest_priority

unfoldable pub new : TrapWaitQueue
new = record { queues = λ _. []; idle_handlers = [] }

-- `lock().push_back(handler).expect(…)`.
unfoldable pub push_idle : Config → ℕ → TrapWaitQueue → Outcome TrapWaitQueue
push_idle c handler q =
    if ltb (length q.idle_handlers) c.trap_wait_queue_size
    then done (record q { idle_handlers = q.idle_handlers ++ handler ∷ [] })
    else panic

unfoldable pub push_trap :
    Config
    → ℕ
    → Option ℕ
    → ℕ
    → TrapWaitQueue
    → Outcome (Result (Unit {0}) (ℕ × Option ℕ) × TrapWaitQueue)
push_trap c trap_info task cpuid q =
    if leb c.cpu_num cpuid
    then panic
    else if leb c.trap_wait_queue_size (length (q.queues cpuid))
    then done (err (trap_info, task), q)
    else done (
      ok tt,
      record q { queues = update q.queues cpuid (q.queues cpuid ++ (trap_info, task) ∷ []) },
    )

unfoldable pub hightest_priority : Config → ℕ → TrapWaitQueue → Outcome ℕ
hightest_priority c cpu q =
    if leb c.cpu_num cpu
    then panic
    else if is_empty (q.queues cpu)
    then done (inactive_priority c)
    else done (active_priority c)

module _ {S : Type 0} (c : Config) (os : Os S) where
  -- The loop of `init`, with the number of handlers left to create.
  unfoldable pub init_handlers : ℕ → ℕ → TrapWaitQueue → S → Outcome (TrapWaitQueue × S)
  init_handlers zero scheduler q s = done (q, s)
  init_handlers (suc n) scheduler q s =
      let (handler, s1) = os.new_handler scheduler s in
      let (_, s2) = os.set_state blocked handler s1 in
      push_idle c handler q >>= λ q'. init_handlers n scheduler q' s2

  unfoldable pub init : ℕ → TrapWaitQueue → S → Outcome (TrapWaitQueue × S)
  init = init_handlers c.cpu_num

  -- The first part of `reschedule_handler`, up to `resched`, which leaves the handler.
  unfoldable pub reschedule_handler : ℕ → TrapWaitQueue → S → Outcome (TrapWaitQueue × S)
  reschedule_handler handler q s =
      let (_, s') = os.set_state blocking handler (os.set_pid 0 handler s) in
      push_idle c handler q >>= λ q'. done (q', s')

  -- The loop ends in its first round, by a return or by the panic.
  unfoldable pub get_idle_handler : List ℕ → S → Outcome (IdleHandler × List ℕ × S)
  get_idle_handler [] s = done (empty, [], s)
  get_idle_handler (handler ∷ rest) s =
      let (old, s') = os.match_set_state ready running ready exited blocking handler s in
      elim old [
        | blocked ↦ done (runnable handler, rest, s')
        | blocking ↦ done (still_blocking handler, rest, s')
        | _ ↦ panic
      ]

  unfoldable pub create_new_handler : ℕ → S → Outcome (ℕ × S)
  create_new_handler handler s =
      let (old, s') = os.match_set_state ready running ready exited ready handler s in
      elim old [ ready ↦ done (handler, s') | blocked ↦ done (handler, s') | _ ↦ panic ]

  -- `while handler.match_set_state(…) != Blocked {}`.
  unfoldable pub wait_blocked : ℕ → ℕ → S → Outcome (ℕ × S)
  wait_blocked zero handler s = spinning
  wait_blocked (suc n) handler s =
      let (old, s') = os.match_set_state ready running ready exited blocking handler s in
      elim old [ blocked ↦ done (handler, s') | _ ↦ wait_blocked n handler (os.others s') ]

  unfoldable pub pick_handler : ℕ → IdleHandler → S → Outcome (ℕ × S)
  pick_handler scheduler (runnable handler) s = done (handler, s)
  pick_handler scheduler (still_blocking handler) s = wait_blocked os.looks handler s
  pick_handler scheduler empty s =
      let (handler, s') = os.new_handler scheduler s in create_new_handler handler s'

  unfoldable pub task_pid : Option ℕ → S → ℕ
  task_pid none s = 0
  task_pid (some task) s = os.pid s task

  -- `take_task` once the front of the queue is known.
  unfoldable pub take_handler :
      ℕ → Option ℕ → TrapWaitQueue → S → Outcome ((ℕ × ℕ) × TrapWaitQueue × S)
  take_handler scheduler task q s = get_idle_handler q.idle_handlers s >>= λ (found, idle, s1).
      pick_handler scheduler found s1 >>= λ (handler, s2). done (
        (handler, active_priority c),
        record q { idle_handlers = idle },
        os.set_pid (task_pid task s) handler s2,
      )

  unfoldable pub take_task : ℕ → ℕ → TrapWaitQueue → S → Outcome ((ℕ × ℕ) × TrapWaitQueue × S)
  take_task scheduler cpu q s = if leb c.cpu_num cpu then panic else elim (q.queues cpu) [
    | [] ↦ done ((0, inactive_priority c), q, s)
    | (trap_info, task) ∷ rest ↦ take_handler scheduler task q s
  ]
