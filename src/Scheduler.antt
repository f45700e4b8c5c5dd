-- ===== src/Scheduler.antt =====
-- schedule/event_source.rs and schedule/scheduler.rs: the event sources of a scheduler and the choice
-- among them. A scheduler is reached by its address `p`; the pointers that its own entries hold lead
-- to its own fields. The lock around `sources` is not modelled: a call is one step.
pub mod Pick
pub mod Own
pub mod Push
pub mod Deliver
pub mod Pop
pub mod Traps
use vsched.Base.{
  ℕ, zero, suc, ◌+◌, ◌-◌, ◌≤◌, ◌<◌, ◌≡◌, Bool, true, false, not, ◌&&◌, ◌||◌, Option, none, some,
  List, [], ◌∷◌, ◌++◌, ltb, leb, ◌==◌, if◌then◌else◌, length, get_elem?, update, Outcome, done,
  panic, Result, ok, err,
}
use vsched.Base.Outcomes.{◌>>=◌ as bind}
use vsched.Config.{Config, isize_max}
use vsched.Current.{scheduler_at, put_scheduler}
use vsched.Monad.{M, pure, ◌>>=◌, ◌>>◌, get, modify, lift, fail, check}
use vsched.Os.{Os, Code, trap_wait_queue_code, ready_queue_code, external_code}
use vsched.Process.{ProcessInfo, ProcessInfoTable}
use vsched.ReadyQueue
use vsched.TrapWaitQueue
use vsched.World.{World, Scheduler, EventSourceEntry, EventSourceVtable}

unfoldable pub data_of : EventSourceEntry → Bool → ℕ
data_of e in_kernel = if in_kernel then e.kernel_data else e.user_data

-- `EventSourceVtable::new`.
abbrev pub new_vtable : Code × ℕ → Code × ℕ → Code × ℕ → Code × ℕ → Bool → EventSourceVtable
new_vtable kernel_highest user_highest kernel_take user_take per_cpu = record {
  kernel_hightest_priority = kernel_highest;
  user_hightest_priority = user_highest;
  kernel_take_task = kernel_take;
  user_take_task = user_take;
  is_prio_per_cpu = per_cpu;
}

-- `EventSource::vtable`: the same functions for both privilege levels.
unfoldable pub vtable : Code × ℕ → Code × ℕ → Bool → EventSourceVtable
vtable highest take per_cpu = new_vtable highest highest take take per_cpu

abbrev pub is_trap_wait_queue_per_cpu : Bool
is_trap_wait_queue_per_cpu = true

abbrev pub is_ready_queue_per_cpu : Bool
is_ready_queue_per_cpu = false

-- The functions of a trait's vtable: 0 for `hightest_priority`, 1 for `take_task`.
unfoldable pub own_vtable : {S : Type 0} → Code → Bool → World S → EventSourceVtable
own_vtable code per_cpu w =
    vtable (code, w.code_address code 0) (code, w.code_address code 1) per_cpu

-- The fold of `pop_task` over the sources' priorities: the first source of the highest priority, and
-- the next priority. An index is none for `usize::MAX`.
pub record Choice : Type 0 where
  pub first_index : Option ℕ
  pub first_prio : ℕ
  pub second_prio : ℕ

unfoldable pub no_choice : Choice
no_choice = record { first_index = none; first_prio = isize_max; second_prio = isize_max }

unfoldable pub choose_source : ℕ → Choice → List ℕ → Choice
choose_source i best [] = best
choose_source i best (prio ∷ prios) =
    choose_source (i + 1)
      (if ltb prio best.first_prio
        then record { first_index = some i; first_prio = prio; second_prio = best.first_prio }
        else if ltb prio best.second_prio
        then record best { second_prio = prio }
        else best)
      prios

unfoldable pub fold_min : ℕ → List ℕ → ℕ
fold_min a [] = a
fold_min a (b ∷ bs) = fold_min (if ltb a b then a else b) bs

unfoldable pub store_all : ℕ → ℕ → (ℕ → ℕ) → ℕ → ℕ
store_all zero prio f = f
store_all (suc n) prio f = update (store_all n prio f) n prio

module _ {S : Type 0} (c : Config) (os : Os S) where
  -- `EventSourceVtable::with_user`.
  unfoldable pub with_user : ℕ → EventSourceVtable → M S EventSourceVtable
  with_user vspace v = do
    w ← get
    let highest = os.get_user_addr w.os_state v.kernel_hightest_priority.1 1 (some vspace)
    let take = os.get_user_addr w.os_state v.kernel_take_task.1 1 (some vspace)
    check (not (highest == 0) && not (take == 0))
    pure (record v {
      user_hightest_priority = (v.kernel_hightest_priority.0, highest);
      user_take_task = (v.kernel_take_task.0, take);
    })

  -- A call through a vtable's pointer, on a scheduler with the address `p`. The data of the two own
  -- sources are taken to be the queues of this scheduler, which `Own.IsOwn` says of the pointers and
  -- `init` and `init_sources` are proved to leave; addresses of the user are not translated.
  unfoldable pub run_hightest : Code → ℕ → ℕ → Scheduler → S → Outcome ℕ
  run_hightest trap_wait_queue_code ptr cpu x s =
      TrapWaitQueue.hightest_priority c cpu x.trap_wait_queue
  run_hightest ready_queue_code ptr cpu x s = done (ReadyQueue.hightest_priority c x.ready_queue)
  run_hightest (external_code f) ptr cpu x s = done (os.source_hightest_priority s f ptr cpu)

  unfoldable pub source_priority : EventSourceEntry → ℕ → Bool → Scheduler → S → Outcome ℕ
  source_priority e cpu in_kernel x s =
      let f =
        if in_kernel then e.vtable.kernel_hightest_priority else e.vtable.user_hightest_priority in
      run_hightest f.0 (data_of e in_kernel) cpu x s

  -- USER_SCHEDULER where the code runs: the kernel's instance in the kernel.
  abbrev pub current_scheduler : ℕ → ℕ → World S → ℕ
  current_scheduler p cpu w = if w.in_kernel cpu then w.kernel_scheduler else p

  -- The scheduler that the queue at `ptr` is a field of. A user's address is taken to be in the
  -- user's own scheduler.
  unfoldable pub owner : Code → ℕ → ℕ → Bool → ℕ
  owner trap_wait_queue_code ptr p true = ptr - c.trap_wait_queue_offset
  owner ready_queue_code ptr p true = ptr - c.ready_queue_offset
  owner code ptr p in_kernel = p

  -- A call through a vtable's pointer, where `p` is the scheduler that the queue at `ptr` is in.
  unfoldable pub run_take : Code → ℕ → ℕ → ℕ → M S (ℕ × ℕ)
  run_take trap_wait_queue_code ptr p cpu = do
    x ← scheduler_at p
    w ← get
    (res, q, s) ←
        lift (
          TrapWaitQueue.take_task c os (current_scheduler p cpu w) cpu x.trap_wait_queue w.os_state)
    modify (λ w. put_scheduler p (record x { trap_wait_queue = q }) (record w { os_state = s }))
    pure res
  run_take ready_queue_code ptr p cpu = do
    x ← scheduler_at p
    let (res, q) = ReadyQueue.take_task c x.ready_queue
    modify (put_scheduler p (record x { ready_queue = q }))
    pure res
  run_take (external_code f) ptr p cpu = do
    w ← get
    let (res, s) = os.source_take_task f ptr cpu w.os_state
    modify (λ w. record w { os_state = s })
    pure res

  unfoldable pub take_task : EventSourceEntry → ℕ → ℕ → Bool → M S (ℕ × ℕ)
  take_task e p cpu in_kernel =
      let f = if in_kernel then e.vtable.kernel_take_task else e.vtable.user_take_task in
      let ptr = data_of e in_kernel in run_take f.0 ptr (owner f.0 ptr p in_kernel) cpu

  unfoldable pub source_priorities :
      List EventSourceEntry → ℕ → Bool → Scheduler → S → Outcome (List ℕ)
  source_priorities [] cpu in_kernel x s = done []
  source_priorities (e ∷ es) cpu in_kernel x s =
      bind (source_priority e cpu in_kernel x s)
        λ prio. bind (source_priorities es cpu in_kernel x s) λ prios. done (prio ∷ prios)

  unfoldable pub is_in_kernel : ℕ → Scheduler → World S → Bool
  is_in_kernel cpu x w = x.global_index == 0 || w.in_kernel cpu

  unfoldable pub hightest_priority : ℕ → ℕ → M S ℕ
  hightest_priority p cpu = do
    x ← scheduler_at p
    w ← get
    prios ← lift (source_priorities x.sources cpu (is_in_kernel cpu x w) x w.os_state)
    pure (fold_min isize_max prios)

  -- None stands for the argument -1, all CPUs.
  unfoldable pub update_prio : ℕ → ℕ → Option ℕ → M S (Unit {0})
  update_prio p prio cpu = do
    x ← scheduler_at p
    check (ltb x.global_index c.process_num)
    w ← get
    let t = w.process_info_table
    let info = t.table x.global_index
    let cells : ℕ → ℕ = elim cpu [
      | none ↦ store_all c.cpu_num prio info.highest_prio
      | some i ↦ update info.highest_prio i prio
    ]
    modify (λ w. record w {
      process_info_table = record t {
        table = update t.table x.global_index (record info { highest_prio = cells });
      };
    })

  unfoldable pub get_and_update_current_prio : ℕ → ℕ → M S ℕ
  get_and_update_current_prio p cpu = do
    prio ← hightest_priority p cpu
    update_prio p prio (some cpu)
    pure prio

  unfoldable pub get_and_update_all_prio : ℕ → ℕ → M S ℕ
  get_and_update_all_prio p cpu = do
    prio ← hightest_priority p cpu
    update_prio p prio none
    pure prio

  -- `pop_task` once a source is chosen.
  unfoldable pub pop_from : ℕ → ℕ → ℕ → Bool → EventSourceEntry → M S (Option ℕ × ℕ)
  pop_from p cpu second_prio in_kernel e = do
    (task, new_prio) ← take_task e p cpu in_kernel
    let prio = if ltb new_prio second_prio then new_prio else second_prio
    update_prio p prio (if e.vtable.is_prio_per_cpu then some cpu else none)
    pure (if task == 0 then none else some task, prio)

  unfoldable pub pop_chosen : ℕ → ℕ → Bool → List EventSourceEntry → Choice → M S (Option ℕ × ℕ)
  pop_chosen p cpu in_kernel sources best = elim best.first_index [
    | none ↦ do update_prio p isize_max (some cpu); pure (none, isize_max)
    | some i ↦ elim (get_elem? sources i) [
      | none ↦ fail
      | some e ↦ pop_from p cpu best.second_prio in_kernel e
    ]
  ]

  unfoldable pub pop_task : ℕ → ℕ → M S (Option ℕ × ℕ)
  pop_task p cpu = do
    x ← scheduler_at p
    w ← get
    let in_kernel = is_in_kernel cpu x w
    prios ← lift (source_priorities x.sources cpu in_kernel x w.os_state)
    pop_chosen p cpu in_kernel x.sources (choose_source 0 no_choice prios)

  unfoldable pub refresh : Bool → Bool → ℕ → ℕ → M S (Unit {0})
  refresh is_ok per_cpu p cpu =
      if is_ok
      then (if per_cpu
          then (get_and_update_current_prio p cpu >>= λ _. pure tt)
          else (get_and_update_all_prio p cpu >>= λ _. pure tt))
      else pure tt

  abbrev pub is_ok : {A E : Type 0} → Result A E → Bool
  is_ok (ok a) = true
  is_ok (err e) = false

  unfoldable pub push_task : ℕ → ℕ → ℕ → M S (Result (Unit {0}) ℕ)
  push_task p task cpu = do
    x ← scheduler_at p
    w ← get
    (res, q) ← lift (ReadyQueue.push_task c (os.priority w.os_state task) task x.ready_queue)
    modify (put_scheduler p (record x { ready_queue = q }))
    refresh (is_ok res) is_ready_queue_per_cpu p cpu
    pure res

  unfoldable pub push_trap : ℕ → ℕ → Option ℕ → ℕ → ℕ → M S (Result (Unit {0}) (ℕ × Option ℕ))
  push_trap p trap_info task cpuid cpu = do
    x ← scheduler_at p
    (res, q) ← lift (TrapWaitQueue.push_trap c trap_info task cpuid x.trap_wait_queue)
    modify (put_scheduler p (record x { trap_wait_queue = q }))
    refresh (is_ok res) is_trap_wait_queue_per_cpu p cpu
    pure res
