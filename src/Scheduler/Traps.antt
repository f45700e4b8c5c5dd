-- ===== src/Scheduler/Traps.antt =====
-- schedule/scheduler.rs: `pop_task` where the CPU has traps to handle.
use vsched.Base.{
  ◌-◌, ◌+◌, ℕ, ◌+◌, ◌≤◌, ◌<◌, ◌≡◌, ◌≢◌, refl, ap, Bool, true, false, Option, none, some, List, [],
  ◌∷◌, arith, ltb, if◌then◌else◌, get_elem?, is_empty, ◌==◌, ◌∙◌, done, Returns, Returns-map,
  Returns-done,
}
use vsched.Config.{Config, IsUsable, isize_max}
use vsched.Current.{scheduler_at, put_scheduler}
use vsched.Os.{Os, TaskLaws, trap_wait_queue_code, ready, blocked}
use vsched.ReadyQueue
use vsched.ReadyQueue.Order.{hightest_priority_lem}
use vsched.Scheduler.{
  owner, data_of, current_scheduler, run_take, take_task, no_choice, choose_source, update_prio,
  pop_from, pop_task, is_in_kernel,
}
use vsched.Scheduler.Own.{RunsCode, IsOwn, own_priorities}
use vsched.Scheduler.Pop.{pop_chosen-some}
use vsched.TrapWaitQueue
use vsched.TrapWaitQueue.{TrapWaitQueue}
use vsched.TrapWaitQueue.Handlers.{take_task-runnable}
use vsched.World.{World, Scheduler, EventSourceEntry}

-- The first source is chosen when no later one has a higher priority.
choose_source-first :
    (first second : ℕ)
    → first ≤ second
    → first < isize_max
    → (choose_source 0 no_choice (first ∷ second ∷ [])).first_index ≡ some 0
unfolding choose_source no_choice
choose_source-first first second l k = ground arith

queue-ext :
    (q : TrapWaitQueue) (queues : ℕ → List (ℕ × Option ℕ)) (idle : List ℕ)
    → q.queues ≡ queues
    → q.idle_handlers ≡ idle
    → q ≡ record { queues = queues; idle_handlers = idle }
queue-ext q queues idle e f = λ i. record { queues = e i; idle_handlers = f i }

module _ {S : Type 0} (c : Config) (u : IsUsable c) (os : Os S) (laws : TaskLaws os) where
  take_task-trap :
      (e : EventSourceEntry) (p cpu : ℕ) (in_kernel : Bool) (x : Scheduler) (w : World S)
      (res : ℕ × ℕ) (q : TrapWaitQueue) (s : S)
      → RunsCode trap_wait_queue_code e
      → e.kernel_data ≡ p + c.trap_wait_queue_offset
      → p ≢ 0
      → w.schedulers p ≡ some x
      → TrapWaitQueue.take_task c os
          (current_scheduler c os p cpu w)
          cpu
          x.trap_wait_queue
          w.os_state
        ≡ done (res, q, s)
      → take_task c os e p cpu in_kernel w
        ≡ done (res, put_scheduler p (record x { trap_wait_queue = q }) (record w { os_state = s }))
  unfolding take_task run_take owner data_of scheduler_at
  take_task-trap e p cpu true x w res q s r here ne there taken =
      let b : (p == 0) ≡ false = ground (arith, ne) in
      let at : e.kernel_data - c.trap_wait_queue_offset ≡ p = omega (arith, here) in
      rw (r.kernel_take, run_take, owner, data_of, at, b, there, taken)
  take_task-trap e p cpu false x w res q s r here ne there taken =
      let b : (p == 0) ≡ false = ground (arith, ne) in
      rw (r.user_take, run_take, owner, data_of, b, there, taken)

  pop_from-trap :
      (e : EventSourceEntry) (p cpu second_prio task prio : ℕ) (in_kernel : Bool) (x : Scheduler)
      (w : World S) (q : TrapWaitQueue) (s : S)
      → RunsCode trap_wait_queue_code e
      → e.kernel_data ≡ p + c.trap_wait_queue_offset
      → p ≢ 0
      → w.schedulers p ≡ some x
      → x.global_index < c.process_num
      → TrapWaitQueue.take_task c os
          (current_scheduler c os p cpu w)
          cpu
          x.trap_wait_queue
          w.os_state
        ≡ done ((task, prio), q, s)
      → Returns
          (λ (res, w').
            (res.0 ≡ (if task == 0 then none else some task))
            × (w'.os_state ≡ s)
            × (w'.schedulers p ≡ some (record x { trap_wait_queue = q })))
          (pop_from c os p cpu second_prio in_kernel e w)
  unfolding pop_from update_prio scheduler_at
  pop_from-trap e p cpu second_prio task prio in_kernel x w q s r here ne there small taken =
      let b : (p == 0) ≡ false = ground (arith, ne) in
      let at : (p == p) ≡ true = ground arith in
      let inside : ltb x.global_index c.process_num ≡ true = ground arith in
      rw
        (take_task-trap e p cpu in_kernel x w (task, prio) q s r here ne there taken, b, at, inside)
        (refl, refl, ground arith)

  own_traps :
      (x : Scheduler) (cpu trap_info : ℕ) (task : Option ℕ) (rest : List (ℕ × Option ℕ))
      → x.trap_wait_queue.queues cpu ≡ (trap_info, task) ∷ rest
      → (if is_empty (x.trap_wait_queue.queues cpu)
          then c.lowest_priority + 1
          else c.highest_priority)
        ≡ c.highest_priority
  own_traps x cpu trap_info task rest e = ground arith

  task_of : (task : ℕ) → task ≢ 0 → (if task == 0 then none else some task) ≡ some task
  task_of task ne = ground arith

  -- With task states as documented, on a scheduler with its own two sources, where this CPU has a
  -- trap to handle and a blocked handler, not null, is the first of the free ones, `pop_task` takes
  -- that handler, whatever tasks are ready. The handler is Ready and has the process of the task
  -- that waits for the trap; the ready queue and the traps do not change.
  pub pop_task-trap :
      (p cpu trap_info handler : ℕ) (task : Option ℕ) (rest : List (ℕ × Option ℕ)) (idle : List ℕ)
      (x : Scheduler) (w : World S)
      → cpu < c.cpu_num
      → IsOwn c p x w
      → x.trap_wait_queue.queues cpu ≡ (trap_info, task) ∷ rest
      → x.trap_wait_queue.idle_handlers ≡ handler ∷ idle
      → os.state w.os_state handler ≡ blocked
      → handler ≢ 0
      → Returns
          (λ ((found, prio), w').
            (found ≡ some handler)
            × (os.state w'.os_state handler ≡ ready)
            × (os.pid w'.os_state handler ≡ TrapWaitQueue.task_pid c os task w.os_state)
            × (w'.schedulers p
                ≡ some (record x {
                  trap_wait_queue = record {
                    queues = x.trap_wait_queue.queues;
                    idle_handlers = idle;
                  };
                })))
          (pop_task c os p cpu w)
  unfolding pop_task scheduler_at
  pop_task-trap p cpu trap_info handler task rest idle x w h o e f g ne =
      let b : (p == 0) ≡ false = ground (arith, o.not_null) in
      let prios = own_priorities c u os cpu (is_in_kernel c os cpu x w) p x w w.os_state h o in
      let later : c.highest_priority ≤ ReadyQueue.hightest_priority c x.ready_queue =
        omega (arith, hightest_priority_lem c u x.ready_queue o.valid) in
      let best =
        choose_source 0 no_choice
          (c.highest_priority ∷ ReadyQueue.hightest_priority c x.ready_queue ∷ []) in
      let pick : best.first_index ≡ some 0 =
        choose_source-first c.highest_priority (ReadyQueue.hightest_priority c x.ready_queue) later
          (omega (arith, u.below_max, u.ordered)) in
      let first : get_elem? x.sources 0 ≡ some o.trap_source = ap (λ l. get_elem? l 0) o.sources in
      let chosen =
        pop_chosen-some c u os p cpu 0 best (is_in_kernel c os cpu x w) x.sources o.trap_source w
          pick first in
      let ((res, q, s), taken, holds) =
        Returns-done _
          (TrapWaitQueue.take_task c os (current_scheduler c os p cpu w) cpu x.trap_wait_queue
            w.os_state)
          (take_task-runnable c os laws (current_scheduler c os p cpu w) cpu trap_info handler task
            rest idle x.trap_wait_queue w.os_state h e f g) in
      rw (b, o.there, prios, own_traps x cpu trap_info task rest e, chosen)
        (Returns-map _ _
          (pop_from c os p cpu best.second_prio (is_in_kernel c os cpu x w) o.trap_source w)
          (pop_from-trap o.trap_source p cpu best.second_prio res.0 res.1
            (is_in_kernel c os cpu x w) x w q s o.runs_trap o.trap_data.0 o.not_null o.there
            o.indexed taken)
          (λ (r, w') (same, moved, there). (
            same
                ∙ ap (λ (t : ℕ × ℕ). if t.0 == 0 then none else some t.0) holds.0
                ∙ task_of handler ne,
            ap (λ t. os.state t handler) moved ∙ holds.3,
            ap (λ t. os.pid t handler) moved ∙ holds.4,
            there
                ∙ ap (λ (t : TrapWaitQueue). some (record x { trap_wait_queue = t }))
                    (queue-ext q x.trap_wait_queue.queues idle holds.1 holds.2),
          )))
