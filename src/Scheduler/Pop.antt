-- ===== src/Scheduler/Pop.antt =====
-- schedule/scheduler.rs: `pop_task` of a scheduler with its own two event sources.
use vsched.Base.{
  ◌-◌, ◌+◌, ℕ, ◌+◌, ◌<◌, ◌≡◌, ◌≢◌, refl, ap, Bool, true, false, none, some, List, [], ◌∷◌, arith,
  ltb, if◌then◌else◌, get_elem?, is_empty, ◌==◌, ◌∙◌, inl, inr, done, Returns, Returns-map,
}
use vsched.Config.{Config, IsUsable, isize_max}
use vsched.Current.{scheduler_at, put_scheduler}
use vsched.Os.{Os, ready_queue_code}
use vsched.ReadyQueue
use vsched.ReadyQueue.Idle.{busy}
use vsched.ReadyQueue.Order.{contents, take_task_lem}
use vsched.Scheduler.{
  owner, data_of, Choice, run_take, take_task, no_choice, choose_source, update_prio, pop_from,
  pop_chosen, pop_task, is_in_kernel,
}
use vsched.Scheduler.Own.{RunsCode, IsOwn, own_priorities}
use vsched.World.{World, Scheduler, EventSourceEntry}

module _ {S : Type 0} (c : Config) (u : IsUsable c) (os : Os S) where
  take_task-ready :
      (e : EventSourceEntry) (p cpu : ℕ) (in_kernel : Bool) (x : Scheduler) (w : World S)
      → RunsCode ready_queue_code e
      → e.kernel_data ≡ p + c.ready_queue_offset
      → p ≢ 0
      → w.schedulers p ≡ some x
      → take_task c os e p cpu in_kernel w
        ≡ done (
          (ReadyQueue.take_task c x.ready_queue).0,
          put_scheduler p (record x { ready_queue = (ReadyQueue.take_task c x.ready_queue).1 }) w,
        )
  unfolding take_task run_take owner data_of scheduler_at
  take_task-ready e p cpu true x w r here ne there =
      let b : (p == 0) ≡ false = ground (arith, ne) in
      let at : e.kernel_data - c.ready_queue_offset ≡ p = omega (arith, here) in
      rw (r.kernel_take, run_take, owner, data_of, at, b, there)
  take_task-ready e p cpu false x w r here ne there =
      let b : (p == 0) ≡ false = ground (arith, ne) in
      rw (r.user_take, run_take, owner, data_of, b, there)

  -- The ready queue is the second source, and the trap queue has nothing.
  choose_source-ready :
      (idle prio : ℕ)
      → prio < idle
      → idle < isize_max
      → choose_source 0 no_choice (idle ∷ prio ∷ [])
        ≡ record { first_index = some 1; first_prio = prio; second_prio = idle }
  unfolding choose_source no_choice
  choose_source-ready idle prio l k = ground arith

  pop_from-ready :
      (e : EventSourceEntry) (p cpu second_prio : ℕ) (in_kernel : Bool) (x : Scheduler)
      (w : World S)
      → RunsCode ready_queue_code e
      → e.kernel_data ≡ p + c.ready_queue_offset
      → p ≢ 0
      → w.schedulers p ≡ some x
      → x.global_index < c.process_num
      → Returns
          (λ (res, w').
            let ((task, prio), q) = ReadyQueue.take_task c x.ready_queue in
            (res ≡ (
              if task == 0 then none else some task,
              if ltb prio second_prio then prio else second_prio,
            ))
            × (w'.schedulers p ≡ some (record x { ready_queue = q }))
            × (w' ≡ record w {
              schedulers = w'.schedulers;
              process_info_table = w'.process_info_table;
            }))
          (pop_from c os p cpu second_prio in_kernel e w)
  unfolding pop_from update_prio scheduler_at
  pop_from-ready e p cpu second_prio in_kernel x w r here ne there small =
      let b : (p == 0) ≡ false = ground (arith, ne) in
      let at : (p == p) ≡ true = ground arith in
      let inside : ltb x.global_index c.process_num ≡ true = ground arith in
      rw (take_task-ready e p cpu in_kernel x w r here ne there, b, at, inside)
        (refl, ground arith, refl)

  pub pop_chosen-some :
      (p cpu i : ℕ) (best : Choice) (in_kernel : Bool) (sources : List EventSourceEntry)
      (e : EventSourceEntry) (w : World S)
      → best.first_index ≡ some i
      → get_elem? sources i ≡ some e
      → pop_chosen c os p cpu in_kernel sources best w
        ≡ pop_from c os p cpu best.second_prio in_kernel e w
  unfolding pop_chosen
  pop_chosen-some p cpu i best in_kernel sources e w k h = rw (k, h, pop_chosen)

  own_idle :
      (x : Scheduler) (cpu : ℕ)
      → x.trap_wait_queue.queues cpu ≡ []
      → (if is_empty (x.trap_wait_queue.queues cpu)
          then c.lowest_priority + 1
          else c.highest_priority)
        ≡ c.lowest_priority + 1
  own_idle x cpu e = ground arith

  task_of : (task : ℕ) → task ≢ 0 → (if task == 0 then none else some task) ≡ some task
  task_of task ne = ground arith

  pub pop_task-ready :
      (p cpu task : ℕ) (rest : List ℕ) (x : Scheduler) (w : World S)
      → cpu < c.cpu_num
      → IsOwn c p x w
      → x.trap_wait_queue.queues cpu ≡ []
      → contents c x.ready_queue ≡ task ∷ rest
      → task ≢ 0
      → Returns
          (λ ((found, prio), w').
            (q : ReadyQueue.ReadyQueue) × (found ≡ some task)
            × (w'.schedulers p ≡ some (record x { ready_queue = q }))
            × (contents c q ≡ rest)
            × (w' ≡ record w {
              schedulers = w'.schedulers;
              process_info_table = w'.process_info_table;
            }))
          (pop_task c os p cpu w)
  unfolding pop_task pop_chosen scheduler_at
  pop_task-ready p cpu task rest x w h o quiet e ne =
      let b : (p == 0) ≡ false = ground (arith, o.not_null) in
      let prios = own_priorities c u os cpu (is_in_kernel c os cpu x w) p x w w.os_state h o in
      let less = busy c u x.ready_queue o.valid (λ n. cc (n, e)) refl in
      let pick =
        choose_source-ready (c.lowest_priority + 1) (ReadyQueue.hightest_priority c x.ready_queue)
          (omega (arith, less)) (omega (arith, u.below_max)) in
      let second : get_elem? x.sources 1 ≡ some o.ready_source =
        ap (λ l. get_elem? l 1) o.sources in
      let chosen =
        pop_chosen-some p cpu 1
          (record {
            first_index = some 1;
            first_prio = ReadyQueue.hightest_priority c x.ready_queue;
            second_prio = c.lowest_priority + 1;
          })
          (is_in_kernel c os cpu x w) x.sources o.ready_source w refl second in
      rw (b, o.there, prios, own_idle x cpu quiet, pick, chosen)
        (Returns-map _ _
          (pop_from c os p cpu (c.lowest_priority + 1) (is_in_kernel c os cpu x w) o.ready_source w)
          (pop_from-ready o.ready_source p cpu (c.lowest_priority + 1) (is_in_kernel c os cpu x w) x
            w o.runs_ready o.ready_data.0 o.not_null o.there o.indexed)
          (λ (res, w') (same, there, kept). (
            (ReadyQueue.take_task c x.ready_queue).1,
            ap (λ r. r.0) same ∙ ap (λ t. if t == 0 then none else some t) took.0 ∙ task_of task ne,
            there,
            took.1,
            kept,
          )))
    where
      took :
          ((ReadyQueue.take_task c x.ready_queue).0.0 ≡ task)
          × (contents c (ReadyQueue.take_task c x.ready_queue).1 ≡ rest)
      took = elim (take_task_lem c u x.ready_queue o.valid) [
        | inl (none_left, _) ↦ absurd (cc (none_left, e))
        | inr (front, _) ↦ (cc (front, e), cc (front, e))
      ]
