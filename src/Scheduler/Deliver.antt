-- ===== src/Scheduler/Deliver.antt =====
-- schedule/scheduler.rs: `push_trap` on a scheduler with its own two sources, for the CPU that
-- runs it, as `trap_entry` calls it.
use vsched.Base.{
  ℕ, ◌+◌, ◌<◌, if◌then◌else◌, ◌≡◌, ◌≢◌, refl, ap, ◌∙◌, true, false, Option, [], ◌∷◌, ◌++◌, arith,
  ltb, leb, is_empty, ◌==◌, update, length, done, Returns, ok,
}
use vsched.Config.{Config, IsUsable, priority_levels}
use vsched.Current.{scheduler_at, put_scheduler}
use vsched.Os.{Os}
use vsched.ReadyQueue.Contents.{first_ready}
use vsched.Scheduler.{update_prio, get_and_update_current_prio, refresh, push_trap}
use vsched.Scheduler.Own.{IsOwn, own-hightest_priority, move-IsOwn, put_scheduler-IsOwn}
use vsched.TrapWaitQueue
use vsched.TrapWaitQueue.{TrapWaitQueue}
use vsched.TrapWaitQueue.Handlers.{append-IsFull}
use vsched.World.{World, Scheduler}

-- The trap stands last in the CPU's queue of the scheduler at `p`, every other queue is as it was,
-- and the process table gives the CPU HIGHEST_PRIORITY.
pub record IsDelivered {S : Type 0} (c : Config) (p cpu trap_info : ℕ) (task : Option ℕ)
    (x : Scheduler) (w' : World S) : Type 0 where
  pub after : Scheduler
  pub own : IsOwn c p after w'
  pub queue :
      after.trap_wait_queue.queues cpu ≡ x.trap_wait_queue.queues cpu ++ (trap_info, task) ∷ []
  pub other_queues : (j : ℕ) → j ≢ cpu → after.trap_wait_queue.queues j ≡ x.trap_wait_queue.queues j
  pub ready_tasks : after.ready_queue ≡ x.ready_queue
  pub handlers : after.trap_wait_queue.idle_handlers ≡ x.trap_wait_queue.idle_handlers
  pub index : after.global_index ≡ x.global_index
  pub visible : (w'.process_info_table.table x.global_index).highest_prio cpu ≡ c.highest_priority

module _ {S : Type 0} (c : Config) (u : IsUsable c) (os : Os S) where
  abbrev queue_with : ℕ → ℕ → Option ℕ → TrapWaitQueue → TrapWaitQueue
  queue_with cpu trap_info task q = record q {
    queues = update q.queues cpu (q.queues cpu ++ (trap_info, task) ∷ []);
  }

  queue_with-lem :
      (cpu trap_info : ℕ) (task : Option ℕ) (q : TrapWaitQueue)
      → cpu < c.cpu_num
      → leb c.trap_wait_queue_size (length (q.queues cpu)) ≡ false
      → TrapWaitQueue.push_trap c trap_info task cpu q
        ≡ done (ok tt, queue_with cpu trap_info task q)
  unfolding TrapWaitQueue.push_trap
  queue_with-lem cpu trap_info task q h room =
      let on_cpu : leb c.cpu_num cpu ≡ false = ground arith in rw (on_cpu, room)

  -- The process table with `prio` for one CPU.
  abbrev pub recorded : ℕ → ℕ → ℕ → World S → World S
  recorded index cpu prio w =
      let t = w.process_info_table in
      let info = t.table index in
      record w {
        process_info_table = record t {
          table =
              update t.table index
                (record info { highest_prio = update info.highest_prio cpu prio });
        };
      }

  pub get_and_update_current_prio-own :
      (p cpu : ℕ) (x : Scheduler) (w : World S)
      → cpu < c.cpu_num
      → IsOwn c p x w
      → let prio =
          if is_empty (x.trap_wait_queue.queues cpu)
          then c.highest_priority + first_ready (priority_levels c) 0 x.ready_queue.queues
          else c.highest_priority in
        get_and_update_current_prio c os p cpu w ≡ done (prio, recorded x.global_index cpu prio w)
  unfolding get_and_update_current_prio update_prio scheduler_at
  get_and_update_current_prio-own p cpu x w h o =
      let b : (p == 0) ≡ false = ground (arith, o.not_null) in
      let inside : ltb x.global_index c.process_num ≡ true = ground (arith, o.indexed) in
      rw (own-hightest_priority c u os p cpu x w h o, b, o.there, inside) refl

  get_and_update_current_prio-busy :
      (p cpu : ℕ) (x : Scheduler) (w : World S)
      → cpu < c.cpu_num
      → IsOwn c p x w
      → is_empty (x.trap_wait_queue.queues cpu) ≡ false
      → get_and_update_current_prio c os p cpu w
        ≡ done (c.highest_priority, recorded x.global_index cpu c.highest_priority w)
  get_and_update_current_prio-busy p cpu x w h o busy =
      rw (get_and_update_current_prio-own p cpu x w h o, busy) refl

  -- On a scheduler with its own two sources and with room in the CPU's queue, `push_trap` for the
  -- CPU that runs it takes the trap: it stands last in the queue, the process table gives the CPU
  -- HIGHEST_PRIORITY, and nothing but the schedulers and the process table changes.
  pub push_trap-IsDelivered :
      (p cpu trap_info : ℕ) (task : Option ℕ) (x : Scheduler) (w : World S)
      → cpu < c.cpu_num
      → IsOwn c p x w
      → length (x.trap_wait_queue.queues cpu) < c.trap_wait_queue_size
      → Returns
          (λ (res, w').
            (res ≡ ok tt)
            × IsDelivered c p cpu trap_info task x w'
            × (w' ≡ record w {
              schedulers = w'.schedulers;
              process_info_table = w'.process_info_table;
            }))
          (push_trap c os p trap_info task cpu cpu w)
  unfolding push_trap scheduler_at refresh
  push_trap-IsDelivered p cpu trap_info task x w h o room =
      let b : (p == 0) ≡ false = ground (arith, o.not_null) in
      let q = queue_with cpu trap_info task x.trap_wait_queue in
      let e = queue_with-lem cpu trap_info task x.trap_wait_queue h (ground arith) in
      let x' = record x { trap_wait_queue = q } in
      let w1 = put_scheduler p x' w in
      let o1 = put_scheduler-IsOwn c u os p x x' w refl refl o.valid o in
      let here : q.queues cpu ≡ x.trap_wait_queue.queues cpu ++ (trap_info, task) ∷ [] =
        ground arith in
      let busy : is_empty (q.queues cpu) ≡ false =
        ap is_empty here ∙ append-IsFull (x.trap_wait_queue.queues cpu) (trap_info, task) in
      rw (b, o.there, e, get_and_update_current_prio-busy p cpu x' w1 h o1 busy)
        (
          refl,
          record {
            after = x';
            own = move-IsOwn c u os p x' w1 _ o1.there o1;
            queue = here;
            other_queues = λ j ne. ground arith;
            ready_tasks = refl;
            handlers = refl;
            index = refl;
            visible = ground arith;
          },
          refl,
        )

  -- What it writes to the process table.
  pub push_trap-recorded :
      (p cpu trap_info : ℕ) (task : Option ℕ) (x : Scheduler) (w : World S)
      → cpu < c.cpu_num
      → IsOwn c p x w
      → length (x.trap_wait_queue.queues cpu) < c.trap_wait_queue_size
      → Returns
          (λ (res, w').
            w'.process_info_table
            ≡ (recorded x.global_index cpu c.highest_priority w).process_info_table)
          (push_trap c os p trap_info task cpu cpu w)
  unfolding push_trap scheduler_at refresh
  push_trap-recorded p cpu trap_info task x w h o room =
      let b : (p == 0) ≡ false = ground (arith, o.not_null) in
      let q = queue_with cpu trap_info task x.trap_wait_queue in
      let e = queue_with-lem cpu trap_info task x.trap_wait_queue h (ground arith) in
      let x' = record x { trap_wait_queue = q } in
      let w1 = put_scheduler p x' w in
      let o1 = put_scheduler-IsOwn c u os p x x' w refl refl o.valid o in
      let here : q.queues cpu ≡ x.trap_wait_queue.queues cpu ++ (trap_info, task) ∷ [] =
        ground arith in
      let busy : is_empty (q.queues cpu) ≡ false =
        ap is_empty here ∙ append-IsFull (x.trap_wait_queue.queues cpu) (trap_info, task) in
      rw (b, o.there, e, get_and_update_current_prio-busy p cpu x' w1 h o1 busy) refl
