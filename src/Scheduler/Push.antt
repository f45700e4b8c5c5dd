-- ===== src/Scheduler/Push.antt =====
-- schedule/scheduler.rs: `push_task` on a scheduler with its own two sources, and the priorities
-- that the process table has afterwards.
use vsched.Base.{
  ℕ, ◌+◌, ◌-◌, ◌≤◌, ◌<◌, ◌≡◌, ◌⊎◌, inl, inr, refl, true, false, List, [], ◌∷◌, ◌++◌, arith, ltb,
  leb, if◌then◌else◌, is_empty, ◌==◌, update, length, done, Returns, ok, err, Bool-cases,
}
use vsched.Config.{Config, IsUsable, priority_levels}
use vsched.Current.{scheduler_at, put_scheduler}
use vsched.Os.{Os}
use vsched.ReadyQueue
use vsched.ReadyQueue.{ReadyQueue}
use vsched.ReadyQueue.Contents.{first_ready, first_ready_before}
use vsched.ReadyQueue.Invariant.{push_task-IsValid}
use vsched.Bits.{set_bit}
use vsched.Scheduler.{update_prio, store_all, get_and_update_all_prio, refresh, push_task}
use vsched.Scheduler.Own.{
  IsOwn, own-hightest_priority, store_all_lem, move-IsOwn, put_scheduler-IsOwn,
}
use vsched.World.{World, Scheduler}

first_ready-le_of_busy :
    (n i : ℕ) (f : ℕ → List ℕ) → i < n → is_empty (f i) ≡ false → first_ready n 0 f ≤ i
first_ready-le_of_busy n i f h busy = elim (Bool-cases (ltb i (first_ready n 0 f))) [
  | inl before ↦ absurd (ground (arith, first_ready_before n 0 i f))
  | inr after ↦ ground arith
]

append-busy : (xs : List ℕ) (x : ℕ) → is_empty (xs ++ x ∷ []) ≡ false
append-busy [] x = refl
append-busy (y ∷ xs) x = refl

module _ {S : Type 0} (c : Config) (u : IsUsable c) (os : Os S) where
  -- What `hightest_priority` is on CPU `cpu`.
  abbrev own_priority : ℕ → Scheduler → ℕ
  own_priority cpu x =
      if is_empty (x.trap_wait_queue.queues cpu)
      then c.highest_priority + first_ready (priority_levels c) 0 x.ready_queue.queues
      else c.highest_priority

  -- The process table with `prio` for every CPU.
  abbrev recorded : ℕ → ℕ → World S → World S
  recorded index prio w =
      let t = w.process_info_table in
      let info = t.table index in
      record w {
        process_info_table = record t {
          table =
              update t.table index
                (record info { highest_prio = store_all c.cpu_num prio info.highest_prio });
        };
      }

  get_and_update_all_prio-own :
      (p cpu : ℕ) (x : Scheduler) (w : World S)
      → cpu < c.cpu_num
      → IsOwn c p x w
      → get_and_update_all_prio c os p cpu w
        ≡ done (own_priority cpu x, recorded x.global_index (own_priority cpu x) w)
  unfolding get_and_update_all_prio update_prio scheduler_at
  get_and_update_all_prio-own p cpu x w h o =
      let b : (p == 0) ≡ false = ground (arith, o.not_null) in
      let inside : ltb x.global_index c.process_num ≡ true = ground (arith, o.indexed) in
      rw (own-hightest_priority c u os p cpu x w h o, b, o.there, inside) refl

  recorded-highest_prio :
      (index prio j : ℕ) (w : World S)
      → j < c.cpu_num
      → ((recorded index prio w).process_info_table.table index).highest_prio j ≡ prio
  recorded-highest_prio index prio j w h =
      ground (
        arith,
        store_all_lem c u os c.cpu_num prio j (w.process_info_table.table index).highest_prio,
      )

  own_priority-le :
      (cpu i : ℕ) (x : Scheduler)
      → i < priority_levels c
      → is_empty (x.ready_queue.queues i) ≡ false
      → own_priority cpu x ≤ c.highest_priority + i
  own_priority-le cpu i x h busy =
      ground (arith, first_ready-le_of_busy (priority_levels c) i x.ready_queue.queues)

-- The task stands last in its level's queue of the scheduler at `p`, every other queue is as it
-- was, and the process table gives every CPU the priority of the level or a higher one.
pub record IsQueued {S : Type 0} (c : Config) (p level task : ℕ) (x : Scheduler) (w w' : World S)
    : Type 0 where
  pub after : Scheduler
  pub own : IsOwn c p after w'
  pub queues :
      after.ready_queue.queues
      ≡ update x.ready_queue.queues level (x.ready_queue.queues level ++ task ∷ [])
  pub traps : after.trap_wait_queue ≡ x.trap_wait_queue
  pub visible :
      (cpu : ℕ)
      → cpu < c.cpu_num
      → (w'.process_info_table.table x.global_index).highest_prio cpu ≤ c.highest_priority + level
  pub same_os : w'.os_state ≡ w.os_state

module _ {S : Type 0} (c : Config) (u : IsUsable c) (os : Os S) where
  -- The queue with the task, and the scheduler with it.
  abbrev queue_with : ℕ → ℕ → ReadyQueue → ReadyQueue
  queue_with level task q = record {
    queues = update q.queues level (q.queues level ++ task ∷ []);
    prio_bitmap = set_bit q.prio_bitmap (63 - level);
  }

  queue_with-lem :
      (prio task : ℕ) (q : ReadyQueue)
      → c.highest_priority ≤ prio
      → prio ≤ c.lowest_priority
      → leb c.ready_queue_size (length (q.queues (prio - c.highest_priority))) ≡ false
      → ReadyQueue.push_task c prio task q
        ≡ done (ok tt, queue_with (prio - c.highest_priority) task q)
  unfolding ReadyQueue.push_task priority_levels
  queue_with-lem prio task q h k room = ground arith

  full_lem :
      (prio task : ℕ) (q : ReadyQueue)
      → c.highest_priority ≤ prio
      → prio ≤ c.lowest_priority
      → leb c.ready_queue_size (length (q.queues (prio - c.highest_priority))) ≡ true
      → ReadyQueue.push_task c prio task q ≡ done (err task, q)
  unfolding ReadyQueue.push_task priority_levels
  full_lem prio task q h k full = ground arith

  -- On a scheduler with its own two sources, `push_task` of a task with a priority in range ends:
  -- the task stands last in the queue of its priority and every CPU finds that priority or a higher
  -- one in the process table, or that queue is full, the task is given back and the scheduler and
  -- the process table stay as they are.
  pub push_task-IsQueued :
      (p cpu task : ℕ) (x : Scheduler) (w : World S)
      → cpu < c.cpu_num
      → IsOwn c p x w
      → c.highest_priority ≤ os.priority w.os_state task
      → os.priority w.os_state task ≤ c.lowest_priority
      → let level = os.priority w.os_state task - c.highest_priority in
        Returns
          (λ (res, w').
            ((res ≡ ok tt) × IsQueued c p level task x w w')
            ⊎ ((res ≡ err task)
                × (c.ready_queue_size ≤ length (x.ready_queue.queues level))
                × IsOwn c p x w'
                × (w'.process_info_table ≡ w.process_info_table)))
          (push_task c os p task cpu w)
  unfolding push_task scheduler_at refresh
  push_task-IsQueued p cpu task x w h o above below =
      let prio = os.priority w.os_state task in
      let level = prio - c.highest_priority in
      let b : (p == 0) ≡ false = ground (arith, o.not_null) in
      elim (Bool-cases (leb c.ready_queue_size (length (x.ready_queue.queues level)))) [
        | inl full ↦
            rw (b, o.there, full_lem prio task x.ready_queue above below full)
              (inr
                (refl, ground arith, put_scheduler-IsOwn c u os p x x w refl refl o.valid o, refl))
        | inr room ↦
            let e = queue_with-lem prio task x.ready_queue above below room in
            let q = queue_with level task x.ready_queue in
            let v = push_task-IsValid c u prio task x.ready_queue q (ok tt) o.valid e in
            let x' = record x { ready_queue = q } in
            let w1 = put_scheduler p x' w in
            let o1 = put_scheduler-IsOwn c u os p x x' w refl refl v o in
            let inside : level < priority_levels c = unfold priority_levels in omega arith in
            let grown : is_empty (q.queues level) ≡ false =
              ground (arith, append-busy (x.ready_queue.queues level) task) in
            rw (b, o.there, e, get_and_update_all_prio-own c u os p cpu x' w1 h o1)
              (inl (
                refl,
                record {
                  after = x';
                  own = move-IsOwn c u os p x' w1 _ o1.there o1;
                  queues = refl;
                  traps = refl;
                  visible = λ j k.
                      rw
                        (recorded-highest_prio c u os x.global_index (own_priority c u os cpu x') j
                          w1 k)
                        (own_priority-le c u os cpu level x' inside grown);
                  same_os = refl;
                },
              ))
      ]
