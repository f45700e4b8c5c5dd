-- ===== src/Sources/Setup.antt =====
-- schedule/scheduler.rs: the steps of `init` and `init_sources`.
use vsched.Base.{
  ℕ, zero, suc, ◌+◌, ◌≤◌, ◌<◌, ◌≡◌, ◌≢◌, refl, ap, sym, subst, true, false, none, some, [], ◌∷◌,
  ◌++◌, arith, ltb, ◌==◌, length, length-append, done, update, Returns, Returns-map, Returns-done,
  ◌∙◌,
}
use vsched.Config.{Config, IsUsable, priority_levels, levels-idle}
use vsched.Current.{scheduler_at, put_scheduler}
use vsched.Os.{Os, blocked, trap_wait_queue_code, ready_queue_code}
use vsched.ReadyQueue
use vsched.ReadyQueue.Contents.{first_ready}
use vsched.ReadyQueue.Invariant.{IsValid}
use vsched.ReadyQueue.Invariant.{new-IsValid}
use vsched.Scheduler.{hightest_priority, store_all, get_and_update_all_prio, update_prio}
use vsched.Scheduler.Own.{RunsCode, IsAt, IsOwn, own-hightest_priority}
use vsched.Sources.{init_except_sources, init_trap_handlers, push_source}
use vsched.TrapWaitQueue
use vsched.TrapWaitQueue.{TrapWaitQueue, push_idle, init_handlers}
use vsched.World.{World, Scheduler, EventSourceEntry}

module _ {S : Type 0} (c : Config) (u : IsUsable c) (os : Os S) where
  init_handlers_lem :
      (n p : ℕ) (q : TrapWaitQueue) (s : S)
      → length q.idle_handlers + n ≤ c.trap_wait_queue_size
      → Returns
          (λ (q', s').
            (q'.queues ≡ q.queues) × (length q'.idle_handlers ≡ length q.idle_handlers + n))
          (init_handlers c os n p q s)
  unfolding init_handlers push_idle
  init_handlers_lem zero p q s h = (refl, omega arith)
  init_handlers_lem (suc n) p q s h =
      let (handler, s1) = os.new_handler p s in
      let (_, s2) = os.set_state blocked handler s1 in
      let q1 = record q { idle_handlers = q.idle_handlers ++ handler ∷ [] } in
      let grown = length-append q.idle_handlers (handler ∷ []) in
      let room : ltb (length q.idle_handlers) c.trap_wait_queue_size ≡ true = ground arith in
      rw room (
        Returns-map _ _ (init_handlers c os n p q1 s2)
          (init_handlers_lem n p q1 s2 (omega (arith, grown)))
          (λ (q', s') (same, len). (same, omega (arith, len, grown))))

  pub push_source_lem :
      (p : ℕ) (e : EventSourceEntry) (x : Scheduler) (w : World S)
      → p ≢ 0
      → w.schedulers p ≡ some x
      → length x.sources < c.event_source_num
      → push_source c os p e w
        ≡ done (tt, put_scheduler p (record x { sources = x.sources ++ e ∷ [] }) w)
  unfolding push_source scheduler_at
  push_source_lem p e x w ne there room =
      let b : (p == 0) ≡ false = ground (arith, ne) in
      let r : ltb (length x.sources) c.event_source_num ≡ true = ground arith in rw (b, there, r)

  pub put_there :
      (p : ℕ) (x : Scheduler) (w : World S) → (put_scheduler p x w).schedulers p ≡ some x
  put_there p x w = ground arith

  no_task : (n level : ℕ) → first_ready n level (λ _. []) ≡ level + n
  unfolding first_ready
  no_task zero level = omega arith
  no_task (suc n) level = omega (arith, no_task n (level + 1))

  -- The priority `prio` recorded for all CPUs.
  abbrev pub told : ℕ → ℕ → World S → World S
  told index prio w =
      let t = w.process_info_table in
      let info = t.table index in
      record w {
        process_info_table = record t {
          table =
              update t.table index
                (record info { highest_prio = store_all c.cpu_num prio info.highest_prio });
        };
      }

  -- A scheduler with its own two sources and no task records LOWEST_PRIORITY + 1.
  pub quiet_update :
      (p cpu : ℕ) (x : Scheduler) (w : World S)
      → cpu < c.cpu_num
      → IsOwn c p x w
      → x.ready_queue ≡ ReadyQueue.new c
      → x.trap_wait_queue.queues ≡ (λ _. [])
      → get_and_update_all_prio c os p cpu w
        ≡ done (c.lowest_priority + 1, told x.global_index (c.lowest_priority + 1) w)
  unfolding get_and_update_all_prio update_prio scheduler_at ReadyQueue.new
  quiet_update p cpu x w h o fresh quiet =
      let b : (p == 0) ≡ false = ground (arith, o.not_null) in
      let inside : ltb x.global_index c.process_num ≡ true = ground (arith, o.indexed) in
      let found : hightest_priority c os p cpu w ≡ done (c.lowest_priority + 1, w) =
        own-hightest_priority c u os p cpu x w h o
        ∙ ground (
          arith,
          ap (λ f. f cpu) quiet,
          ap (λ q. first_ready (priority_levels c) 0 q.queues) fresh
              ∙ no_task (priority_levels c) 0,
          levels-idle c u,
        ) in
      rw (found, b, o.there, inside) refl

  abbrev pub fresh : ℕ → Scheduler
  fresh global_index = record {
    sources = [];
    global_index = global_index;
    ready_queue = ReadyQueue.new c;
    trap_wait_queue = TrapWaitQueue.new;
  }

  pub init_except_sources_lem :
      (p global_index : ℕ) (w : World S)
      → w.schedulers p ≡ none
      → init_except_sources c os p global_index w
        ≡ done (tt, put_scheduler p (fresh global_index) w)
  unfolding init_except_sources
  init_except_sources_lem p global_index w free = rw free

  -- The scheduler at `p`, with no source and no task yet, after its handlers are created.
  abbrev pub with_handlers : ℕ → Scheduler → TrapWaitQueue → S → World S → World S
  with_handlers p x q s w =
      put_scheduler p (record x { trap_wait_queue = q }) (record w { os_state = s })

  pub init_trap_handlers_lem :
      (p : ℕ) (x : Scheduler) (w : World S)
      → p ≢ 0
      → w.schedulers p ≡ some x
      → x.trap_wait_queue ≡ TrapWaitQueue.new
      → c.cpu_num ≤ c.trap_wait_queue_size
      → (q : TrapWaitQueue) × (s : S) × (init_trap_handlers c os p w
          ≡ done (tt, with_handlers p x q s w))
        × (q.queues ≡ λ _. [])
        × (length q.idle_handlers ≡ c.cpu_num)
  unfolding init_trap_handlers scheduler_at TrapWaitQueue.init TrapWaitQueue.new
  init_trap_handlers_lem p x w ne there empty room =
      let b : (p == 0) ≡ false = ground (arith, ne) in
      let ((q, s), made, (same, len)) =
        Returns-done _ (init_handlers c os c.cpu_num p TrapWaitQueue.new w.os_state)
          (init_handlers_lem c.cpu_num p TrapWaitQueue.new w.os_state (omega arith)) in
      let made' = ap (λ t. init_handlers c os c.cpu_num p t w.os_state) empty ∙ made in
      (q, s, ground (arith, b, there, made'), same, omega (arith, len))

  -- The two sources, pushed once the handlers are there.
  pub two_sources-IsOwn :
      (p user cpu : ℕ) (a b : EventSourceEntry) (x : Scheduler) (w : World S)
      → p ≢ 0
      → w.schedulers p ≡ some x
      → x.sources ≡ []
      → x.ready_queue ≡ ReadyQueue.new c
      → x.global_index < c.process_num
      → 2 ≤ c.event_source_num
      → RunsCode trap_wait_queue_code a
      → RunsCode ready_queue_code b
      → IsAt a p user c.trap_wait_queue_offset
      → IsAt b p user c.ready_queue_offset
      → let x' = record x { sources = a ∷ b ∷ [] } in
        let w2 = put_scheduler p (record x { sources = a ∷ [] }) w in
        let w3 = put_scheduler p x' w2 in
        (push_source c os p a w ≡ done (tt, w2))
        × (push_source c os p b w2 ≡ done (tt, w3))
        × IsOwn c p x' w3
  two_sources-IsOwn p user cpu a b x w ne there none_yet new small slots runs_a runs_b at_a at_b =
      let x2 = record x { sources = a ∷ [] } in
      let x3 = record x { sources = a ∷ b ∷ [] } in
      let w2 = put_scheduler p x2 w in
      let first = push_source_lem p a x w ne there (ground (arith, none_yet)) in
      let second = push_source_lem p b x2 w2 ne (put_there p x2 w) (omega (arith, slots)) in
      (
        ground (first, none_yet, arith),
        second,
        record {
          trap_source = a;
          ready_source = b;
          not_null = ne;
          there = put_there p x3 w2;
          sources = refl;
          user = user;
          trap_data = at_a;
          ready_data = at_b;
          runs_trap = runs_a;
          runs_ready = runs_b;
          valid = subst (IsValid c) (sym new) (new-IsValid c u);
          indexed = small;
        },
      )
