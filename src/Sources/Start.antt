-- ===== src/Sources/Start.antt =====
-- schedule/scheduler.rs: the schedulers that `init` and `init_sources` leave.
use vsched.Base.{ℕ, ◌+◌, ◌≤◌, ◌<◌, ◌≡◌, ◌≢◌, refl, none, [], ◌∷◌, arith, length, done, Returns}
use vsched.Config.{Config, IsUsable}
use vsched.Current.{put_scheduler}
use vsched.Os.{Os, trap_wait_queue_code, ready_queue_code}
use vsched.ReadyQueue
use vsched.Scheduler.{
  own_vtable, vtable, get_and_update_all_prio, is_trap_wait_queue_per_cpu, is_ready_queue_per_cpu,
}
use vsched.Scheduler.Own.{RunsCode, IsAt, IsOwn, user_pointers, queues_of, move-IsOwn}
use vsched.Sources.{push_source, init}
use vsched.Sources.Setup.{
  put_there, told, quiet_update, fresh, init_except_sources_lem, with_handlers,
  init_trap_handlers_lem, two_sources-IsOwn,
}
use vsched.TrapWaitQueue.{TrapWaitQueue}
use vsched.World.{World, Scheduler, EventSourceEntry, EventSourceVtable}

module _ {S : Type 0} (c : Config) (u : IsUsable c) (os : Os S) where
  -- A scheduler at `p`, of process `index`, with its own two sources, the trap queue and then the
  -- ready queue, whose data the kernel finds in the scheduler at `p`, and the user in the scheduler
  -- at `user`. Both queues are empty; there are a free handler for each CPU, and LOWEST_PRIORITY + 1 recorded for
  -- all CPUs. Of the rest only the operating system's state may be another.
  abbrev pub IsStarted : ℕ → ℕ → ℕ → World S → World S → Type 0
  IsStarted p user index w w' =
      (x : Scheduler) × (s : S) × IsOwn c p x w'
      × (user_pointers x.sources ≡ queues_of c user)
      × (x.global_index ≡ index)
      × (x.ready_queue ≡ ReadyQueue.new c)
      × (x.trap_wait_queue.queues ≡ λ _. [])
      × (length x.trap_wait_queue.idle_handlers ≡ c.cpu_num)
      × (w'.process_info_table ≡ (told c u os index (c.lowest_priority + 1) w).process_info_table)
      × (w' ≡ record w {
        os_state = s;
        schedulers = w'.schedulers;
        process_info_table = w'.process_info_table;
      })
      × ((j : ℕ) → j ≢ p → w'.schedulers j ≡ w.schedulers j)

  abbrev source : ℕ → EventSourceVtable → EventSourceEntry
  source address v = record { kernel_data = address; user_data = address; vtable = v }

  runs_trap :
      (address : ℕ) (w : World S)
      → RunsCode trap_wait_queue_code
          (source address (own_vtable trap_wait_queue_code is_trap_wait_queue_per_cpu w))
  unfolding own_vtable vtable
  runs_trap address w = record {
    kernel_highest = refl;
    user_highest = refl;
    kernel_take = refl;
    user_take = refl;
  }

  runs_ready :
      (address : ℕ) (w : World S)
      → RunsCode ready_queue_code
          (source address (own_vtable ready_queue_code is_ready_queue_per_cpu w))
  unfolding own_vtable vtable
  runs_ready address w = record {
    kernel_highest = refl;
    user_highest = refl;
    kernel_take = refl;
    user_take = refl;
  }

  -- From a scheduler with no source, with the handlers created and the sources pushed.
  pub started :
      (p user cpu : ℕ) (a b : EventSourceEntry) (x : Scheduler) (q : TrapWaitQueue) (s : S)
      (w : World S)
      → p ≢ 0
      → x.sources ≡ []
      → x.ready_queue ≡ ReadyQueue.new c
      → x.global_index < c.process_num
      → 2 ≤ c.event_source_num
      → cpu < c.cpu_num
      → q.queues ≡ (λ _. [])
      → length q.idle_handlers ≡ c.cpu_num
      → RunsCode trap_wait_queue_code a
      → RunsCode ready_queue_code b
      → IsAt a p user c.trap_wait_queue_offset
      → IsAt b p user c.ready_queue_offset
      → let w1 = with_handlers c u os p x q s w in
        let x' = record x { trap_wait_queue = q; sources = a ∷ b ∷ [] } in
        let w2 = put_scheduler p (record x { trap_wait_queue = q; sources = a ∷ [] }) w1 in
        let w3 = put_scheduler p x' w2 in
        (w4 : World S) × (push_source c os p a w1 ≡ done (tt, w2))
        × (push_source c os p b w2 ≡ done (tt, w3))
        × (get_and_update_all_prio c os p cpu w3 ≡ done (c.lowest_priority + 1, w4))
        × IsStarted p user x.global_index w w4
  started p user cpu a b x q s w ne none_yet new small slots h quiet len runs_a runs_b at_a at_b =
      let w1 = with_handlers c u os p x q s w in
      let x1 = record x { trap_wait_queue = q } in
      let (first, second, own) =
        two_sources-IsOwn c u os p user cpu a b x1 w1 ne
          (put_there c u os p x1 (record w { os_state = s })) none_yet new small slots runs_a runs_b
          at_a at_b in
      let x' = record x1 { sources = a ∷ b ∷ [] } in
      let w3 = put_scheduler p x' (put_scheduler p (record x1 { sources = a ∷ [] }) w1) in
      let w4 = told c u os x.global_index (c.lowest_priority + 1) w3 in
      (
        w4,
        first,
        second,
        quiet_update c u os p cpu x' w3 h own new quiet,
        (
          x',
          s,
          move-IsOwn c u os p x' w3 w4 own.there own,
          rw (at_a.1, at_b.1) refl,
          refl,
          new,
          quiet,
          len,
          refl,
          refl,
          λ j other. ground arith,
        ),
      )

  -- At an address with no scheduler yet, and with room for a handler per CPU and for two sources,
  -- `init` ends and leaves a scheduler with its own two sources, the trap queue and then the ready
  -- queue. The data of each, for the kernel and for the user, is the field of that queue in the
  -- scheduler. Both queues are empty, there are as many free handlers as CPUs, and LOWEST_PRIORITY + 1
  -- is recorded as the process's priority on all CPUs. Of the rest, only the operating system's
  -- state may change.
  pub init-IsStarted :
      (p index cpu : ℕ) (w : World S)
      → p ≢ 0
      → w.schedulers p ≡ none
      → cpu < c.cpu_num
      → index < c.process_num
      → c.cpu_num ≤ c.trap_wait_queue_size
      → 2 ≤ c.event_source_num
      → Returns (λ (_, w'). IsStarted p p index w w') (init c os p index cpu w)
  unfolding init
  init-IsStarted p index cpu w ne free h small room slots =
      let e0 = init_except_sources_lem c u os p index w free in
      let x = fresh c u os index in
      let w0 = put_scheduler p x w in
      let (q, s, e1, quiet, len) =
        init_trap_handlers_lem c u os p x w0 ne (put_there c u os p x w) refl room in
      let w1 = with_handlers c u os p x q s w0 in
      let a =
        source (p + c.trap_wait_queue_offset)
          (own_vtable trap_wait_queue_code is_trap_wait_queue_per_cpu w1) in
      let x2 = record x { trap_wait_queue = q; sources = a ∷ [] } in
      let w2 = put_scheduler p x2 w1 in
      let b =
        source (p + c.ready_queue_offset) (own_vtable ready_queue_code is_ready_queue_per_cpu w1) in
      let (w4, e2, e3, e4, (x', s', own, at_p, at, new, twq, handlers, told_all, kept, others)) =
        started p p cpu a b x q s w0 ne refl refl small slots h quiet len
          (runs_trap (p + c.trap_wait_queue_offset) w1) (runs_ready (p + c.ready_queue_offset) w1)
          (refl, refl) (refl, refl) in
      rw (e0, e1, e2, e3, e4)
        (
          x',
          s',
          own,
          at_p,
          at,
          new,
          twq,
          handlers,
          told_all,
          kept,
          λ j other. ground (arith, others j other),
        )
