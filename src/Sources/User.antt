-- ===== src/Sources/User.antt =====
-- schedule/scheduler.rs: the scheduler of a user process that `init_sources` leaves, with the
-- addresses of both address spaces.
use vsched.Base.{ℕ, ◌+◌, ◌≤◌, ◌<◌, ◌≡◌, ◌≢◌, refl, Bool, some, [], ◌∷◌, arith, done, Returns}
use vsched.Config.{Config, IsUsable}
use vsched.Current.{put_scheduler}
use vsched.Os.{Os, Code, trap_wait_queue_code, ready_queue_code}
use vsched.ReadyQueue
use vsched.Scheduler.{
  own_vtable, vtable, with_user, is_trap_wait_queue_per_cpu, is_ready_queue_per_cpu,
}
use vsched.Scheduler.Own.{RunsCode}
use vsched.Sources.{init_sources}
use vsched.Sources.Start.{IsStarted, started}
use vsched.Sources.Setup.{with_handlers, init_trap_handlers_lem}
use vsched.TrapWaitQueue
use vsched.TrapWaitQueue.{TrapWaitQueue, push_idle, init_handlers}
use vsched.World.{World, Scheduler, EventSourceEntry, EventSourceVtable}

module _ {S : Type 0} (c : Config) (u : IsUsable c) (os : Os S) where
  -- The vDSO is loaded in the address space: the functions of the queues have an address there.
  abbrev pub IsMapped : ℕ → World S → Type 0
  IsMapped vspace w =
      (s : S) (code : Code) (k : ℕ) → os.get_user_addr s (w.code_address code k) 1 (some vspace) ≢ 0

  with_user-RunsCode :
      (vspace : ℕ) (code : Code) (per_cpu : Bool) (w w' : World S)
      → IsMapped vspace w
      → (v : EventSourceVtable) × (with_user c os vspace (own_vtable code per_cpu w) w'
          ≡ done (v, w'))
        × ((kernel_data user_data : ℕ)
            → RunsCode code
                (record { kernel_data = kernel_data; user_data = user_data; vtable = v }))
  unfolding with_user own_vtable vtable
  with_user-RunsCode vspace code per_cpu w w' mapped =
      let highest = os.get_user_addr w'.os_state (w.code_address code 0) 1 (some vspace) in
      let take = os.get_user_addr w'.os_state (w.code_address code 1) 1 (some vspace) in
      (
        record (own_vtable code per_cpu w) {
          user_hightest_priority = (code, highest);
          user_take_task = (code, take);
        },
        ground (arith, mapped w'.os_state code 0, mapped w'.os_state code 1),
        λ k d. record {
          kernel_highest = refl;
          user_highest = refl;
          kernel_take = refl;
          user_take = refl;
        },
      )

  -- On a scheduler that `init_except_sources` left, with the vDSO loaded in the user's address
  -- space and the room that `init` needs, `init_sources` ends and leaves what `init` leaves, but the
  -- data of the sources for the user is in the scheduler at `user_ref`.
  pub init_sources-IsStarted :
      (p user_ref vspace cpu : ℕ) (x : Scheduler) (w : World S)
      → p ≢ 0
      → w.schedulers p ≡ some x
      → x.sources ≡ []
      → x.ready_queue ≡ ReadyQueue.new c
      → x.trap_wait_queue ≡ TrapWaitQueue.new
      → IsMapped vspace w
      → cpu < c.cpu_num
      → x.global_index < c.process_num
      → c.cpu_num ≤ c.trap_wait_queue_size
      → 2 ≤ c.event_source_num
      → Returns
          (λ (_, w'). IsStarted c u os p user_ref x.global_index w w')
          (init_sources c os p user_ref vspace cpu w)
  unfolding init_sources
  init_sources-IsStarted p user_ref vspace cpu x w ne there none_yet new empty mapped h small room
        slots =
      let (q, s, e1, quiet, len) = init_trap_handlers_lem c u os p x w ne there empty room in
      let w1 = with_handlers c u os p x q s w in
      let (v, e2, runs_trap) =
        with_user-RunsCode vspace trap_wait_queue_code is_trap_wait_queue_per_cpu w1 w1 mapped in
      let a : EventSourceEntry = record {
        kernel_data = p + c.trap_wait_queue_offset;
        user_data = user_ref + c.trap_wait_queue_offset;
        vtable = v;
      } in
      let w2 = put_scheduler p (record x { trap_wait_queue = q; sources = a ∷ [] }) w1 in
      let (v', e4, runs_ready) =
        with_user-RunsCode vspace ready_queue_code is_ready_queue_per_cpu w1 w2 mapped in
      let b : EventSourceEntry = record {
        kernel_data = p + c.ready_queue_offset;
        user_data = user_ref + c.ready_queue_offset;
        vtable = v';
      } in
      let (w4, e3, e5, e6, result) =
        started c u os p user_ref cpu a b x q s w ne none_yet new small slots h quiet len
          (runs_trap (p + c.trap_wait_queue_offset) (user_ref + c.trap_wait_queue_offset))
          (runs_ready (p + c.ready_queue_offset) (user_ref + c.ready_queue_offset)) (refl, refl)
          (refl, refl) in
      rw (e1, e2, e3, e4, e5, e6) result
