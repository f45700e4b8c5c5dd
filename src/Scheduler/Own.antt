-- ===== src/Scheduler/Own.antt =====
-- schedule/scheduler.rs: a scheduler with its own two event sources, as `init` leaves it: the trap
-- queue first, then the ready queue.
use vsched.Base.{
  ℕ, zero, suc, ◌+◌, ◌<◌, ◌≡◌, ◌≢◌, ap, Bool, true, false, some, List, [], ◌∷◌, arith, ltb,
  if◌then◌else◌, is_empty, ◌==◌, ◌∙◌, Outcome, done, Returns,
}
use vsched.Config.{Config, IsUsable, priority_levels, levels-idle, priority_levels_bounds}
use vsched.Current.{scheduler_at, put_scheduler}
use vsched.Os.{Os, Code, trap_wait_queue_code, ready_queue_code}
use vsched.ReadyQueue
use vsched.ReadyQueue.Contents.{first_ready, first_ready-le, first_ready-pos}
use vsched.ReadyQueue.Invariant.{IsValid}
use vsched.ReadyQueue.Order.{hightest_priority_lem}
use vsched.Scheduler.{
  run_hightest, source_priority, source_priorities, hightest_priority, fold_min, store_all,
  update_prio, get_and_update_all_prio,
}
use vsched.TrapWaitQueue
use vsched.TrapWaitQueue.{inactive_priority, active_priority}
use vsched.World.{World, Scheduler, EventSourceEntry}

pub record RunsCode (code : Code) (e : EventSourceEntry) : Type 0 where
  pub kernel_highest : e.vtable.kernel_hightest_priority.0 ≡ code
  pub user_highest : e.vtable.user_hightest_priority.0 ≡ code
  pub kernel_take : e.vtable.kernel_take_task.0 ≡ code
  pub user_take : e.vtable.user_take_task.0 ≡ code

-- The entry's data is the field with this offset of the scheduler, which is at `p` for the kernel and
-- at `user` for the user.
abbrev pub IsAt : EventSourceEntry → ℕ → ℕ → ℕ → Type 0
IsAt e p user offset = (e.kernel_data ≡ p + offset) × (e.user_data ≡ user + offset)

-- What the entries hold for the user.
abbrev pub user_pointers : List EventSourceEntry → List ℕ
user_pointers [] = []
user_pointers (e ∷ es) = e.user_data ∷ user_pointers es

-- The two queues of the scheduler at an address.
abbrev pub queues_of : Config → ℕ → List ℕ
queues_of c user = (user + c.trap_wait_queue_offset) ∷ (user + c.ready_queue_offset) ∷ []

-- The scheduler at `p`, which the user finds at `user`, with its own two sources and a ready queue in order.
pub record IsOwn {S : Type 0} (c : Config) (p : ℕ) (x : Scheduler) (w : World S) : Type 0 where
  pub trap_source : EventSourceEntry
  pub ready_source : EventSourceEntry
  pub user : ℕ
  pub not_null : p ≢ 0
  pub there : w.schedulers p ≡ some x
  pub sources : x.sources ≡ trap_source ∷ ready_source ∷ []
  pub runs_trap : RunsCode trap_wait_queue_code trap_source
  pub runs_ready : RunsCode ready_queue_code ready_source
  pub trap_data : IsAt trap_source p user c.trap_wait_queue_offset
  pub ready_data : IsAt ready_source p user c.ready_queue_offset
  pub valid : IsValid c x.ready_queue
  pub indexed : x.global_index < c.process_num

module _ {S : Type 0} (c : Config) (u : IsUsable c) (os : Os S) where
  source_priority-trap :
      (e : EventSourceEntry) (cpu : ℕ) (in_kernel : Bool) (x : Scheduler) (s : S)
      → RunsCode trap_wait_queue_code e
      → source_priority c os e cpu in_kernel x s
        ≡ TrapWaitQueue.hightest_priority c cpu x.trap_wait_queue
  unfolding source_priority run_hightest
  source_priority-trap e cpu true x s r = rw (r.kernel_highest, run_hightest)
  source_priority-trap e cpu false x s r = rw (r.user_highest, run_hightest)

  source_priority-ready :
      (e : EventSourceEntry) (cpu : ℕ) (in_kernel : Bool) (x : Scheduler) (s : S)
      → RunsCode ready_queue_code e
      → source_priority c os e cpu in_kernel x s
        ≡ done (ReadyQueue.hightest_priority c x.ready_queue)
  unfolding source_priority run_hightest
  source_priority-ready e cpu true x s r = rw (r.kernel_highest, run_hightest)
  source_priority-ready e cpu false x s r = rw (r.user_highest, run_hightest)

  pub own_priorities :
      (cpu : ℕ) (in_kernel : Bool) (p : ℕ) (x : Scheduler) (w : World S) (s : S)
      → cpu < c.cpu_num
      → (o : IsOwn c p x w)
      → source_priorities c os x.sources cpu in_kernel x s
        ≡ done (
            (if is_empty (x.trap_wait_queue.queues cpu)
              then c.lowest_priority + 1
              else c.highest_priority)
            ∷ ReadyQueue.hightest_priority c x.ready_queue
            ∷ [])
  unfolding source_priorities TrapWaitQueue.hightest_priority inactive_priority active_priority
  own_priorities cpu in_kernel p x w s h o =
      ap (λ l. source_priorities c os l cpu in_kernel x s) o.sources
      ∙ ground (
        arith,
        source_priority-trap o.trap_source cpu in_kernel x s o.runs_trap,
        source_priority-ready o.ready_source cpu in_kernel x s o.runs_ready,
      )

  -- For a scheduler with its own two sources, `hightest_priority` is HIGHEST_PRIORITY while the CPU
  -- has traps to handle, and otherwise the priority of the first ready task, or LOWEST_PRIORITY +
  -- 1. It changes nothing.
  pub own-hightest_priority :
      (p cpu : ℕ) (x : Scheduler) (w : World S)
      → cpu < c.cpu_num
      → IsOwn c p x w
      → hightest_priority c os p cpu w
        ≡ done (
          if is_empty (x.trap_wait_queue.queues cpu)
              then c.highest_priority + first_ready (priority_levels c) 0 x.ready_queue.queues
              else c.highest_priority,
          w,
        )
  unfolding hightest_priority scheduler_at fold_min
  own-hightest_priority p cpu x w h o = ground (
    arith,
    o.there,
    o.not_null,
    own_priorities cpu true p x w w.os_state h o,
    own_priorities cpu false p x w w.os_state h o,
    hightest_priority_lem c u x.ready_queue o.valid,
    first_ready-le (priority_levels c) 0 x.ready_queue.queues,
    levels-idle c u,
  )

  pub store_all_lem :
      (n prio j : ℕ) (f : ℕ → ℕ) → store_all n prio f j ≡ (if ltb j n then prio else f j)
  unfolding store_all
  store_all_lem zero prio j f = ground arith
  store_all_lem (suc n) prio j f = ground (arith, store_all_lem n prio j f)

  quiet_priority :
      (x : Scheduler) (w : World S) (cpu : ℕ)
      → x.trap_wait_queue.queues cpu ≡ []
      → ◌≡◌ {A = Outcome (ℕ × World S)}
          (done (
            if is_empty (x.trap_wait_queue.queues cpu)
                then c.highest_priority + first_ready (priority_levels c) 0 x.ready_queue.queues
                else c.highest_priority,
            w,
          ))
          (done (c.highest_priority + first_ready (priority_levels c) 0 x.ready_queue.queues, w))
  quiet_priority x w cpu e = ground arith

  busy_priority :
      (x : Scheduler) (j : ℕ) (w : World S)
      → x.trap_wait_queue.queues j ≢ []
      → ◌≡◌ {A = Outcome (ℕ × World S)}
          (done (
            if is_empty (x.trap_wait_queue.queues j)
                then c.highest_priority + first_ready (priority_levels c) 0 x.ready_queue.queues
                else c.highest_priority,
            w,
          ))
          (done (c.highest_priority, w))
  busy_priority x j w ne = ground arith

  pub move-IsOwn :
      (p : ℕ) (x : Scheduler) (w w' : World S)
      → w'.schedulers p ≡ some x
      → IsOwn c p x w
      → IsOwn c p x w'
  move-IsOwn p x w w' e o = record {
    trap_source = o.trap_source;
    ready_source = o.ready_source;
    user = o.user;
    trap_data = o.trap_data;
    ready_data = o.ready_data;
    not_null = o.not_null;
    there = e;
    sources = o.sources;
    runs_trap = o.runs_trap;
    runs_ready = o.runs_ready;
    valid = o.valid;
    indexed = o.indexed;
  }

  -- Another scheduler at the same address, with the same sources.
  pub put_scheduler-IsOwn :
      (p : ℕ) (x x' : Scheduler) (w : World S)
      → x'.sources ≡ x.sources
      → x'.global_index ≡ x.global_index
      → IsValid c x'.ready_queue
      → IsOwn c p x w
      → IsOwn c p x' (put_scheduler p x' w)
  put_scheduler-IsOwn p x x' w e f v o = record {
    trap_source = o.trap_source;
    ready_source = o.ready_source;
    user = o.user;
    trap_data = o.trap_data;
    ready_data = o.ready_data;
    not_null = o.not_null;
    there = ground arith;
    sources = e ∙ o.sources;
    runs_trap = o.runs_trap;
    runs_ready = o.runs_ready;
    valid = v;
    indexed = omega (arith, f, o.indexed);
  }

  first_ready_later :
      (x : Scheduler)
      → x.ready_queue.queues 0 ≡ []
      → 0 < first_ready (priority_levels c) 0 x.ready_queue.queues
  first_ready_later x e =
      first_ready-pos (priority_levels c) x.ready_queue.queues (priority_levels_bounds c u).0 e

  -- `get_and_update_all_prio`, on a scheduler with its own two sources, where another CPU has traps
  -- to handle, this one has none, and no task of HIGHEST_PRIORITY is ready: the priority recorded
  -- for the other CPU is lower than HIGHEST_PRIORITY, the one that CPU finds.
  pub get_and_update_all_prio-hides :
      (p cpu j : ℕ) (x : Scheduler) (w : World S)
      → cpu < c.cpu_num
      → j < c.cpu_num
      → IsOwn c p x w
      → x.trap_wait_queue.queues cpu ≡ []
      → x.trap_wait_queue.queues j ≢ []
      → x.ready_queue.queues 0 ≡ []
      → Returns
          (λ (prio, w').
            ((w'.process_info_table.table x.global_index).highest_prio j ≡ prio)
            × (hightest_priority c os p j w' ≡ done (c.highest_priority, w'))
            × (c.highest_priority < prio))
          (get_and_update_all_prio c os p cpu w)
  unfolding get_and_update_all_prio update_prio scheduler_at
  get_and_update_all_prio-hides p cpu j x w h hj o quiet busy none_first =
      let found = own-hightest_priority p cpu x w h o ∙ quiet_priority x w cpu quiet in
      let b : (p == 0) ≡ false = ground (arith, o.not_null) in
      let inside : ltb x.global_index c.process_num ≡ true = ground (arith, o.indexed) in
      rw (found, b, o.there, inside)
        (
          ground (
            arith,
            store_all_lem c.cpu_num
                (c.highest_priority + first_ready (priority_levels c) 0 x.ready_queue.queues) j
                (w.process_info_table.table x.global_index).highest_prio,
          ),
          own-hightest_priority p j x _ hj (move-IsOwn p x w _ o.there o)
              ∙ busy_priority x j _ busy,
          ground (arith, first_ready_later x none_first),
        )
