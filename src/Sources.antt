-- ===== src/Sources.antt =====
-- schedule/scheduler.rs: the initialisation of a scheduler and the registration of event sources.
pub mod Index
pub mod Setup
pub mod Start
pub mod User
pub mod RoundTrip
use vsched.Base.{
  ℕ, zero, suc, ◌+◌, ◌-◌, ◌≤◌, ◌<◌, Bool, true, false, ◌||◌, Option, none, some, List, [], ◌∷◌,
  ◌++◌, ltb, leb, ◌==◌, if◌then◌else◌, length, Outcome, done, panic,
}
use vsched.Config.{Config}
use vsched.Current.{scheduler_at, put_scheduler}
use vsched.Monad.{M, pure, ◌>>=◌, ◌>>◌, get, modify, lift, fail, check}
use vsched.Os.{Os, trap_wait_queue_code, ready_queue_code}
use vsched.ReadyQueue
use vsched.Scheduler.{
  data_of, own_vtable, with_user, is_in_kernel, get_and_update_all_prio, is_trap_wait_queue_per_cpu,
  is_ready_queue_per_cpu,
}
use vsched.TrapWaitQueue
use vsched.World.{World, Scheduler, EventSourceEntry, EventSourceVtable}

-- An `isize` argument: `negsuc n` is -(n + 1).
pub data ℤ : Type 0 where
  pos : ℕ → ℤ
  negsuc : ℕ → ℤ

unfoldable pub insert_at {ℓ} : {A : Type ℓ} → ℕ → A → List A → List A
insert_at zero a xs = a ∷ xs
insert_at (suc n) a [] = a ∷ []
insert_at (suc n) a (x ∷ xs) = x ∷ insert_at n a xs

unfoldable pub remove_at {ℓ} : {A : Type ℓ} → ℕ → List A → List A
remove_at n [] = []
remove_at zero (x ∷ xs) = xs
remove_at (suc n) (x ∷ xs) = x ∷ remove_at n xs

unfoldable pub position : Bool → ℕ → List EventSourceEntry → Option ℕ
position in_kernel source [] = none
position in_kernel source (e ∷ es) =
    if data_of e in_kernel == source
    then some 0
    else elim (position in_kernel source es) [ none ↦ none | some i ↦ some (suc i) ]

-- The place that `register_event_source` computes: none where it refuses the index. For
-- -len - 1 that is -1, cast to `usize`.
unfoldable pub insert_index : ℤ → ℕ → Option ℕ
insert_index (pos i) len = if ltb len i then none else some i
insert_index (negsuc i) len =
    if ltb len i then none else if i == len then some 18446744073709551615 else some (len - (i + 1))

module _ {S : Type 0} (c : Config) (os : Os S) where
  -- heapless's `Vec::insert`: it panics beyond the end, and refuses when the vector is full.
  unfoldable pub insert_source : ℕ → ℕ → EventSourceEntry → Scheduler → ℕ → M S Bool
  insert_source p i e x cpu =
      if ltb (length x.sources) i
      then fail
      else if leb c.event_source_num (length x.sources)
      then pure false
      else do
        modify (put_scheduler p (record x { sources = insert_at i e x.sources }))
        _ ← get_and_update_all_prio c os p cpu
        pure true

  unfoldable pub register_event_source : ℕ → ℕ → ℕ → EventSourceVtable → ℤ → ℕ → M S Bool
  register_event_source p kernel_data user_data v index cpu =
      if kernel_data == 0 || user_data == 0 then pure false else do
        x ← scheduler_at p
        elim (insert_index index (length x.sources)) [
          | none ↦ pure false
          | some i ↦
              insert_source p i
                (record { kernel_data = kernel_data; user_data = user_data; vtable = v }) x cpu
        ]

  unfoldable pub unregister_event_source : ℕ → ℕ → ℕ → M S Bool
  unregister_event_source p source cpu = do
    x ← scheduler_at p
    w ← get
    elim (position (is_in_kernel c os cpu x w) source x.sources) [
      | none ↦ pure false
      | some i ↦ do
        modify (put_scheduler p (record x { sources = remove_at i x.sources }))
        _ ← get_and_update_all_prio c os p cpu
        pure true
    ]

  -- `init_once` panics on a second call.
  unfoldable pub init_except_sources : ℕ → ℕ → M S (Unit {0})
  init_except_sources p global_index = do
    w ← get
    elim (w.schedulers p) [
      | some _ ↦ fail
      | none ↦ modify (
          put_scheduler p (record {
            sources = [];
            global_index = global_index;
            ready_queue = ReadyQueue.new c;
            trap_wait_queue = TrapWaitQueue.new;
          }))
    ]

  -- `twq_ref.init(…)`: the handlers get the scheduler's address.
  unfoldable pub init_trap_handlers : ℕ → M S (Unit {0})
  init_trap_handlers p = do
    x ← scheduler_at p
    w ← get
    (q, s) ← lift (TrapWaitQueue.init c os p x.trap_wait_queue w.os_state)
    modify (λ w. put_scheduler p (record x { trap_wait_queue = q }) (record w { os_state = s }))

  -- `sources.push(…).unwrap()`.
  unfoldable pub push_source : ℕ → EventSourceEntry → M S (Unit {0})
  push_source p e = do
    x ← scheduler_at p
    check (ltb (length x.sources) c.event_source_num)
    modify (put_scheduler p (record x { sources = x.sources ++ e ∷ [] }))

  unfoldable pub init : ℕ → ℕ → ℕ → M S (Unit {0})
  init p global_index cpu = do
    init_except_sources p global_index
    init_trap_handlers p
    w ← get
    let twq = p + c.trap_wait_queue_offset
    let rq = p + c.ready_queue_offset
    push_source p (record {
      kernel_data = twq;
      user_data = twq;
      vtable = own_vtable trap_wait_queue_code is_trap_wait_queue_per_cpu w;
    })
    push_source p (record {
      kernel_data = rq;
      user_data = rq;
      vtable = own_vtable ready_queue_code is_ready_queue_per_cpu w;
    })
    _ ← get_and_update_all_prio c os p cpu
    pure tt

  -- `user_ref` is the address of the instance in the user's address space. A `LazyInit` and its value
  -- have one address here, so that `kernel_self - kernel_ref` is 0.
  unfoldable pub init_sources : ℕ → ℕ → ℕ → ℕ → M S (Unit {0})
  init_sources p user_ref vspace cpu = do
    init_trap_handlers p
    w ← get
    trap_vtable ←
        with_user c os vspace (own_vtable trap_wait_queue_code is_trap_wait_queue_per_cpu w)
    push_source p (record {
      kernel_data = p + c.trap_wait_queue_offset;
      user_data = user_ref + c.trap_wait_queue_offset;
      vtable = trap_vtable;
    })
    ready_vtable ← with_user c os vspace (own_vtable ready_queue_code is_ready_queue_per_cpu w)
    push_source p (record {
      kernel_data = p + c.ready_queue_offset;
      user_data = user_ref + c.ready_queue_offset;
      vtable = ready_vtable;
    })
    _ ← get_and_update_all_prio c os p cpu
    pure tt
