-- ===== src/Sources/RoundTrip.antt =====
-- schedule/scheduler.rs: an event source that is registered and unregistered.
use vsched.Base.{
  ℕ, zero, suc, ◌≤◌, ◌<◌, ◌≡◌, ◌≢◌, refl, ap, ◌∙◌, Bool, true, false, none, some, List, [], ◌∷◌,
  arith, length, done, Returns, Returns-done, Returns-map, ◌||◌, ltb, ◌==◌, leb, if◌then◌else◌,
  Option-cases, inl, inr,
}
use vsched.Base.Outcomes.{Returns->>=}
use vsched.Config.{Config}
use vsched.Current.{scheduler_at, put_scheduler}
use vsched.Monad.{lift}
use vsched.Os.{Os, Code, trap_wait_queue_code, ready_queue_code, external_code}
use vsched.Scheduler.{
  data_of, is_in_kernel, get_and_update_all_prio, hightest_priority, update_prio, source_priorities,
  source_priority, run_hightest,
}
use vsched.Sources.{
  ℤ, insert_at, remove_at, position, insert_index, insert_source, register_event_source,
  unregister_event_source,
}
use vsched.TrapWaitQueue
use vsched.World.{World, Scheduler, EventSourceEntry}

pub position-insert_at :
    (k : Bool) (source i : ℕ) (e : EventSourceEntry) (es : List EventSourceEntry)
    → i ≤ length es
    → data_of e k ≡ source
    → position k source es ≡ none
    → position k source (insert_at i e es) ≡ some i
unfolding position insert_at
position-insert_at k source zero e es l here new = ground arith
position-insert_at k source (suc i) e [] l here new = absurd (omega arith)
position-insert_at k source (suc i) e (x ∷ es) l here new =
    elim (Option-cases (position k source es)) [
      | inl none_left ↦
          ground (arith, position-insert_at k source i e es (ground arith) here none_left)
      | inr (j, found) ↦ ground arith
    ]

pub remove_at-insert_at {ℓ} :
    {A : Type ℓ} (i : ℕ) (a : A) (xs : List A) → i ≤ length xs → remove_at i (insert_at i a xs) ≡ xs
unfolding remove_at insert_at
remove_at-insert_at zero a xs l = refl
remove_at-insert_at (suc i) a [] l = absurd (omega arith)
remove_at-insert_at (suc i) a (x ∷ xs) l =
    ap (λ ys. x ∷ ys) (remove_at-insert_at i a xs (ground arith))

module _ {S : Type 0} (c : Config) (os : Os S) (p cpu : ℕ) (not_null : p ≢ 0)
    (on_cpu : cpu < c.cpu_num) where
  run_hightest-Returns :
      (code : Code) (ptr : ℕ) (x : Scheduler) (s : S)
      → Returns (λ prio. Unit {0}) (run_hightest c os code ptr cpu x s)
  unfolding run_hightest TrapWaitQueue.hightest_priority
  run_hightest-Returns trap_wait_queue_code ptr x s = ground arith
  run_hightest-Returns ready_queue_code ptr x s = tt
  run_hightest-Returns (external_code f) ptr x s = tt

  source_priorities_return :
      (es : List EventSourceEntry) (k : Bool) (x : Scheduler) (s : S)
      → Returns (λ prios. Unit {0}) (source_priorities c os es cpu k x s)
  unfolding source_priorities source_priority
  source_priorities_return [] k x s = tt
  source_priorities_return (e ∷ es) k x s =
      let f = if k then e.vtable.kernel_hightest_priority else e.vtable.user_hightest_priority in
      Returns->>= _ _ (run_hightest c os f.0 (data_of e k) cpu x s) _
        (run_hightest-Returns f.0 (data_of e k) x s)
        (λ prio _.
          Returns->>= _ _ (source_priorities c os es cpu k x s) _
            (source_priorities_return es k x s) (λ prios _. tt))

  hightest_priority-Returns :
      (x : Scheduler) (w : World S)
      → w.schedulers p ≡ some x
      → Returns (λ (prio, w'). w' ≡ w) (hightest_priority c os p cpu w)
  unfolding hightest_priority scheduler_at
  hightest_priority-Returns x w there =
      let b : (p == 0) ≡ false = ground (arith, not_null) in
      let k = is_in_kernel c os cpu x w in
      rw (b, there)
        (Returns->>= _ _ (lift (source_priorities c os x.sources cpu k x w.os_state) w) _
          (Returns->>= _ (λ (prios, w'). w' ≡ w)
            (source_priorities c os x.sources cpu k x w.os_state) _
            (source_priorities_return x.sources k x w.os_state) (λ prios _. refl))
          (λ (prios, w') same. same))

  -- With any sources, the update of the process's priority returns, and only it changes.
  pub get_and_update_all_prio-Returns :
      (x : Scheduler) (w : World S)
      → w.schedulers p ≡ some x
      → x.global_index < c.process_num
      → Returns
          (λ (prio, w'). (w'.schedulers ≡ w.schedulers) × (w'.in_kernel ≡ w.in_kernel))
          (get_and_update_all_prio c os p cpu w)
  unfolding get_and_update_all_prio update_prio scheduler_at
  get_and_update_all_prio-Returns x w there small =
      let b : (p == 0) ≡ false = ground (arith, not_null) in
      let inside : ltb x.global_index c.process_num ≡ true = ground arith in
      let ((prio, w'), looked, same) =
        Returns-done _ (hightest_priority c os p cpu w) (hightest_priority-Returns x w there) in
      let found = looked ∙ ap (λ v. done (prio, v)) same in
      rw (found, b, there, inside) (refl, refl)

  unregister_event_source-removes :
      (source i : ℕ) (x : Scheduler) (w : World S)
      → w.schedulers p ≡ some x
      → x.global_index < c.process_num
      → position (is_in_kernel c os cpu x w) source x.sources ≡ some i
      → Returns
          (λ (removed, w').
            (removed ≡ true)
            × (w'.schedulers p ≡ some (record x { sources = remove_at i x.sources })))
          (unregister_event_source c os p source cpu w)
  unfolding unregister_event_source scheduler_at
  unregister_event_source-removes source i x w there small found =
      let b : (p == 0) ≡ false = ground (arith, not_null) in
      let x1 = record x { sources = remove_at i x.sources } in
      let w1 = put_scheduler p x1 w in
      let ((prio, w2), updated, (same, same_mode)) =
        Returns-done _ (get_and_update_all_prio c os p cpu w1)
          (get_and_update_all_prio-Returns x1 w1 (ground arith) small) in
      let worked : unregister_event_source c os p source cpu w ≡ done (true, w2) =
        ground (arith, b, there, found, updated) in
      rw worked (refl, ap (λ f. f p) same ∙ ground arith)

  -- On a scheduler that is there, with room for one source more, `register_event_source` accepts an
  -- index for which the place is within the sources, and puts the source there. If no source had
  -- the same data, `unregister_event_source` with its data finds it and removes it, and the
  -- scheduler is what it was: the sources have their places again, and nothing else of it changes.
  pub register-unregister :
      (index : ℤ) (i : ℕ) (e : EventSourceEntry) (x : Scheduler) (w : World S)
      → w.schedulers p ≡ some x
      → x.global_index < c.process_num
      → length x.sources < c.event_source_num
      → e.kernel_data ≢ 0
      → e.user_data ≢ 0
      → insert_index index (length x.sources) ≡ some i
      → i ≤ length x.sources
      → let k = is_in_kernel c os cpu x w in
        position k (data_of e k) x.sources ≡ none
        → Returns
            (λ (added, w1).
              (added ≡ true)
              × (w1.schedulers p ≡ some (record x { sources = insert_at i e x.sources }))
              × Returns
                  (λ (removed, w2). (removed ≡ true) × (w2.schedulers p ≡ some x))
                  (unregister_event_source c os p (data_of e k) cpu w1))
            (register_event_source c os p e.kernel_data e.user_data e.vtable index cpu w)
  unfolding register_event_source insert_source scheduler_at is_in_kernel
  register-unregister index i e x w there small room nk nu at inside new =
      let b : (p == 0) ≡ false = ground (arith, not_null) in
      let bk : (e.kernel_data == 0) ≡ false = ground (arith, nk) in
      let bu : (e.user_data == 0) ≡ false = ground (arith, nu) in
      let within : ltb (length x.sources) i ≡ false = ground arith in
      let not_full : leb c.event_source_num (length x.sources) ≡ false = ground arith in
      let x1 = record x { sources = insert_at i e x.sources } in
      let w1 = put_scheduler p x1 w in
      let ((prio, w2), updated, (same, same_mode)) =
        Returns-done _ (get_and_update_all_prio c os p cpu w1)
          (get_and_update_all_prio-Returns x1 w1 (ground arith) small) in
      let worked : register_event_source c os p e.kernel_data e.user_data e.vtable index cpu w
          ≡ done (true, w2) =
        ground (arith, bk, bu, b, there, at, within, not_full, updated) in
      let there2 : w2.schedulers p ≡ some x1 = ap (λ f. f p) same ∙ ground arith in
      let k = is_in_kernel c os cpu x w in
      let same_kernel : is_in_kernel c os cpu x1 w2 ≡ k =
        ap (λ f. x.global_index == 0 || f cpu) same_mode in
      let found : position (is_in_kernel c os cpu x1 w2) (data_of e k) x1.sources ≡ some i =
        ap (λ m. position m (data_of e k) x1.sources) same_kernel
        ∙ position-insert_at k (data_of e k) i e x.sources inside refl new in
      let restored = remove_at-insert_at i e x.sources inside in
      rw worked (
        refl,
        there2,
        Returns-map _ _ (unregister_event_source c os p (data_of e k) cpu w2)
            (unregister_event_source-removes (data_of e k) i x1 w2 there2 small found)
            (λ (removed, w3) (yes_removed, there3).
              (yes_removed, there3 ∙ ap (λ l. some (record x { sources = l })) restored)),
      )
