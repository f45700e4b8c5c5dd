-- ===== src/MainLoop/Serve.antt =====
-- schedule/trap_wait_queue.rs: which trap `trap_handler` takes, and the priority that is left.
use vsched.Base.{
  ℕ, ◌+◌, ◌<◌, ◌≡◌, ◌≢◌, refl, ◌⊎◌, inl, inr, false, Option, none, some, List, [], ◌∷◌, arith,
  update, ◌==◌, done, Returns, List-cases,
}
use vsched.Config.{Config, IsUsable, priority_levels}
use vsched.Current.{scheduler_at, put_scheduler}
use vsched.MainLoop.Handler.{pop_trap}
use vsched.Os.{Os}
use vsched.ReadyQueue.Contents.{first_ready}
use vsched.Scheduler.Deliver.{get_and_update_current_prio-own}
use vsched.Scheduler.Own.{IsOwn, move-IsOwn, put_scheduler-IsOwn}
use vsched.World.{World, Scheduler}

-- The scheduler at `p` after `pop_trap` with `rest` left: no other queue, no handler and no ready
-- task has changed, and if `rest` is empty the process table gives the CPU the priority of the ready
-- tasks.
pub record IsPopped {S : Type 0} (c : Config) (p cpu : ℕ) (rest : List (ℕ × Option ℕ))
    (x : Scheduler) (w' : World S) : Type 0 where
  pub after : Scheduler
  pub own : IsOwn c p after w'
  pub queue : after.trap_wait_queue.queues cpu ≡ rest
  pub other_queues : (j : ℕ) → j ≢ cpu → after.trap_wait_queue.queues j ≡ x.trap_wait_queue.queues j
  pub same_handlers : after.trap_wait_queue.idle_handlers ≡ x.trap_wait_queue.idle_handlers
  pub ready_tasks : after.ready_queue ≡ x.ready_queue
  pub last_visible :
      rest ≡ []
      → (w'.process_info_table.table x.global_index).highest_prio cpu
        ≡ c.highest_priority + first_ready (priority_levels c) 0 x.ready_queue.queues

module _ {S : Type 0} (c : Config) (u : IsUsable c) (os : Os S) where
  pop_trap-nil :
      (p cpu : ℕ) (x : Scheduler) (w : World S)
      → IsOwn c p x w
      → x.trap_wait_queue.queues cpu ≡ []
      → pop_trap c os p cpu w ≡ done (none, w)
  unfolding pop_trap scheduler_at
  pop_trap-nil p cpu x w o e =
      let b : (p == 0) ≡ false = ground (arith, o.not_null) in rw (b, o.there, e)

  pop_trap-cons :
      (p cpu : ℕ) (x : Scheduler) (w : World S) (item : ℕ × Option ℕ) (rest : List (ℕ × Option ℕ))
      → cpu < c.cpu_num
      → IsOwn c p x w
      → x.trap_wait_queue.queues cpu ≡ item ∷ rest
      → Returns
          (λ (found, w'). (found ≡ some item) × IsPopped c p cpu rest x w')
          (pop_trap c os p cpu w)
  unfolding pop_trap scheduler_at
  pop_trap-cons p cpu x w item [] h o e =
      let b : (p == 0) ≡ false = ground (arith, o.not_null) in
      let q = record (x.trap_wait_queue) { queues = update x.trap_wait_queue.queues cpu [] } in
      let x' = record x { trap_wait_queue = q } in
      let w1 = put_scheduler p x' w in
      let o1 = put_scheduler-IsOwn c u os p x x' w refl refl o.valid o in
      let none_left : q.queues cpu ≡ [] = ground arith in
      let found = get_and_update_current_prio-own c u os p cpu x' w1 h o1 in
      rw (b, o.there, e, found)
        (
          refl,
          record {
            after = x';
            own = move-IsOwn c u os p x' w1 _ o1.there o1;
            queue = none_left;
            other_queues = λ j ne. ground arith;
            same_handlers = refl;
            ready_tasks = refl;
            last_visible = λ _. ground arith;
          },
        )
  pop_trap-cons p cpu x w item (y ∷ rest) h o e =
      let b : (p == 0) ≡ false = ground (arith, o.not_null) in
      let q = record (x.trap_wait_queue) {
        queues = update x.trap_wait_queue.queues cpu (y ∷ rest);
      } in
      let x' = record x { trap_wait_queue = q } in
      rw (b, o.there, e)
        (
          refl,
          record {
            after = x';
            own = put_scheduler-IsOwn c u os p x x' w refl refl o.valid o;
            queue = ground arith;
            other_queues = λ j ne. ground arith;
            same_handlers = refl;
            ready_tasks = refl;
            last_visible = λ q. cc;
          },
        )

  -- On a scheduler with its own two sources, `pop_trap` takes the oldest trap of the CPU and leaves
  -- the later ones, the traps of other CPUs, the free handlers and the ready tasks as they are; after
  -- the last trap the process table gives the CPU the priority of the first ready task, or
  -- LOWEST_PRIORITY + 1. With no trap for the CPU it gives none and changes nothing.
  pub pop_trap-IsPopped :
      (p cpu : ℕ) (x : Scheduler) (w : World S)
      → cpu < c.cpu_num
      → IsOwn c p x w
      → ((x.trap_wait_queue.queues cpu ≡ []) × (pop_trap c os p cpu w ≡ done (none, w)))
        ⊎ ((item : ℕ × Option ℕ) × (rest : List (ℕ × Option ℕ)) × (x.trap_wait_queue.queues cpu
              ≡ item ∷ rest)
            × Returns
                (λ (found, w'). (found ≡ some item) × IsPopped c p cpu rest x w')
                (pop_trap c os p cpu w))
  pop_trap-IsPopped p cpu x w h o = elim (List-cases (x.trap_wait_queue.queues cpu)) [
    | inl e ↦ inl (e, pop_trap-nil p cpu x w o e)
    | inr (item, rest, e) ↦ inr (item, rest, e, pop_trap-cons p cpu x w item rest h o e)
  ]
