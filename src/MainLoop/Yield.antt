-- ===== src/MainLoop/Yield.antt =====
-- main_loop.rs: a thread that comes back Ready, as one that yields does.
use vsched.Base.{
  ℕ, ◌+◌, ◌-◌, ◌≤◌, ◌<◌, ◌≡◌, refl, ap, if◌then◌else◌, ◌==◌, length, done, panic, Result, Returns,
  Returns-done, ◌∙◌, ◌⊎◌, inl, inr,
}
use vsched.Config.{Config, IsUsable}
use vsched.Current.{get_current_task}
use vsched.MainLoop.{settle, push_prev_task, push_back, put_away, home_of, thread_entry_phase2}
use vsched.Os.{Os, TaskLaws, ready, blocked, exited, next_state}
use vsched.Scheduler
use vsched.Scheduler.Own.{IsOwn, move-IsOwn}
use vsched.Scheduler.Push.{IsQueued, push_task-IsQueued}
use vsched.World.{World, Scheduler}

module _ {S : Type 0} (os : Os S) where
  -- The state once `match_set_state` has looked at the current task.
  abbrev pub settled : ℕ → World S → World S
  settled cpu w = record w {
    os_state =
        (os.match_set_state ready blocked blocked exited blocked (w.current_task cpu) w.os_state).1;
  }

module _ {S : Type 0} (c : Config) (u : IsUsable c) (os : Os S) (laws : TaskLaws os) where
  -- A thread that comes back Ready, with a priority in range, and whose scheduler is at `p` and has
  -- its own two sources: it stays Ready and stands last in the queue of its priority there, every
  -- CPU finds that priority or a higher one in the process table, and the result is the privilege
  -- level, plus 2 for a single CPU; or that queue is full, and the code panics.
  pub thread_entry_phase2-IsQueued :
      (p cpu : ℕ) (x : Scheduler) (w : World S)
      → os.state w.os_state (w.current_task cpu) ≡ ready
      → home_of c os (w.current_task cpu) (settled os cpu w) ≡ done (p, settled os cpu w)
      → IsOwn c p x w
      → cpu < c.cpu_num
      → c.highest_priority ≤ os.priority (settled os cpu w).os_state (w.current_task cpu)
      → os.priority (settled os cpu w).os_state (w.current_task cpu) ≤ c.lowest_priority
      → let task = w.current_task cpu in
        let level = os.priority (settled os cpu w).os_state task - c.highest_priority in
        Returns
          (λ (res, w').
            (os.state w'.os_state task ≡ ready)
            × IsQueued c p level task x (settled os cpu w) w'
            × (res ≡ (if c.cpu_num == 1 then 2 else 0) + (if w'.in_kernel cpu then 0 else 1)))
          (thread_entry_phase2 c os cpu w)
        ⊎ ((c.ready_queue_size ≤ length (x.ready_queue.queues level))
            × (thread_entry_phase2 c os cpu w ≡ panic))
  unfolding thread_entry_phase2 get_current_task settle put_away push_prev_task push_back
  thread_entry_phase2-IsQueued p cpu x w e home o h above below =
      let task = w.current_task cpu in
      let w1 = settled os cpu w in
      let old = laws.match_set_state_old ready blocked blocked exited blocked task w.os_state ∙ e in
      let new =
        laws.match_set_state_new ready blocked blocked exited blocked task w.os_state
        ∙ ap (next_state ready blocked blocked exited blocked) e in
      let o1 = move-IsOwn c u os p x w w1 o.there o in
      let ((res, w'), pushed, result) =
        Returns-done _ (Scheduler.push_task c os p task cpu w1)
          (push_task-IsQueued c u os p cpu task x w1 h o1 above below) in
      elim result [
        | inl (worked, queued) ↦
            let in_queue = pushed ∙ ap (λ (r : Result (Unit {0}) ℕ). done (r, w')) worked in
            inl (
              rw (old, put_away, push_prev_task, home, in_queue)
                (ap (λ s. os.state s task) queued.same_os ∙ unfold next_state in new, queued, refl))
        | inr (full, size, _, _) ↦
            let given_back = pushed ∙ ap (λ (r : Result (Unit {0}) ℕ). done (r, w')) full in
            inr (size, rw (old, put_away, push_prev_task, home, given_back))
      ]
