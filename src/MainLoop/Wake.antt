-- ===== src/MainLoop/Wake.antt =====
-- schedule/trap_wait_queue.rs: what `trap_handler` does with the task that waits for a trap.
use vsched.Base.{
  ℕ, ◌-◌, ◌≤◌, ◌<◌, ◌≡◌, ◌≢◌, refl, ap, length, done, panic, Result, Returns, Returns-done, ◌∙◌,
  ◌⊎◌, inl, inr,
}
use vsched.Config.{Config, IsUsable}
use vsched.MainLoop.Handler.{scheduler_of, wake}
use vsched.Os.{Os, TaskLaws, TaskState, ready, running, blocked, exited, blocking, next_state}
use vsched.Scheduler
use vsched.Scheduler.Own.{IsOwn, move-IsOwn}
use vsched.Scheduler.Push.{IsQueued, push_task-IsQueued}
use vsched.World.{World, Scheduler}

module _ {S : Type 0} (os : Os S) where
  -- The state once `match_set_state` has looked at the task.
  abbrev pub woken : ℕ → World S → World S
  woken task w = record w {
    os_state = (os.match_set_state ready running ready exited blocking task w.os_state).1;
  }

module _ {S : Type 0} (c : Config) (u : IsUsable c) (os : Os S) (laws : TaskLaws os) where
  found :
      (task : ℕ) (w : World S)
      → (os.match_set_state ready running ready exited blocking task w.os_state).0
        ≡ os.state w.os_state task
  found task w = laws.match_set_state_old ready running ready exited blocking task w.os_state

  wake-blocked :
      (p cpu task : ℕ) (x : Scheduler) (w : World S)
      → scheduler_of c os task (woken os task w) ≡ done (p, woken os task w)
      → IsOwn c p x w
      → cpu < c.cpu_num
      → c.highest_priority ≤ os.priority (woken os task w).os_state task
      → os.priority (woken os task w).os_state task ≤ c.lowest_priority
      → os.state w.os_state task ≡ blocked
      → let level = os.priority (woken os task w).os_state task - c.highest_priority in
        Returns
          (λ (_, w').
            (os.state w'.os_state task ≡ ready) × IsQueued c p level task x (woken os task w) w')
          (wake c os task cpu w)
        ⊎ ((c.ready_queue_size ≤ length (x.ready_queue.queues level))
            × (wake c os task cpu w ≡ panic))
  unfolding wake
  wake-blocked p cpu task x w home o h above below e =
      let w1 = woken os task w in
      let old = found task w ∙ e in
      let new =
        laws.match_set_state_new ready running ready exited blocking task w.os_state
        ∙ ap (next_state ready running ready exited blocking) e in
      let ((res, w'), pushed, result) = Returns-done _ (Scheduler.push_task c os p task cpu w1) (
        push_task-IsQueued c u os p cpu task x w1 h (move-IsOwn c u os p x w w1 o.there o) above
          below) in
      elim result [
        | inl (worked, queued) ↦
            let in_queue = pushed ∙ ap (λ (r : Result (Unit {0}) ℕ). done (r, w')) worked in
            inl (
              rw (old, home, in_queue)
                (ap (λ s. os.state s task) queued.same_os ∙ unfold next_state in new, queued))
        | inr (full, size, _, _) ↦
            let given_back = pushed ∙ ap (λ (r : Result (Unit {0}) ℕ). done (r, w')) full in
            inr (size, rw (old, home, given_back))
      ]

  wake-other :
      (cpu task : ℕ) (w : World S) (state : TaskState)
      → os.state w.os_state task ≡ state
      → ((os.state w.os_state task ≡ blocked) ⊎ (os.state w.os_state task ≡ exited))
        ⊎ ((os.state w.os_state task ≢ blocked)
            × (os.state w.os_state task ≢ exited)
            × (wake c os task cpu w ≡ panic))
  unfolding wake
  wake-other cpu task w blocked e = inl (inl e)
  wake-other cpu task w exited e = inl (inr e)
  wake-other cpu task w ready e = inr (λ q. cc, λ q. cc, rw (found task w ∙ e))
  wake-other cpu task w running e = inr (λ q. cc, λ q. cc, rw (found task w ∙ e))
  wake-other cpu task w blocking e = inr (λ q. cc, λ q. cc, rw (found task w ∙ e))

  -- `wake`, for a task with a priority in range whose scheduler is at `p` and has its own two
  -- sources. A Blocked task is Ready afterwards, stands last in the queue of its priority there, and
  -- every CPU finds that priority or a higher one in the process table; or that queue is full, and
  -- the code panics. An Exited task is freed and nothing else happens. From any other state the code
  -- panics.
  pub wake_lem :
      (p cpu task : ℕ) (x : Scheduler) (w : World S)
      → scheduler_of c os task (woken os task w) ≡ done (p, woken os task w)
      → IsOwn c p x w
      → cpu < c.cpu_num
      → c.highest_priority ≤ os.priority (woken os task w).os_state task
      → os.priority (woken os task w).os_state task ≤ c.lowest_priority
      → let level = os.priority (woken os task w).os_state task - c.highest_priority in
        let w1 = woken os task w in
        ((os.state w.os_state task ≡ blocked)
          × (Returns
                (λ (_, w'). (os.state w'.os_state task ≡ ready) × IsQueued c p level task x w1 w')
                (wake c os task cpu w)
              ⊎ ((c.ready_queue_size ≤ length (x.ready_queue.queues level))
                  × (wake c os task cpu w ≡ panic))))
        ⊎ (((os.state w.os_state task ≡ exited)
              × (wake c os task cpu w
                  ≡ done (tt, record w1 { os_state = os.dealloc_task task w1.os_state })))
            ⊎ ((os.state w.os_state task ≢ blocked)
                × (os.state w.os_state task ≢ exited)
                × (wake c os task cpu w ≡ panic)))
  unfolding wake
  wake_lem p cpu task x w home o h above below =
      elim (wake-other cpu task w (os.state w.os_state task) refl) [
        | inl (inl e) ↦ inl (e, wake-blocked p cpu task x w home o h above below e)
        | inl (inr e) ↦ inr (inl (e, rw (found task w ∙ e)))
        | inr panics ↦ inr (inr panics)
      ]
