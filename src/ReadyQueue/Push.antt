-- ===== src/ReadyQueue/Push.antt =====
-- schedule/ready_queue.rs: where `push_task` puts a task.
use vsched.Base.{
  ℕ, suc, ◌+◌, ◌-◌, ◌≤◌, ◌<◌, ◌≡◌, ◌⊎◌, [], ◌∷◌, ◌++◌, arith, length, ok, err, Returns,
}
use vsched.Config.{Config, priority_levels}
use vsched.ReadyQueue.{ReadyQueue, push_task}
use vsched.ReadyQueue.Contents.{contents_from, contents_from-around, contents_from-whole}
use vsched.ReadyQueue.Order.{contents}

-- With a priority in range, `push_task` does not panic: it puts the task behind those of its
-- priority and moves no other task, or it gives the task back, changes nothing, and the queue of
-- the priority is full.
pub push_task_lem :
    (c : Config) (prio task : ℕ) (q : ReadyQueue)
    → c.highest_priority ≤ prio
    → prio ≤ c.lowest_priority
    → let level = prio - c.highest_priority in
      let front = contents_from level 0 q.queues in
      let back = contents_from (priority_levels c - suc level) (level + 1) q.queues in
      Returns
        (λ (r, q').
          (contents c q ≡ front ++ (q.queues level ++ back))
          × (((r ≡ ok tt) × (contents c q' ≡ front ++ ((q.queues level ++ task ∷ []) ++ back)))
              ⊎ ((r ≡ err task) × (c.ready_queue_size ≤ length (q.queues level)) × (q' ≡ q))))
        (push_task c prio task q)
unfolding push_task contents priority_levels
push_task_lem c prio task q h k =
    let level = prio - c.highest_priority in
    let inside : level < priority_levels c = omega arith in
    ground (
      arith,
      contents_from-whole (priority_levels c) level q.queues inside,
      contents_from-around (priority_levels c) level q.queues (q.queues level ++ task ∷ []) inside,
    )
