-- ===== src/ReadyQueue/Idle.antt =====
-- schedule/ready_queue.rs: what the bitmap and `take_task` say when no task is ready.
use vsched.Base.{ℕ, ◌+◌, ◌≤◌, ◌≡◌, ◌↔◌, ◌≢◌, inl, inr, [], arith, ◌==◌, Bool-cases}
use vsched.Config.{Config, IsUsable, priority_levels, levels-idle}
use vsched.ReadyQueue.{ReadyQueue, hightest_priority, take_task}
use vsched.ReadyQueue.Invariant.{IsValid, take_task-IsValid}
use vsched.ReadyQueue.Contents.{first_ready, first_ready-le, first_ready-contents}
use vsched.ReadyQueue.Order.{contents, hightest_priority_lem, take_task_lem}

-- On a queue that agrees with its bitmap, `hightest_priority` is LOWEST_PRIORITY + 1 exactly when
-- no task is ready.
pub hightest_priority-idle :
    (c : Config) (u : IsUsable c) (q : ReadyQueue)
    → IsValid c q
    → (hightest_priority c q ≡ c.lowest_priority + 1) ↔ (contents c q ≡ [])
unfolding contents
hightest_priority-idle c u q v = (
  λ h.
      (first_ready-contents (priority_levels c) 0 q.queues).0
        (omega (arith, hightest_priority_lem c u q v, levels-idle c u)),
  λ h. omega (
    arith,
    (first_ready-contents (priority_levels c) 0 q.queues).1 h,
    hightest_priority_lem c u q v,
    levels-idle c u,
  ),
)

pub busy :
    (c : Config) (u : IsUsable c) (q : ReadyQueue) {p : ℕ}
    → IsValid c q
    → contents c q ≢ []
    → p ≡ hightest_priority c q
    → p ≤ c.lowest_priority
unfolding contents
busy c u q v some_task e =
    elim (Bool-cases (first_ready (priority_levels c) 0 q.queues == priority_levels c)) [
      | inl all ↦
          absurd
            (some_task ((first_ready-contents (priority_levels c) 0 q.queues).0 (ground arith)))
      | inr one ↦ ground (
        arith,
        e,
        first_ready-le (priority_levels c) 0 q.queues,
        hightest_priority_lem c u q v,
        levels-idle c u,
      )
    ]

-- On a queue that agrees with its bitmap, where the task taken was the last one: the bitmap says so
-- afterwards, but the priority that `take_task` gave is still one of a ready task, LOWEST_PRIORITY
-- at most.
pub take_task_stale :
    (c : Config) (u : IsUsable c) (q : ReadyQueue)
    → IsValid c q
    → contents c q ≢ []
    → contents c (take_task c q).1 ≡ []
    → ((take_task c q).0.1 ≤ c.lowest_priority)
      × (hightest_priority c (take_task c q).1 ≡ c.lowest_priority + 1)
take_task_stale c u q v some_task last = elim (take_task_lem c u q v) [
  | inl (none_left, _) ↦ absurd (some_task none_left)
  | inr (_, prio) ↦ (
    busy c u q v some_task prio,
    (hightest_priority-idle c u _ (take_task-IsValid c u q v)).1 last,
  )
]
