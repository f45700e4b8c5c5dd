-- ===== src/ReadyQueue/Invariant.antt =====
-- schedule/ready_queue.rs: the bitmap agrees with the queues, from `new` on and through every call.
use vsched.Base.{
  ℕ, zero, suc, ◌+◌, ◌-◌, ◌≤◌, ◌<◌, ◌≡◌, inl, inr, not, List, [], ◌∷◌, arith, ◌==◌, length,
  length-append, is_empty, List-cases, done, Result,
}
use vsched.Config.{Config, IsUsable, priority_levels, priority_levels_bounds}
use vsched.Bits.{test_bit, test_bit-set_bit, test_bit-clear_bit, test_bit-zero}
use vsched.ReadyQueue.{ReadyQueue, new, push_task, taken, take_from, take_task}

-- A bit of the first `priority_levels c` is set when the level has tasks; of the rest only the
-- first is. No queue is longer than its capacity.
pub record IsValid (c : Config) (q : ReadyQueue) : Type 0 where
  pub tracked :
      (i : ℕ)
      → i < priority_levels c
      → test_bit q.prio_bitmap (63 - i) ≡ not (is_empty (q.queues i))
  pub sentinel :
      (i : ℕ)
      → priority_levels c ≤ i
      → i ≤ 63
      → test_bit q.prio_bitmap (63 - i) ≡ (i == priority_levels c)
  pub bounded : (i : ℕ) → length (q.queues i) ≤ c.ready_queue_size

module _ (c : Config) (u : IsUsable c) where
  pub new-IsValid : IsValid c (new c)
  unfolding new
  new-IsValid = record {
    tracked = λ i h. ground (
      arith,
      priority_levels_bounds c u,
      test_bit-set_bit 0 (63 - priority_levels c) (63 - i),
      test_bit-zero (63 - i),
    );
    sentinel = λ i h k. ground (
      arith,
      priority_levels_bounds c u,
      test_bit-set_bit 0 (63 - priority_levels c) (63 - i),
      test_bit-zero (63 - i),
    );
    bounded = λ i. omega arith;
  }

  -- A `push_task` that does not panic keeps the bitmap in step with the queues, and the queues within
  -- their capacity.
  pub push_task-IsValid :
      (prio task : ℕ) (q q' : ReadyQueue) (r : Result (Unit {0}) ℕ)
      → IsValid c q
      → push_task c prio task q ≡ done (r, q')
      → IsValid c q'
  unfolding push_task
  push_task-IsValid prio task q q' r v e = record {
    tracked = λ i h. ground (
      arith,
      priority_levels_bounds c u,
      v.tracked i h,
      test_bit-set_bit q.prio_bitmap (63 - (prio - c.highest_priority)) (63 - i),
    );
    sentinel = λ i h k. ground (
      arith,
      priority_levels_bounds c u,
      v.sentinel i h k,
      test_bit-set_bit q.prio_bitmap (63 - (prio - c.highest_priority)) (63 - i),
    );
    bounded = λ i.
        ground
          (arith, v.bounded i, length-append (q.queues (prio - c.highest_priority)) (task ∷ []));
  }

  taken-IsValid :
      (level task : ℕ) (rest : List ℕ) (q : ReadyQueue)
      → IsValid c q
      → level < priority_levels c
      → q.queues level ≡ task ∷ rest
      → IsValid c (taken c level task rest q).1
  unfolding taken
  taken-IsValid level task [] q v l e = record {
    tracked = λ i h. ground (
      arith,
      priority_levels_bounds c u,
      v.tracked i h,
      test_bit-clear_bit q.prio_bitmap (63 - level) (63 - i),
    );
    sentinel = λ i h k. ground (
      arith,
      priority_levels_bounds c u,
      v.sentinel i h k,
      test_bit-clear_bit q.prio_bitmap (63 - level) (63 - i),
    );
    bounded = λ i. ground (arith, v.bounded i);
  }
  taken-IsValid level task (x ∷ rest) q v l e = record {
    tracked = λ i h. ground (arith, v.tracked i h);
    sentinel = λ i h k. ground (arith, v.sentinel i h k);
    bounded = λ i. ground (arith, v.bounded i);
  }

  take_from-IsValid :
      (n level : ℕ) (q : ReadyQueue)
      → level + n ≤ priority_levels c
      → IsValid c q
      → IsValid c (take_from c n level q).1
  unfolding take_from
  take_from-IsValid zero level q h v = v
  take_from-IsValid (suc n) level q h v = elim (List-cases (q.queues level)) [
    | inl e ↦ rw (e, take_from) (take_from-IsValid n (level + 1) q (omega arith) v)
    | inr (task, rest, e) ↦ rw (e, take_from) (taken-IsValid level task rest q v (omega arith) e)
  ]

  -- `take_task` keeps the bitmap in step with the queues, and the queues within their capacity.
  pub take_task-IsValid : (q : ReadyQueue) → IsValid c q → IsValid c (take_task c q).1
  unfolding take_task
  take_task-IsValid q v = take_from-IsValid (priority_levels c) 0 q (omega arith) v
