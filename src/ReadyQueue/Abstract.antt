-- ===== src/ReadyQueue/Abstract.antt =====
-- schedule/ready_queue.rs: any calls in any order, and a bounded priority queue that is one list: a
-- new task goes behind those of its level, and each level has its capacity.
use vsched.Base.{
  ℕ, ◌+◌, ◌-◌, ◌≤◌, List, [], ◌∷◌, leb, if◌then◌else◌, Outcome, done, Result, ok, err, ◌>>=◌,
}
use vsched.Config.{Config, priority_levels}
use vsched.ReadyQueue.{ReadyQueue, push_task, take_task, hightest_priority}
use vsched.ReadyQueue.Entries.{entries_from, insert, waiting}

pub data Call : Type 0 where
  push : ℕ → ℕ → Call
  take : Call
  look : Call

pub data Reply : Type 0 where
  accepted : Reply
  refused : Reply
  gave : ℕ → Reply
  shows : ℕ → Reply

abbrev pub reply_of : Result (Unit {0}) ℕ → Reply
reply_of (ok _) = accepted
reply_of (err _) = refused

module _ (c : Config) where
  -- The priority of a `push` is in range.
  abbrev pub InRange : List Call → Type 0
  InRange [] = Unit {0}
  InRange (push prio t ∷ calls) =
      (c.highest_priority ≤ prio) × (prio ≤ c.lowest_priority) × InRange calls
  InRange (take ∷ calls) = InRange calls
  InRange (look ∷ calls) = InRange calls

  abbrev pub entries : ReadyQueue → List (ℕ × ℕ)
  entries q = entries_from (priority_levels c) 0 q.queues

  abbrev pub answer : Call → ReadyQueue → Outcome (Reply × ReadyQueue)
  answer (push prio t) q = push_task c prio t q >>= λ (r, q'). done (reply_of r, q')
  answer take q = let ((t, prio), q') = take_task c q in done (gave t, q')
  answer look q = done (shows (hightest_priority c q), q)

  unfoldable pub run : List Call → ReadyQueue → Outcome (List Reply × ReadyQueue)
  run [] q = done ([], q)
  run (x ∷ calls) q = answer x q >>= λ (r, q1). run calls q1 >>= λ (rs, q2). done (r ∷ rs, q2)

  abbrev pub spec : Call → List (ℕ × ℕ) → Reply × List (ℕ × ℕ)
  spec (push prio t) es =
      let level = prio - c.highest_priority in
      if leb c.ready_queue_size (waiting level es)
      then (refused, es)
      else (accepted, insert level t es)
  spec take [] = (gave 0, [])
  spec take ((level, t) ∷ es) = (gave t, es)
  spec look [] = (shows (c.lowest_priority + 1), [])
  spec look ((level, t) ∷ es) = (shows (c.highest_priority + level), (level, t) ∷ es)

  unfoldable pub spec_run : List Call → List (ℕ × ℕ) → List Reply × List (ℕ × ℕ)
  spec_run [] es = ([], es)
  spec_run (x ∷ calls) es =
      let (r, es1) = spec x es in let (rs, es2) = spec_run calls es1 in (r ∷ rs, es2)
