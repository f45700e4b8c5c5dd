-- ===== src/ReadyQueue.antt =====
-- schedule/ready_queue.rs: one FIFO for each priority and a bitmap of the priorities with tasks. A
-- task is its pointer, 0 for null. The queue of priority HIGHEST_PRIORITY + i is that of level i.
pub mod Invariant
pub mod Contents
pub mod Order
pub mod Idle
pub mod Push
pub mod Entries
pub mod Abstract
pub mod Runs
pub mod Interleaved
use vsched.Base.{
  ℕ, zero, suc, ◌+◌, ◌-◌, ◌≤◌, ◌<◌, ◌≡◌, refl, Bool, true, false, ◌||◌, Option, none, some, List,
  [], ◌∷◌, ◌++◌, arith, ltb, leb, if◌then◌else◌, length, is_empty, update, Outcome, done, panic,
  Result, ok, err,
}
use vsched.Config.{Config, priority_levels}
use vsched.Bits.{set_bit, clear_bit, highest_one_from}

pub record ReadyQueue : Type 0 where
  pub queues : ℕ → List ℕ
  pub prio_bitmap : ℕ

unfoldable pub highest_one : ℕ → Option ℕ
highest_one bitmap = highest_one_from bitmap 63

unfoldable pub new : Config → ReadyQueue
new c = record {
  queues = λ _. [];
  prio_bitmap = if leb (priority_levels c) 63 then set_bit 0 (63 - priority_levels c) else 0;
}

-- An index outside the array panics, as that of a priority under HIGHEST_PRIORITY does: it wraps.
unfoldable pub push_task : Config → ℕ → ℕ → ReadyQueue → Outcome (Result (Unit {0}) ℕ × ReadyQueue)
push_task c prio task q =
    let level = prio - c.highest_priority in
    if ltb prio c.highest_priority || leb (priority_levels c) level
    then panic
    else if leb c.ready_queue_size (length (q.queues level))
    then done (err task, q)
    else done (
      ok tt,
      record {
        queues = update q.queues level (q.queues level ++ task ∷ []);
        prio_bitmap = set_bit q.prio_bitmap (63 - level);
      },
    )

-- 63 + HIGHEST_PRIORITY - highest_one_index, with -1 for no bit.
unfoldable pub bitmap_priority : Config → ℕ → ℕ
bitmap_priority c bitmap = elim (highest_one bitmap) [
  | none ↦ c.highest_priority + 64
  | some i ↦ c.highest_priority + (63 - i)
]

unfoldable pub hightest_priority : Config → ReadyQueue → ℕ
hightest_priority c q = bitmap_priority c q.prio_bitmap

-- The body of the loop where `pop_front` gave `task`. `fetch_and` returns the bitmap as it was
-- before, and `next_prio` is computed from that.
unfoldable pub taken : Config → ℕ → ℕ → List ℕ → ReadyQueue → (ℕ × ℕ) × ReadyQueue
taken c level task rest q =
    if is_empty rest
    then (
      (task, bitmap_priority c q.prio_bitmap),
      record {
        queues = update q.queues level rest;
        prio_bitmap = clear_bit q.prio_bitmap (63 - level);
      },
    )
    else ((task, c.highest_priority + level), record q { queues = update q.queues level rest })

-- The loop, with the number of levels left and the level of `prio`.
unfoldable pub take_from : Config → ℕ → ℕ → ReadyQueue → (ℕ × ℕ) × ReadyQueue
take_from c zero level q = ((0, c.highest_priority + level), q)
take_from c (suc n) level q = elim (q.queues level) [
  | [] ↦ take_from c n (level + 1) q
  | task ∷ rest ↦ taken c level task rest q
]

unfoldable pub take_task : Config → ReadyQueue → (ℕ × ℕ) × ReadyQueue
take_task c q = take_from c (priority_levels c) 0 q
