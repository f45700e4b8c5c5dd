-- ===== src/ReadyQueue/Interleaved/Stays.antt =====
-- schedule/ready_queue.rs on several CPUs: how long a bit with no task behind it stays.
use vsched.Base.{ℕ, ◌+◌, ◌-◌, ◌≤◌, ◌<◌, ◌≡◌, ◌≢◌, refl, true, arith, is_empty, update}
use vsched.Config.{Config, IsUsable, priority_levels, priority_levels_bounds}
use vsched.Bits.{test_bit, test_bit-set_bit, test_bit-clear_bit}
use vsched.ReadyQueue.{hightest_priority}
use vsched.ReadyQueue.Interleaved.Marked.{Inside, Reach-Inside, hightest_priority-marked}
use vsched.ReadyQueue.Interleaved.{
  Shared, Pc, pushed, popped, emptied, Move, push_back, fetch_or, pop_front, lock_empty, fetch_and,
  System, Step, pick, Reach, later,
}
use vsched.ReadyQueue.Interleaved.Stale.{IsStale}

-- The steps from one state to another in which no CPU puts a task into the level's queue.
pub data Without (c : Config) (level : ℕ) (s : System) : System → Type 0 where
  here : Without c level s s
  more :
      {t v : System}
      → Without c level s t
      → Step c t v
      → ((cpu : ℕ) → v.pc cpu ≢ pushed level)
      → Without c level s v

module _ (c : Config) (u : IsUsable c) (level : ℕ) (h : level < priority_levels c) {m : Shared}
    {pc : ℕ → Pc} (st : IsStale level (record { mem = m; pc = pc })) (cpu : ℕ) where
  open st use {empty, bit, none_pushes, none_popped, none_emptied}

  Move-empty :
      {p p' : Pc} {m' : Shared}
      → pc cpu ≡ p
      → Move c m p m' p'
      → ((i : ℕ) → update pc cpu p' i ≢ pushed level)
      → is_empty (m'.ready.queues level) ≡ true
  Move-empty e (push_back lv task k l r) quiet = ground (arith, quiet cpu)
  Move-empty e (pop_front task rest k l r) quiet = ground arith
  Move-empty e mv quiet = ground arith

  Move-bit :
      {p p' : Pc} {m' : Shared}
      → pc cpu ≡ p
      → Inside c p
      → Move c m p m' p'
      → test_bit m'.ready.prio_bitmap (63 - level) ≡ true
  Move-bit e k (fetch_or {level = lv}) =
      ground (arith, test_bit-set_bit m.ready.prio_bitmap (63 - lv) (63 - level))
  Move-bit e k (fetch_and {level = lv} {task}) = ground (
    arith,
    none_emptied cpu task,
    priority_levels_bounds c u,
    test_bit-clear_bit m.ready.prio_bitmap (63 - lv) (63 - level),
  )
  Move-bit e k mv = ground arith

  Move-none_popped :
      {p p' : Pc} {m' : Shared}
      → pc cpu ≡ p
      → Move c m p m' p'
      → (i task : ℕ) → update pc cpu p' i ≢ popped level task
  Move-none_popped e (pop_front task rest k l r) i t q = ground (arith, none_popped i t)
  Move-none_popped e mv i t q = ground (arith, none_popped i t)

  Move-none_emptied :
      {p p' : Pc} {m' : Shared}
      → pc cpu ≡ p
      → Move c m p m' p'
      → (i task : ℕ) → update pc cpu p' i ≢ emptied level task
  Move-none_emptied e (lock_empty {task = s} l r) i t q =
      ground (arith, none_emptied i t, none_popped cpu s)
  Move-none_emptied e mv i t q = ground (arith, none_emptied i t)

  Move-IsStale :
      {m' : Shared} {p' : Pc}
      → Inside c (pc cpu)
      → Move c m (pc cpu) m' p'
      → ((i : ℕ) → update pc cpu p' i ≢ pushed level)
      → IsStale level (record { mem = m'; pc = update pc cpu p' })
  Move-IsStale k mv quiet = record {
    empty = Move-empty refl mv quiet;
    bit = Move-bit refl k mv;
    none_pushes = quiet;
    none_popped = Move-none_popped refl mv;
    none_emptied = Move-none_emptied refl mv;
  }

module _ (c : Config) (u : IsUsable c) (level : ℕ) (h : level < priority_levels c) where
  Reach-Without : {s t : System} → Reach c s → Without c level s t → Reach c t
  Reach-Without r here = r
  Reach-Without r (more w st quiet) = later (Reach-Without r w) st

  Without-IsStale :
      {s t : System} → Reach c s → IsStale level s → Without c level s t → IsStale level t
  Without-IsStale r st here = st
  Without-IsStale r st (more w (pick cpu mv) quiet) =
      Move-IsStale c u level h (Without-IsStale r st w) cpu
        (Reach-Inside c u (Reach-Without r w) cpu) mv quiet

  -- From a state that the CPUs reach and in which a level's bit is set, its queue is empty and no
  -- CPU is about to set the bit, or has just taken a task of the level: as long as no CPU puts a
  -- task into the level's queue, whatever else the CPUs do, the queue stays empty and
  -- `hightest_priority` gives the level's priority or a more urgent one.
  pub stale_bit_stays :
      {s t : System}
      → Reach c s
      → IsStale level s
      → Without c level s t
      → (is_empty (t.mem.ready.queues level) ≡ true)
        × (hightest_priority c t.mem.ready ≤ c.highest_priority + level)
  stale_bit_stays {t = t} r st w =
      let last = Without-IsStale r st w in
      (last.empty, hightest_priority-marked c u t.mem level h last.bit)
