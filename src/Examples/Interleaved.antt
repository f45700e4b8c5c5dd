-- ===== src/Examples/Interleaved.antt =====
-- The ready queue on two CPUs: runs of single steps.
use vsched.Base.{
  ℕ, ◌+◌, ◌-◌, ◌^◌, ◌≤◌, ◌<◌, ◌≡◌, ◌⊎◌, refl, true, false, [], arith, is_empty, update, Returns,
}
use vsched.Bits.{test_bit, set_bit, clear_bit}
use vsched.Config.{default, default-IsUsable, priority_levels}
use vsched.ReadyQueue.{new, push_task, take_task, hightest_priority}
use vsched.ReadyQueue.Interleaved.{
  idle, pushed, scan, System, Reach, start, later, pick, init, push_back, fetch_or, start_take,
  pop_front, lock_empty, fetch_and, returned,
}
use vsched.ReadyQueue.Interleaved.Alone.{Takes, Pushes, steps-Alone}
use vsched.ReadyQueue.Interleaved.Marked.{no_hidden_task}
use vsched.ReadyQueue.Interleaved.Stale.{IsStale, IsStale-reachable}
use vsched.ReadyQueue.Interleaved.Stays.{Without, here, more, stale_bit_stays}

zero-lt : 0 < priority_levels default
unfolding priority_levels
zero-lt = omega arith

five-lt : 5 < priority_levels default
unfolding priority_levels
five-lt = omega arith

room : 0 < default.ready_queue_size
room = omega arith

-- CPU 0 has pushed task 11 with the highest priority.
abbrev one_pushed : (s : System) × Reach default s
unfolding new
one_pushed = (_, later (later start (pick 0 (push_back 0 11 zero-lt refl room))) (pick 0 fetch_or))

one_pushed-busy : is_empty (one_pushed.0.mem.ready.queues 0) ≡ false
unfolding new one_pushed
one_pushed-busy = refl

-- CPU 1 takes task 11 before CPU 0 sets the bit.
abbrev bit_left : (s : System) × Reach default s
unfolding new
bit_left = (
  _,
  later
      (later
        (later
          (later
            (later
              (later (later start (pick 0 (push_back 0 11 zero-lt refl room))) (pick 1 start_take))
              (pick 1 (pop_front 11 [] zero-lt refl refl)))
            (pick 1 (lock_empty refl refl)))
          (pick 1 fetch_and))
        (pick 1 returned))
      (pick 0 fetch_or),
)

bit_left-IsStale : IsStale 0 bit_left.0
unfolding new test_bit set_bit clear_bit priority_levels
bit_left-IsStale = record {
  empty = refl;
  bit = refl;
  none_pushes = λ cpu q. ground arith;
  none_popped = λ cpu t q. ground arith;
  none_emptied = λ cpu t q. ground arith;
}

-- Then CPU 2 starts to look for a task.
abbrev looking : System
looking = record { mem = bit_left.0.mem; pc = update bit_left.0.pc 2 (scan 0) }

bit_left-looking : Without default 0 bit_left.0 looking
unfolding new
bit_left-looking = more here (pick 2 start_take) (λ cpu q. ground arith)

steps-Alone_example :
    Takes default (init default).mem (take_task default (new default))
    × Returns
        (Pushes default (init default).mem (2 ^ 63 + 5 - default.highest_priority) 11)
        (push_task default (2 ^ 63 + 5) 11 (new default))
steps-Alone_example =
    steps-Alone default (init default).mem (λ i. refl) (2 ^ 63 + 5) 11 (omega arith) (omega arith)

no_hidden_task_example :
    (hightest_priority default one_pushed.0.mem.ready ≤ default.highest_priority + 0)
    ⊎ ((cpu : ℕ) × (one_pushed.0.pc cpu ≡ pushed 0))
no_hidden_task_example =
    no_hidden_task default default-IsUsable one_pushed.1 0 zero-lt one_pushed-busy

IsStale-reachable_example :
    (s : System) × Reach default s
    × ((cpu : ℕ) → s.pc cpu ≡ idle)
    × ((i : ℕ) → s.mem.ready.queues i ≡ [])
    × (hightest_priority default s.mem.ready ≡ default.highest_priority + 5)
    × IsStale 5 s
IsStale-reachable_example = IsStale-reachable default default-IsUsable 5 11 room five-lt

stale_bit_stays_example :
    (is_empty (looking.mem.ready.queues 0) ≡ true)
    × (hightest_priority default looking.mem.ready ≤ default.highest_priority + 0)
stale_bit_stays_example =
    stale_bit_stays default default-IsUsable 0 zero-lt bit_left.1 bit_left-IsStale bit_left-looking
