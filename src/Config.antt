-- ===== src/Config.antt =====
-- The constants of build.rs, which the build's environment may change. An `isize` value v is kept as
-- the natural v + 2 ^ 63: the order of the values is that of the naturals, and `isize::MAX` is
-- 2 ^ 64 - 1.
use vsched.Base.{ℕ, ◌+◌, ◌-◌, ◌^◌, ◌≤◌, ◌<◌, ◌≡◌, arith}

pub record Config : Type 0 where
  pub cpu_num : ℕ
  pub event_source_num : ℕ
  pub ready_queue_size : ℕ
  pub trap_wait_queue_size : ℕ
  pub lowest_priority : ℕ
  pub highest_priority : ℕ
  pub process_num : ℕ
  pub stack_pool_size : ℕ
  -- Where the compiler puts the two queues in a `Scheduler`.
  pub trap_wait_queue_offset : ℕ
  pub ready_queue_offset : ℕ

abbrev pub isize_max : ℕ
isize_max = 2 ^ 64 - 1

abbrev pub default : Config
default = record {
  cpu_num = 1;
  event_source_num = 8;
  ready_queue_size = 256;
  trap_wait_queue_size = 256;
  lowest_priority = 2 ^ 63 + 15;
  highest_priority = 2 ^ 63;
  process_num = 256;
  stack_pool_size = 16;
  trap_wait_queue_offset = 8;
  ready_queue_offset = 16;
}

-- `PRIORITY_LEVELS` of schedule/ready_queue.rs.
unfoldable pub priority_levels : Config → ℕ
priority_levels c = c.lowest_priority - c.highest_priority + 1

-- What the code needs of the constants: the assertion in `ReadyQueue::new` on the number of levels,
-- some CPU, some process, and a number for "no ready task" below `isize::MAX`.
pub record IsUsable (c : Config) : Type 0 where
  pub ordered : c.highest_priority ≤ c.lowest_priority
  pub levels_fit : c.lowest_priority < c.highest_priority + 64
  pub below_max : c.lowest_priority + 1 < isize_max
  pub some_cpu : 0 < c.cpu_num
  pub some_process : 0 < c.process_num

pub priority_levels_bounds :
    (c : Config) → IsUsable c → (0 < priority_levels c) × (priority_levels c ≤ 64)
unfolding priority_levels
priority_levels_bounds c u = omega arith

-- LOWEST_PRIORITY + 1, the number for "no ready task".
pub levels-idle :
    (c : Config) → IsUsable c → c.highest_priority + priority_levels c ≡ c.lowest_priority + 1
unfolding priority_levels
levels-idle c u = omega arith

pub default-IsUsable : IsUsable default
default-IsUsable = omega arith
