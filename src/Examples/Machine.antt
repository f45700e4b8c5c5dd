-- ===== src/Examples/Machine.antt =====
-- Two CPUs with a scheduler, its two event sources, a stack pool and a trap for CPU 1.
use vsched.Base.{
  ℕ, ◌+◌, ◌<◌, ◌≢◌, ◌≡◌, refl, Bool, true, false, none, some, [], ◌∷◌, arith, update, done,
  if◌then◌else◌, ◌==◌,
}
use vsched.Config.{Config, default, IsUsable, priority_levels}
use vsched.Current.{scheduler_at}
use vsched.Examples.Setup.{Tasks, tasks}
use vsched.Examples.Queue.{one_task, one_task-IsValid, two_processes}
use vsched.Os.{Code, trap_wait_queue_code, ready_queue_code}
use vsched.ReadyQueue.{new}
use vsched.ReadyQueue.Invariant.{IsValid}
use vsched.Scheduler.Own.{IsOwn}
use vsched.Stacks.{StackHandler}
use vsched.Stacks.Exclusive.{IsExclusive}
use vsched.TrapWaitQueue.{TrapWaitQueue}
use vsched.World.{World, Scheduler, EventSourceEntry, EventSourceVtable}

-- Two CPUs.
abbrev pub dual : Config
dual = record default { cpu_num = 2 }

abbrev pub vtable_of : Code → Bool → EventSourceVtable
vtable_of code per_cpu = record {
  kernel_hightest_priority = (code, 1);
  user_hightest_priority = (code, 2);
  kernel_take_task = (code, 3);
  user_take_task = (code, 4);
  is_prio_per_cpu = per_cpu;
}

abbrev pub entry : Code → Bool → ℕ → ℕ → EventSourceEntry
entry code per_cpu p offset = record {
  kernel_data = p + offset;
  user_data = 32 + offset;
  vtable = vtable_of code per_cpu;
}

-- CPU 1 has trap 5 to handle, for which task 11 waits.
abbrev pub traps : TrapWaitQueue
traps = record { queues = update (λ _. []) 1 ((5, some 11) ∷ []); idle_handlers = 900 ∷ [] }

abbrev pub own_at : ℕ → Scheduler
own_at p = record {
  sources = entry trap_wait_queue_code true p 8 ∷ entry ready_queue_code false p 16 ∷ [];
  global_index = 1;
  ready_queue = one_task;
  trap_wait_queue = traps;
}

abbrev pub own : Scheduler
own = own_at 64

abbrev pub stacks : StackHandler
stacks = record {
  free_stacks = λ _. [];
  current_stack = λ cpu. if cpu == 1 then some 4096 else none;
  trap_stack = λ _. none;
}

abbrev pub world : World Tasks
world = record {
  os_state = tasks;
  current_task = λ _. 7;
  scheduler_wait_context = λ _. 3;
  is_sleeping = λ _. false;
  kernel_scheduler = 64;
  in_kernel = λ _. true;
  current_vspace = λ _. 0;
  process_info_table = two_processes;
  kernel_stacks = stacks;
  pre_stack = λ _. 0;
  schedulers = λ p. if p == 64 then some own else none;
  stack_handlers = λ _. none;
  user_scheduler = 128;
  stack_handler = 256;
  scheduler_size = 32;
  stack_handler_size = 32;
  code_address = λ _ i. i;
}

pub dual-IsUsable : IsUsable dual
dual-IsUsable = omega arith

dual-IsValid : IsValid dual one_task
unfolding priority_levels
dual-IsValid = record {
  tracked = λ i h. one_task-IsValid.tracked i h;
  sentinel = λ i h k. one_task-IsValid.sentinel i h k;
  bounded = λ i. one_task-IsValid.bounded i;
}

pub own_at-IsOwn :
    (p index : ℕ) (w : World Tasks)
    → p ≢ 0
    → w.schedulers p ≡ some (record (own_at p) { global_index = index })
    → index < 256
    → IsOwn dual p (record (own_at p) { global_index = index }) w
own_at-IsOwn p index w ne there small = record {
  trap_source = entry trap_wait_queue_code true p 8;
  ready_source = entry ready_queue_code false p 16;
  user = 32;
  trap_data = (refl, refl);
  ready_data = (refl, refl);
  not_null = ne;
  there = there;
  sources = refl;
  runs_trap = record {
    kernel_highest = refl;
    user_highest = refl;
    kernel_take = refl;
    user_take = refl;
  };
  runs_ready = record {
    kernel_highest = refl;
    user_highest = refl;
    kernel_take = refl;
    user_take = refl;
  };
  valid = dual-IsValid;
  indexed = small;
}

pub world-IsOwn : IsOwn dual 64 own world
world-IsOwn =
    own_at-IsOwn 64 own.global_index world (λ e. absurd (omega (arith, e))) refl (omega arith)

pub world-scheduler : scheduler_at 64 world ≡ done (own, world)
unfolding scheduler_at
world-scheduler = refl

pub new-0 : one_task.queues 0 ≡ []
unfolding new
new-0 = refl

pub stacks-IsExclusive : IsExclusive dual stacks
stacks-IsExclusive i j stack hi hj ei ej = ground arith
