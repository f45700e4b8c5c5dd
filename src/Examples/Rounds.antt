-- ===== src/Examples/Rounds.antt =====
-- Rounds of the kernel's loop at concrete inputs: process 1 has its scheduler at 128, process 2 at
-- 192; CPU 1 has a trap.
use vsched.Base.{
  ◌∷◌, ℕ, ◌+◌, ◌^◌, ◌≡◌, refl, true, false, none, some, [], arith, Returns, ◌==◌, if◌then◌else◌,
}
use vsched.Examples.Machine.{dual, dual-IsUsable, own_at, own_at-IsOwn, own, world, stacks, traps}
use vsched.Examples.Setup.{Tasks, os, laws, tasks}
use vsched.MainLoop.{jump, kschedule}
use vsched.MainLoop.Choose.{IsBest}
use vsched.MainLoop.Asleep.{irq_trap-handled}
use vsched.MainLoop.Entry.{irq_trap}
use vsched.MainLoop.Rounds.{kschedule-trap}
use vsched.Process.{ProcessInfoTable}
use vsched.ReadyQueue
use vsched.Scheduler.Own.{IsOwn}
use vsched.TrapWaitQueue
use vsched.World.{World, Scheduler}

-- Priorities 0 for the process `first`, 3 for the other one.
abbrev processes : ℕ → ProcessInfoTable
processes first = record {
  table = λ i. record {
    valid = if i == 0 then true else if i == 1 then true else if i == 2 then true else false;
    highest_prio = λ _. if i == first then 2 ^ 63 else 2 ^ 63 + 3;
    vspace = i;
    scheduler = 0;
  };
  next_i = 3;
}

-- The scheduler of process 1.
abbrev first_own : Scheduler
first_own = own_at 128

abbrev kernel : Scheduler
kernel = record own { global_index = 0 }

abbrev other : Scheduler
other = record (own_at 192) { global_index = 2 }

abbrev three : ℕ → World Tasks
three first = record world {
  process_info_table = processes first;
  schedulers = λ p.
      if p == 64
      then some kernel
      else if p == 128
      then some first_own
      else if p == 192
      then some other
      else none;
  stack_handlers = λ p. if p == 256 then some stacks else none;
}

kernel-IsBest : (cpu : ℕ) → IsBest dual dual-IsUsable os 0 cpu (processes 0)
kernel-IsBest cpu = record {
  covered = λ i h v. ground arith;
  small = omega arith;
  valid = refl;
  bounded = omega arith;
  first = λ i h v ne. ground (arith, ne);
}

kernel-IsOwn : IsOwn dual 64 kernel (three 0)
kernel-IsOwn =
    own_at-IsOwn 64 kernel.global_index (three 0) (λ e. absurd (omega (arith, e))) refl
      (omega arith)

waiting_pid : TrapWaitQueue.task_pid dual os (some 11) tasks ≡ 2
unfolding TrapWaitQueue.task_pid
waiting_pid = refl

kschedule-trap_example :
    Returns
      (λ (turn, w').
        (turn ≡ jump 0)
        × (w'.current_task 1 ≡ 900)
        × (w'.current_vspace 1 ≡ TrapWaitQueue.task_pid dual os (some 11) tasks)
        × (w'.schedulers 64
            ≡ some (record kernel {
              trap_wait_queue = record { queues = traps.queues; idle_handlers = [] };
            })))
      (kschedule dual os 1 1 (three 0))
kschedule-trap_example =
    kschedule-trap dual dual-IsUsable os laws 0 1 5 900 (some 11) [] [] kernel (three 0) refl
      (omega arith) (kernel-IsBest 1) kernel-IsOwn refl refl refl (λ e. absurd (omega (arith, e)))
      (omega (arith, waiting_pid))

-- CPU 0 asleep, no process with a task.
abbrev asleep : World Tasks
asleep = record (three 5) {
  is_sleeping = λ _. true;
  kernel_stacks = record stacks { trap_stack = λ _. some 8192 };
}

asleep-IsOwn : IsOwn dual 64 kernel asleep
asleep-IsOwn =
    own_at-IsOwn 64 kernel.global_index asleep (λ e. absurd (omega (arith, e))) refl (omega arith)

irq_trap-handled_example :
    Returns
      (λ (res, w1).
        (res ≡ 1)
        × (w1.is_sleeping 0 ≡ false)
        × (w1.kernel_stacks.trap_stack 0 ≡ some 0)
        × Returns
            (λ (turn, w2).
              (turn ≡ jump 0)
              × (w2.current_task 0 ≡ 900)
              × (after : Scheduler) × (w2.schedulers w1.kernel_scheduler ≡ some after)
              × (after.trap_wait_queue.queues 0 ≡ (7, none) ∷ []))
            (kschedule dual os 1 0 w1))
      (irq_trap dual os 0 asleep)
irq_trap-handled_example =
    irq_trap-handled dual dual-IsUsable os laws 0 0 8192 900 [] kernel asleep (omega arith) refl
      refl refl (λ i l ne e. ground (arith, e, ne)) asleep-IsOwn refl refl (omega arith) refl refl
      (λ e. absurd (omega (arith, e))) (λ i l v. ground arith) refl (λ i l v ne. ground (arith, ne))
