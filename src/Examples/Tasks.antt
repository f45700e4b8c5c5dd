-- ===== src/Examples/Tasks.antt =====
-- Tasks that come back to the scheduler, and traps, at concrete inputs.
use vsched.Base.{
  ◌+◌, ◌<◌, true, ◌≤◌, ◌≡◌, ◌⊎◌, ℕ, List, [], ◌∷◌, Option, none, refl, some, arith, length, done,
  panic, ok, err, Returns, if◌then◌else◌,
}
use vsched.Examples.Setup.{Tasks, os, laws}
use vsched.Examples.Machine.{dual, dual-IsUsable, own, stacks, world, world-IsOwn}
use vsched.MainLoop.{home_of, thread_entry_phase2}
use vsched.MainLoop.Entry.{sync_trap, irq_trap}
use vsched.MainLoop.Traps.{rotated, interrupted, sync_trap-IsDelivered}
use vsched.MainLoop.Handler.{pop_trap}
use vsched.MainLoop.Interrupts.{trap_made, IsPreempted, irq_trap-IsPreempted}
use vsched.ReadyQueue.{new}
use vsched.MainLoop.Serve.{IsPopped, pop_trap-IsPopped}
use vsched.MainLoop.Yield.{settled, thread_entry_phase2-IsQueued}
use vsched.Os.{Os, TaskLaws, ready, running, blocked}
use vsched.Scheduler.{push_task}
use vsched.Scheduler.Own.{IsOwn, move-IsOwn}
use vsched.Scheduler.Deliver.{IsDelivered}
use vsched.Scheduler.Push.{IsQueued, push_task-IsQueued}
use vsched.Stacks.{alloc_stack, set_trap_stack}
use vsched.World.{World}

-- Task 8 is ready and comes back.
abbrev yielding : World Tasks
yielding = record world { current_task = λ _. 8 }

yielding-home : home_of dual os 8 (settled os 0 yielding) ≡ done (64, settled os 0 yielding)
unfolding home_of
yielding-home = refl

yielding-IsOwn : IsOwn dual 64 own yielding
yielding-IsOwn = move-IsOwn dual dual-IsUsable os 64 own world yielding refl world-IsOwn

push_task-IsQueued_example :
    Returns
      (λ (res, w').
        ((res ≡ ok tt) × IsQueued dual 64 5 12 own world w')
        ⊎ ((res ≡ err 12)
            × (dual.ready_queue_size ≤ length (own.ready_queue.queues 5))
            × IsOwn dual 64 own w'
            × (w'.process_info_table ≡ world.process_info_table)))
      (push_task dual os 64 12 0 world)
push_task-IsQueued_example =
    push_task-IsQueued dual dual-IsUsable os 64 0 12 own world (omega arith) world-IsOwn
      (omega arith) (omega arith)

thread_entry_phase2-IsQueued_example :
    Returns
      (λ (res, w').
        (os.state w'.os_state 8 ≡ ready)
        × IsQueued dual 64 5 8 own (settled os 0 yielding) w'
        × (res ≡ 0 + (if w'.in_kernel 0 then 0 else 1)))
      (thread_entry_phase2 dual os 0 yielding)
    ⊎ ((dual.ready_queue_size ≤ length (own.ready_queue.queues 5))
        × (thread_entry_phase2 dual os 0 yielding ≡ panic))
thread_entry_phase2-IsQueued_example =
    thread_entry_phase2-IsQueued dual dual-IsUsable os laws 64 0 own yielding refl yielding-home
      yielding-IsOwn (omega arith) (omega arith) (omega arith)

-- Task 7 runs on CPU 0, whose trap stack is at 8192.
abbrev trapping : World Tasks
trapping = record world { kernel_stacks = record stacks { trap_stack = λ _. some 8192 } }

trapping-IsOwn : IsOwn dual 64 own trapping
trapping-IsOwn = move-IsOwn dual dual-IsUsable os 64 own world trapping refl world-IsOwn

trapping-runs : os.state (rotated dual os 8192 0 trapping).os_state 7 ≡ running
unfolding alloc_stack set_trap_stack
trapping-runs = refl

sync_trap-IsDelivered_example :
    (os.state (interrupted dual os 8192 0 trapping).os_state 7 ≡ blocked)
    × Returns
        (λ (res, w').
          (res ≡ 1)
          × IsDelivered dual 64 0 7 (some 7) own w'
          × (w'.os_state ≡ (interrupted dual os 8192 0 trapping).os_state)
          × (w'.kernel_stacks.current_stack 0 ≡ some 8192)
          × (w'.kernel_stacks.trap_stack 0
              ≡ some (alloc_stack dual os 0 trapping.kernel_stacks trapping.os_state).0))
        (sync_trap dual os 0 trapping)
sync_trap-IsDelivered_example =
    sync_trap-IsDelivered dual dual-IsUsable os laws 0 8192 own trapping (omega arith) refl refl
      refl (λ i l ne e. ground arith) trapping-runs trapping-IsOwn (omega arith)

-- CPU 1 has one trap.
pop_trap-IsPopped_example :
    ((own.trap_wait_queue.queues 1 ≡ []) × (pop_trap dual os 64 1 world ≡ done (none, world)))
    ⊎ ((item : ℕ × Option ℕ) × (rest : List (ℕ × Option ℕ)) × (own.trap_wait_queue.queues 1
          ≡ item ∷ rest)
        × Returns
            (λ (found, w'). (found ≡ some item) × IsPopped dual 64 1 rest own w')
            (pop_trap dual os 64 1 world))
pop_trap-IsPopped_example =
    pop_trap-IsPopped dual dual-IsUsable os 64 1 own world (omega arith) world-IsOwn

-- The same operating system with kernel tasks only.
abbrev kernel_os : Os Tasks
kernel_os = record os { is_kernel = λ s t. true }

kernel_laws : TaskLaws kernel_os
kernel_laws = record {
  set_state_old = laws.set_state_old;
  set_state_new = laws.set_state_new;
  set_state_other = laws.set_state_other;
  match_set_state_old = laws.match_set_state_old;
  match_set_state_new = laws.match_set_state_new;
  match_set_state_other = laws.match_set_state_other;
  set_pid_new = laws.set_pid_new;
  set_pid_state = laws.set_pid_state;
}

trapping-was_running : kernel_os.state (trap_made dual kernel_os 8192 0 trapping).1 7 ≡ running
unfolding alloc_stack set_trap_stack
trapping-was_running = refl

one_task-room : length (own.ready_queue.queues 5) < dual.ready_queue_size
unfolding new
one_task-room = omega arith

irq_trap-IsPreempted_example :
    Returns
      (λ (res, w').
        (res ≡ 1) × IsPreempted dual 64 0 5 7 7 own w' × (kernel_os.state w'.os_state 7 ≡ ready))
      (irq_trap dual kernel_os 0 trapping)
irq_trap-IsPreempted_example =
    irq_trap-IsPreempted dual dual-IsUsable kernel_os kernel_laws 0 8192 own trapping (omega arith)
      refl refl refl (λ i l ne e. ground arith) trapping-was_running refl (omega arith)
      (omega arith) trapping-IsOwn (omega arith) one_task-room
