-- ===== src/Examples/Pop.antt =====
-- `pop_task` at concrete inputs: CPU 0 has a ready task, CPU 1 a trap.
use vsched.Base.{◌≡◌, refl, some, [], ◌∷◌, arith, Returns}
use vsched.Examples.Machine.{dual, dual-IsUsable, traps, own, world, world-IsOwn}
use vsched.Examples.Queue.{one_task}
use vsched.Examples.Setup.{os, laws, tasks}
use vsched.Config.{priority_levels}
use vsched.Os.{ready}
use vsched.ReadyQueue
use vsched.ReadyQueue.{new}
use vsched.ReadyQueue.Contents.{contents_from}
use vsched.ReadyQueue.Order.{contents}
use vsched.Scheduler.{pop_task}
use vsched.Scheduler.Traps.{pop_task-trap}
use vsched.TrapWaitQueue

pub one_ready : contents dual one_task ≡ 11 ∷ []
unfolding contents contents_from priority_levels new
one_ready = refl

pop_task-trap_example :
    Returns
      (λ ((found, prio), w').
        (found ≡ some 900)
        × (os.state w'.os_state 900 ≡ ready)
        × (os.pid w'.os_state 900 ≡ TrapWaitQueue.task_pid dual os (some 11) tasks)
        × (w'.schedulers 64
            ≡ some (record own {
              trap_wait_queue = record { queues = traps.queues; idle_handlers = [] };
            })))
      (pop_task dual os 64 1 world)
pop_task-trap_example =
    pop_task-trap dual dual-IsUsable os laws 64 1 5 900 (some 11) [] [] own world (omega arith)
      world-IsOwn refl refl refl (λ e. cc)
