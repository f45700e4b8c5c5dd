-- ===== src/Examples/Queue.antt =====
-- The ready queue and the process table at concrete inputs.
use vsched.Base.{
  List, ◌+◌, ◌-◌, ◌^◌, ◌≤◌, ◌≡◌, ◌≢◌, refl, inl, inr, true, false, [], ◌∷◌, ◌++◌, arith, update,
  done, ok, Returns, if◌then◌else◌, ◌==◌,
}
use vsched.Bits.{set_bit}
use vsched.Config.{default, default-IsUsable, priority_levels}
use vsched.Process.{ProcessInfoTable, highest_prio_process, register_process}
use vsched.Process.Best.{IsCovered, IsChoice, highest_prio_process-IsChoice}
use vsched.Process.Covered.{register_process-IsCovered}
use vsched.Process.Register.{Registers, register_process-Registers}
use vsched.ReadyQueue.Abstract.{
  Call, push, take, look, accepted, gave, shows, entries, run, spec_run,
}
use vsched.ReadyQueue.Entries.{insert, waiting}
use vsched.ReadyQueue.Runs.{run-refines}
use vsched.ReadyQueue.{ReadyQueue, new, push_task, hightest_priority, take_task}
use vsched.ReadyQueue.Contents.{contents_from}
use vsched.ReadyQueue.Invariant.{IsValid, new-IsValid, push_task-IsValid}
use vsched.ReadyQueue.Order.{contents, take_task_lem}
use vsched.ReadyQueue.Idle.{take_task_stale}

-- Task 11 waits with priority 5.
abbrev pub one_task : ReadyQueue
one_task = record {
  queues = update (new default).queues 5 ((new default).queues 5 ++ 11 ∷ []);
  prio_bitmap = set_bit (new default).prio_bitmap 58;
}

one_task-push : push_task default (2 ^ 63 + 5) 11 (new default) ≡ done (ok tt, one_task)
unfolding push_task new priority_levels
one_task-push = refl

pub one_task-IsValid : IsValid default one_task
one_task-IsValid =
    push_task-IsValid default default-IsUsable (2 ^ 63 + 5) 11 (new default) one_task (ok tt)
      (new-IsValid default default-IsUsable) one_task-push

one_task-contents : contents default one_task ≡ 11 ∷ []
unfolding contents contents_from priority_levels new
one_task-contents = refl

some_task : contents default one_task ≢ []
some_task e = cc (e, one_task-contents)

one_task-last : contents default (take_task default one_task).1 ≡ []
one_task-last = elim (take_task_lem default default-IsUsable one_task one_task-IsValid) [
  | inl (empty, _) ↦ absurd (some_task empty)
  | inr (front, _) ↦ cc (front, one_task-contents)
]

take_task_stale_example :
    ((take_task default one_task).0.1 ≤ default.lowest_priority)
    × (hightest_priority default (take_task default one_task).1 ≡ default.lowest_priority + 1)
take_task_stale_example =
    take_task_stale default default-IsUsable one_task one_task-IsValid some_task one_task-last

-- Processes 0 and 1 are registered; 1 has ready tasks of priority 3.
abbrev pub two_processes : ProcessInfoTable
two_processes = record {
  table = λ i.
      if i == 0
      then record { valid = true; highest_prio = λ _. 2 ^ 63 + 16; vspace = 0; scheduler = 0 }
      else if i == 1
      then record { valid = true; highest_prio = λ _. 2 ^ 63 + 3; vspace = 0; scheduler = 0 }
      else record { valid = false; highest_prio = λ _. 2 ^ 64 - 1; vspace = 0; scheduler = 0 };
  next_i = 2;
}

pub two_processes-IsCovered : IsCovered default two_processes
two_processes-IsCovered i h v = ground arith

highest_prio_process-IsChoice_example :
    Returns
      (IsChoice default two_processes 0 (omega arith) 0)
      (highest_prio_process default 0 0 two_processes)
highest_prio_process-IsChoice_example =
    highest_prio_process-IsChoice default two_processes 0 (omega arith) two_processes-IsCovered 0
      (omega arith) refl (omega arith) 0 (omega arith)

register_process-Registers_example :
    Returns
      (Registers default two_processes (omega arith) (omega arith))
      (register_process default two_processes)
register_process-Registers_example =
    register_process-Registers default two_processes (omega arith) (omega arith)

register_process-IsCovered_example :
    Returns (λ (found, t'). IsCovered default t') (register_process default two_processes)
register_process-IsCovered_example =
    register_process-IsCovered default two_processes (omega arith) (omega arith)
      two_processes-IsCovered

-- Three tasks with two priorities, then as many takes, and a look at the rest.
abbrev calls : List Call
calls =
    push (2 ^ 63 + 5) 11
    ∷ push (2 ^ 63 + 3) 12
    ∷ push (2 ^ 63 + 5) 13
    ∷ take
    ∷ look
    ∷ take
    ∷ take
    ∷ take
    ∷ []

run-refines_example :
    Returns
      (λ (replies, q).
        IsValid default q × (spec_run default calls [] ≡ (replies, entries default q)))
      (run default calls (new default))
run-refines_example = run-refines default default-IsUsable calls (omega arith)

-- The spec on these calls: 12 first, then 11 and 13.
calls_spec : spec_run default calls [] ≡ (
  accepted ∷ accepted ∷ accepted ∷ gave 12 ∷ shows (2 ^ 63 + 5) ∷ gave 11 ∷ gave 13 ∷ gave 0 ∷ [],
  [],
)
unfolding spec_run insert waiting
calls_spec = refl
