-- ===== src/Examples/Setup.antt =====
-- A concrete operating system, with a state for each task and no other effect, and a scheduler with
-- its two event sources.
use vsched.Base.{ℕ, refl, false, arith, update, ◌+◌, ◌^◌}
use vsched.Os.{Os, TaskLaws, TaskState, ready, running, blocked, next_state}

pub record Tasks : Type 0 where
  pub states : ℕ → TaskState
  pub pids : ℕ → ℕ

abbrev pub os : Os Tasks
os = record {
  state = λ s t. s.states t;
  set_state = λ x t s. (s.states t, record s { states = update s.states t x });
  match_set_state = λ a b c d e t s.
      (s.states t, record s { states = update s.states t (next_state a b c d e (s.states t)) });
  priority = λ s t. 2 ^ 63 + 5;
  is_coroutine = λ s t. false;
  is_kernel = λ s t. false;
  pid = λ s t. s.pids t;
  set_pid = λ p t s. record s { pids = update s.pids t p };
  thread_stack = λ s t. 0;
  set_return_value = λ v t s. s;
  dealloc_task = λ t s. s;
  alloc_stack = λ s. (4096, s);
  dealloc_stack = λ stack s. s;
  base = λ s stack. stack + 4096;
  from_task = λ t s. (t, s);
  handle = λ trap task s. s;
  dealloc_trap_info = λ trap s. s;
  new_handler = λ scheduler s. (900, s);
  into_vspace = λ v s. s;
  dealloc_vspace = λ v s. s;
  get_user_data = λ s position len v. position;
  get_user_addr = λ s position len v. position;
  source_hightest_priority = λ s code address cpu. 2 ^ 63 + 16;
  source_take_task = λ code address cpu s. ((0, 2 ^ 63 + 16), s);
  others = λ s. s;
  looks = 3;
}

pub laws : TaskLaws os
laws = record {
  set_state_old = λ x t s. refl;
  set_state_new = λ x t s. ground arith;
  set_state_other = λ x t j s ne. ground arith;
  match_set_state_old = λ a b c d e t s. refl;
  match_set_state_new = λ a b c d e t s. ground arith;
  match_set_state_other = λ a b c d e t j s ne. ground arith;
  set_pid_new = λ p t s. ground arith;
  set_pid_state = λ p t j s. refl;
}

-- Task 7 runs, 900 blocks, the others are ready.
abbrev pub tasks : Tasks
tasks = record { states = update (update (λ _. ready) 7 running) 900 blocked; pids = λ t. 2 }
