-- ===== src/Arch/Legal.antt =====
-- src/arch: the numbers that the functions return are those that the loop has a case for.
use vsched.Base.{
  ℕ, zero, suc, ◌≡◌, refl, ◌⊎◌, inl, inr, ◌<◌, Bool, true, false, not, ◌||◌, Option, none, some,
  ◌==◌, ltb, arith, if◌then◌else◌, update, Outcome, done, panic, null_deref, spinning, Ensures,
  Ensures->>=, Bool-cases,
}
use vsched.Base.Outcomes.{◌>>=◌ as bind}
use vsched.Config.{Config}
use vsched.MainLoop
use vsched.MainLoop.{
  Turn, jump, asleep, Transfer, into_coroutine, into_thread, into_user, into_user_context,
  into_kernel,
}
use vsched.MainLoop.Entry
use vsched.MainLoop.Run
use vsched.Current.{scheduler_at, get_current_task}
use vsched.Monad.{M, check}
use vsched.Os.{Os}
use vsched.World.{World}
use vsched.Arch.{Call, Ending, returns, perform, after_run, ending_of}

-- The results that the loop has a case for: `trap_entry` leads to `kschedule` or `utok_schedule`, the
-- last two bits of `thread_entry` are the privilege level and the status, and so on.
abbrev pub IsLegal : Call → Ending → Type 0
IsLegal Call.trap_entry (returns v) = (v ≡ 1) ⊎ (v ≡ 3)
IsLegal Call.thread_entry (returns v) = v < 4
IsLegal Call.kschedule (returns v) = v < 2
IsLegal Call.utok_schedule (returns v) = v < 2
IsLegal Call.run_task (returns v) = v < 2
IsLegal Call.krun_utask (returns v) = ⊥
IsLegal Call.uschedule e = Unit {0}
IsLegal f e = Unit {0}

-- A call that comes to a value comes to one with `P`, from every state.
abbrev Always : {S A : Type 0} → (A → Type 0) → M S A → Type 0
Always P m = (w : World _) → Ensures (λ (a, w'). P a) (m w)

module _ {S : Type 0} (c : Config) (os : Os S) where
  sync_trap-one : (cpu : ℕ) → Always (λ v. v ≡ 1) (Entry.sync_trap c os cpu)
  unfolding Entry.sync_trap
  sync_trap-one cpu w = ground arith

  irq_trap-one : (cpu : ℕ) → Always (λ v. v ≡ 1) (Entry.irq_trap c os cpu)
  unfolding Entry.irq_trap
  irq_trap-one cpu w = ground arith

  trap_entry_cases :
      (type privilege cpu : ℕ)
      → Always (λ v. (v ≡ 1) ⊎ (v ≡ 3)) (Entry.trap_entry c os type privilege cpu)
  unfolding Entry.trap_entry
  trap_entry_cases type privilege cpu w =
      let w' = record w { in_kernel = update w.in_kernel cpu true } in
      ground (arith, sync_trap-one cpu w', irq_trap-one cpu w')

  phase2-lt : (cpu : ℕ) → Always (λ v. v < 4) (MainLoop.thread_entry_phase2 c os cpu)
  unfolding MainLoop.thread_entry_phase2
  phase2-lt cpu w = ground arith

  coroutine_returned-lt :
      (res : Option ℕ) (cpu : ℕ) → Always (λ v. v < 2) (Run.coroutine_returned c os res cpu)
  unfolding Run.coroutine_returned
  coroutine_returned-lt none cpu w = ground arith
  coroutine_returned-lt (some v) cpu w = ground arith

  ktask_schedule-lt :
      (next_pid cpu : ℕ) → Always (λ v. v < 3) (MainLoop.ktask_schedule c os next_pid cpu)
  unfolding MainLoop.ktask_schedule MainLoop.run_next MainLoop.run_next_kernel
  ktask_schedule-lt next_pid cpu w = ground arith

  abbrev IsLegalTurn : Turn → Type 0
  IsLegalTurn (jump n) = n < 2
  IsLegalTurn asleep = Unit {0}

  anything : {A : Type 0} (o : Outcome A) → Ensures (λ _. Unit {0}) o
  anything (done a) = tt
  anything panic = tt
  anything null_deref = tt
  anything spinning = tt

  next :
      {A B : Type 0} (Q : B → Type 0) (m : Outcome A) (f : A → Outcome B)
      → ((a : A) → Ensures Q (f a))
      → Ensures Q (bind m f)
  next Q m f k = Ensures->>= (λ _. Unit {0}) Q m f (anything m) (λ a _. k a)

  wake_up :
      (n p cpu : ℕ)
      → ((pid : ℕ) → Always IsLegalTurn (MainLoop.kernel_loop c os n p pid cpu))
      → (sleeps : Bool) (w : World S)
      → Ensures
          (λ (t, _). IsLegalTurn t)
          (elim sleeps as (λ _. M S Turn) [
            | true ↦ λ w'. done (asleep, w')
            | false ↦ λ w'.
                bind
                  (MainLoop.process_schedule c os p cpu w')
                  (λ (pid, w2). MainLoop.kernel_loop c os n p pid cpu w2)
          ]
            w)
  wake_up n p cpu ih true w = tt
  wake_up n p cpu ih false w =
      next (λ (t, _). IsLegalTurn t) (MainLoop.process_schedule c os p cpu w) _
        (λ (pid, w'). ih pid w')

  kernel_loop-IsLegalTurn :
      (n p next_pid cpu : ℕ) → Always IsLegalTurn (MainLoop.kernel_loop c os n p next_pid cpu)
  unfolding MainLoop.kernel_loop
  kernel_loop-IsLegalTurn zero p next_pid cpu w = tt
  kernel_loop-IsLegalTurn (suc n) p next_pid cpu w =
      Ensures->>= (λ (v, _). v < 3) (λ (t, _). IsLegalTurn t)
        (MainLoop.ktask_schedule c os next_pid cpu w) _ (ktask_schedule-lt next_pid cpu w)
        (λ (v, w1) small. elim (Bool-cases (v == 2)) [
          | inr found ↦ rw found (ground arith)
          | inl none_found ↦ rw none_found (
              next (λ (t, _). IsLegalTurn t) (MainLoop.wait_for_runnable_task c os p cpu w1) _
                (λ (slept, w2).
                  wake_up n p cpu (λ pid w3. kernel_loop-IsLegalTurn n p pid cpu w3) slept w2))
        ])

  kschedule-IsLegalTurn : (rounds cpu : ℕ) → Always IsLegalTurn (MainLoop.kschedule c os rounds cpu)
  unfolding MainLoop.kschedule
  kschedule-IsLegalTurn rounds cpu w =
      next (λ (t, _). IsLegalTurn t) (scheduler_at w.kernel_scheduler w) _
        λ (x, w1).
          next (λ (t, _). IsLegalTurn t) (check (x.global_index == 0) w1) _
            λ (_, w2).
              next (λ (t, _). IsLegalTurn t)
                (MainLoop.process_schedule c os w.kernel_scheduler cpu w2) _
                λ (pid, w3). kernel_loop-IsLegalTurn rounds w.kernel_scheduler pid cpu w3

  utok_schedule-IsLegalTurn :
      (rounds cpu : ℕ) → Always IsLegalTurn (MainLoop.utok_schedule c os rounds cpu)
  unfolding MainLoop.utok_schedule
  utok_schedule-IsLegalTurn rounds cpu w =
      kernel_loop-IsLegalTurn rounds w.kernel_scheduler (w.current_vspace cpu) cpu w

  thread_entry-lt :
      (stack_handler cpu : ℕ) → Always (λ v. v < 4) (MainLoop.thread_entry c os stack_handler cpu)
  unfolding MainLoop.thread_entry
  thread_entry-lt stack_handler cpu w =
      next (λ (v, _). v < 4) (get_current_task cpu w) _
        λ (task, w1).
          elim (Bool-cases (ltb 1 c.cpu_num || not (os.is_coroutine w1.os_state task))) [
            | inl switches ↦ rw switches (
                next (λ (v, _). v < 4)
                  ((if w1.in_kernel cpu
                      then MainLoop.kernel_empty_stack c os 1 cpu
                      else MainLoop.user_empty_stack c os stack_handler 1 cpu)
                    w1)
                  _ λ (_, w2). phase2-lt cpu w2)
            | inr stays ↦ rw stays (phase2-lt cpu w1)
          ]

  module _ (rounds p stack_handler cpu : ℕ) (poll : ℕ → M S (Option ℕ)) where
    after_run-IsLegal :
        (t : Transfer)
        → Always (IsLegal Call.run_task) (after_run c os rounds p stack_handler cpu poll t)
    unfolding after_run
    after_run-IsLegal (into_coroutine task) w =
        next (λ (e, _). IsLegal Call.run_task e) (poll task w) _
          λ (res, w').
            Ensures->>= (λ (v, _). v < 2) (λ (e, _). IsLegal Call.run_task e)
              (Run.coroutine_returned c os res cpu w') _ (coroutine_returned-lt res cpu w')
              (λ (v, w2) small. small)
    after_run-IsLegal (into_thread task) w = tt
    after_run-IsLegal (into_user sp) w = tt
    after_run-IsLegal (into_user_context task) w = tt
    after_run-IsLegal into_kernel w = tt

    turn_ending :
        (f : Call) (t : Turn)
        → (f ≡ Call.kschedule) ⊎ (f ≡ Call.utok_schedule)
        → IsLegalTurn t
        → IsLegal f (ending_of t)
    unfolding ending_of
    turn_ending f (jump v) (inl e) h = rw e h
    turn_ending f (jump v) (inr e) h = rw e h
    turn_ending f asleep (inl e) h = rw e tt
    turn_ending f asleep (inr e) h = rw e tt

    -- Where a call of the loop comes to an end from any state, it is one that the loop has a case
    -- for: if `trap_entry` comes back, then with 1 or 3, `thread_entry` with a number under 4, the
    -- kernel's schedule functions and a coroutine's `run_task` with 0 or 1. Of `uschedule`, which
    -- has no result, nothing is said; `krun_utask` does not come back in the model.
    pub perform-IsLegal :
        (f : Call) (a b : ℕ) (w : World S)
        → Ensures (λ (e, w'). IsLegal f e) (perform c os rounds p stack_handler cpu poll f a b w)
    unfolding perform
    perform-IsLegal Call.trap_entry a b w =
        Ensures->>= (λ (v, _). (v ≡ 1) ⊎ (v ≡ 3)) (λ (e, _). IsLegal Call.trap_entry e)
          (Entry.trap_entry c os a b cpu w) _ (trap_entry_cases a b cpu w) (λ _ h. h)
    perform-IsLegal Call.thread_entry a b w =
        Ensures->>= (λ (v, _). v < 4) (λ (e, _). IsLegal Call.thread_entry e)
          (MainLoop.thread_entry c os stack_handler cpu w) _ (thread_entry-lt stack_handler cpu w)
          (λ _ h. h)
    perform-IsLegal Call.kschedule a b w =
        Ensures->>= (λ (t, _). IsLegalTurn t) (λ (e, _). IsLegal Call.kschedule e)
          (MainLoop.kschedule c os rounds cpu w) _ (kschedule-IsLegalTurn rounds cpu w)
          (λ (t, _) h. turn_ending Call.kschedule t (inl refl) h)
    perform-IsLegal Call.uschedule a b w = anything _
    perform-IsLegal Call.utok_schedule a b w =
        Ensures->>= (λ (t, _). IsLegalTurn t) (λ (e, _). IsLegal Call.utok_schedule e)
          (MainLoop.utok_schedule c os rounds cpu w) _ (utok_schedule-IsLegalTurn rounds cpu w)
          (λ (t, _) h. turn_ending Call.utok_schedule t (inr refl) h)
    perform-IsLegal Call.run_task a b w =
        next (λ (e, _). IsLegal Call.run_task e) (Run.run_task c os stack_handler a b cpu w) _
          (λ (t, w'). after_run-IsLegal t w')
    perform-IsLegal Call.krun_utask a b w =
        next (λ (e, _). IsLegal Call.krun_utask e) (Run.krun_utask c os a cpu w) _ (λ _. tt)
