-- ===== src/Arch/Status.antt =====
-- src/arch: the status of the stack, which the loop passes on and no function reads.
use vsched.Base.{
  ℕ, zero, suc, ◌≡◌, refl, sym, ◌∙◌, Option, arith, Outcome, done, panic, null_deref, spinning,
}
use vsched.Base.Outcomes.{◌>>=◌ as bind}
use vsched.Config.{Config}
use vsched.MainLoop.{
  kernel_empty_stack, user_empty_stack, kernel_thread_stack, user_thread_stack, uschedule,
  utask_schedule,
}
use vsched.MainLoop.Run.{run_task, krun_utask}
use vsched.Monad.{fail, M}
use vsched.Os.{Os}
use vsched.Stacks.{get_empty_stack, get_thread_stack}
use vsched.World.{World}
use vsched.Arch.{Call, Ending, returns, leaves, sleeps, perform}
use vsched.Arch.Loop.{
  Point, trapped, yielded, in_kernel, in_user, coming_in, running, going_out, Next, go, gives,
  idles, Exit, given, idle, do_call, to_task, after_trap, loop_step, loop,
}

-- A place, with the status for empty.
unfoldable pub clear : Point → Point
clear (trapped type privilege status) = trapped type privilege 0
clear yielded = yielded
clear (in_kernel privilege status) = in_kernel privilege 0
clear (in_user privilege status) = in_user privilege 0
clear (coming_in privilege status) = coming_in privilege 0
clear (running privilege status) = running privilege 0
clear (going_out status) = going_out 0

module _ {S : Type 0} (c : Config) (os : Os S) (rounds p stack_handler cpu : ℕ)
    (poll : ℕ → M S (Option ℕ)) where
  run_task-status :
      (a b : ℕ) (w : World S)
      → perform c os rounds p stack_handler cpu poll Call.run_task a b w
        ≡ perform c os rounds p stack_handler cpu poll Call.run_task a 0 w
  unfolding perform run_task kernel_empty_stack user_empty_stack kernel_thread_stack
      user_thread_stack get_empty_stack get_thread_stack
  run_task-status a b w = refl

  krun_utask-status :
      (a b : ℕ) (w : World S)
      → perform c os rounds p stack_handler cpu poll Call.krun_utask a b w
        ≡ perform c os rounds p stack_handler cpu poll Call.krun_utask 0 b w
  unfolding perform krun_utask user_empty_stack kernel_thread_stack get_empty_stack get_thread_stack
  krun_utask-status a b w = refl

  uschedule-status :
      (a b : ℕ) (w : World S)
      → perform c os rounds p stack_handler cpu poll Call.uschedule a b w
        ≡ perform c os rounds p stack_handler cpu poll Call.uschedule 0 b w
  unfolding perform uschedule utask_schedule user_thread_stack get_thread_stack
  uschedule-status a b w = refl

  abbrev next_loop : ℕ → Next × World S → Outcome (Exit × World S)
  next_loop n (go at, w) = loop (perform c os rounds p stack_handler cpu poll) fail n at w
  next_loop n (gives t, w) = done (given t, w)
  next_loop n (idles, w) = done (idle, w)

  loop-suc :
      (n : ℕ) (at : Point) (w : World S)
      → loop (perform c os rounds p stack_handler cpu poll) fail (suc n) at w
        ≡ bind (loop_step (perform c os rounds p stack_handler cpu poll) fail at w) (next_loop n)
  unfolding loop
  loop-suc n at w = after (loop_step (perform c os rounds p stack_handler cpu poll) fail at w)
    where
      after :
          (o : Outcome (Next × World S))
          → bind o (λ (next, w').
            elim next as (λ _. M S Exit) [
              | go at' ↦ loop (perform c os rounds p stack_handler cpu poll) fail n at'
              | gives t ↦ λ w''. done (given t, w'')
              | idles ↦ λ w''. done (idle, w'')
            ]
              w')
            ≡ bind o (next_loop n)
      after (done (go at, w')) = refl
      after (done (gives t, w')) = refl
      after (done (idles, w')) = refl
      after panic = refl
      after null_deref = refl
      after spinning = refl

  -- Two ways to go on after the same call.
  call_congr :
      (n : ℕ) (f : Call) (a b a' b' : ℕ) (k k' : ℕ → M S Next) (w : World S)
      → perform c os rounds p stack_handler cpu poll f a b w
        ≡ perform c os rounds p stack_handler cpu poll f a' b' w
      → ((v : ℕ) (w' : World S) → bind (k v w') (next_loop n) ≡ bind (k' v w') (next_loop n))
      → bind (do_call (perform c os rounds p stack_handler cpu poll) fail f a b k w) (next_loop n)
        ≡ bind
            (do_call (perform c os rounds p stack_handler cpu poll) fail f a' b' k' w)
            (next_loop n)
  unfolding do_call
  call_congr n f a b a' b' k k' w e same =
      rw e (after (perform c os rounds p stack_handler cpu poll f a' b' w))
    where
      after :
          (o : Outcome (Ending × World S))
          → bind
              (bind o (λ (e, w').
                elim e as (λ _. M S Next) [
                  | returns v ↦ k v
                  | leaves t ↦ λ w''. done (gives t, w'')
                  | sleeps ↦ λ w''. done (idles, w'')
                ]
                  w'))
              (next_loop n)
            ≡ bind
                (bind o (λ (e, w').
                  elim e as (λ _. M S Next) [
                    | returns v ↦ k' v
                    | leaves t ↦ λ w''. done (gives t, w'')
                    | sleeps ↦ λ w''. done (idles, w'')
                  ]
                    w'))
                (next_loop n)
      after (done (returns v, w')) = same v w'
      after (done (leaves t, w')) = refl
      after (done (sleeps, w')) = refl
      after panic = refl
      after null_deref = refl
      after spinning = refl

  module _ (n : ℕ)
      (ih : (at : Point) (w : World S)
        → loop (perform c os rounds p stack_handler cpu poll) fail n at w
          ≡ loop (perform c os rounds p stack_handler cpu poll) fail n (clear at) w) where
    to_task_congr :
        (privilege status v : ℕ) (w : World S)
        → bind
            (to_task (perform c os rounds p stack_handler cpu poll) fail privilege status v w)
            (next_loop n)
          ≡ bind
              (to_task (perform c os rounds p stack_handler cpu poll) fail privilege 0 v w)
              (next_loop n)
    unfolding to_task clear
    to_task_congr privilege status v w =
        ground (arith, ih (running privilege status) w, ih (going_out status) w)

    after_trap_congr :
        (privilege status v : ℕ) (w : World S)
        → bind
            (after_trap (perform c os rounds p stack_handler cpu poll) fail privilege status v w)
            (next_loop n)
          ≡ bind
              (after_trap (perform c os rounds p stack_handler cpu poll) fail privilege 0 v w)
              (next_loop n)
    unfolding after_trap clear
    after_trap_congr privilege status v w = ground (
      arith,
      ih (in_kernel privilege status) w,
      ih (in_user privilege status) w,
      ih (coming_in privilege status) w,
    )

    step-clear :
        (at : Point) (w : World S)
        → bind (loop_step (perform c os rounds p stack_handler cpu poll) fail at w) (next_loop n)
          ≡ bind
              (loop_step (perform c os rounds p stack_handler cpu poll) fail (clear at) w)
              (next_loop n)
    unfolding loop_step clear
    step-clear (trapped type privilege status) w =
        call_congr n Call.trap_entry type privilege type privilege _ _ w refl
          (after_trap_congr privilege status)
    step-clear yielded w = refl
    step-clear (in_kernel privilege status) w =
        call_congr n Call.kschedule 0 0 0 0 _ _ w refl (to_task_congr privilege status)
    step-clear (in_user privilege status) w =
        call_congr n Call.uschedule status 0 0 0 _ _ w (uschedule-status status 0 w)
          (λ v w'. ih (running privilege status) w')
    step-clear (coming_in privilege status) w =
        call_congr n Call.utok_schedule 0 0 0 0 _ _ w refl (to_task_congr privilege status)
    step-clear (running privilege status) w =
        call_congr n Call.run_task privilege status privilege 0 _ _ w
          (run_task-status privilege status w) (λ v w'. refl)
    step-clear (going_out status) w =
        call_congr n Call.krun_utask status 0 0 0 _ _ w (krun_utask-status status 0 w)
          (λ v w'. refl)

  -- The loop does the same whatever it takes the stack's status to be.
  pub loop-clear :
      (n : ℕ) (at : Point) (w : World S)
      → loop (perform c os rounds p stack_handler cpu poll) fail n at w
        ≡ loop (perform c os rounds p stack_handler cpu poll) fail n (clear at) w
  loop-clear zero at w = unfold loop in refl
  loop-clear (suc n) at w =
      loop-suc n at w ∙ step-clear n (loop-clear n) at w ∙ sym (loop-suc n (clear at) w)
