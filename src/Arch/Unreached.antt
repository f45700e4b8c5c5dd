-- ===== src/Arch/Unreached.antt =====
-- src/arch: the words that the comments mark as unreachable.
use vsched.Base.{
  ℕ, zero, suc, ◌≡◌, refl, ap, ◌∙◌, Option, arith, Outcome, done, panic, null_deref, spinning,
  Ensures,
}
use vsched.Base.Outcomes.{◌>>=◌ as bind}
use vsched.Config.{Config}
use vsched.Monad.{M}
use vsched.Os.{Os}
use vsched.World.{World}
use vsched.Arch.{Call, Ending, returns, leaves, sleeps, perform}
use vsched.Arch.Legal.{IsLegal, perform-IsLegal}
use vsched.Arch.Loop.{
  Point, trapped, yielded, in_kernel, in_user, coming_in, running, going_out, Next, go, gives,
  idles, Exit, given, idle, do_call, to_schedule, to_task, after_trap, loop_step, loop,
}

module _ {S : Type 0} (c : Config) (os : Os S) (rounds p stack_handler cpu : ℕ)
    (poll : ℕ → M S (Option ℕ)) (a b : M S Next) where
  -- Two ways to go on that agree after each legal result.
  do_call-legal :
      (f : Call) (x y : ℕ) (k k' : ℕ → M S Next)
      → ((v : ℕ) (w : World S) → IsLegal f (returns v) → k v w ≡ k' v w)
      → (w : World S)
      → do_call (perform c os rounds p stack_handler cpu poll) a f x y k w
        ≡ do_call (perform c os rounds p stack_handler cpu poll) b f x y k' w
  unfolding do_call
  do_call-legal f x y k k' same w =
      after (perform c os rounds p stack_handler cpu poll f x y w)
        (perform-IsLegal c os rounds p stack_handler cpu poll f x y w)
    where
      after :
          (o : Outcome (Ending × World S))
          → Ensures (λ (e, w'). IsLegal f e) o
          → bind o (λ (e, w').
            elim e as (λ _. M S Next) [
              | returns v ↦ k v
              | leaves t ↦ λ w''. done (gives t, w'')
              | sleeps ↦ λ w''. done (idles, w'')
            ]
              w')
            ≡ bind o (λ (e, w').
              elim e as (λ _. M S Next) [
                | returns v ↦ k' v
                | leaves t ↦ λ w''. done (gives t, w'')
                | sleeps ↦ λ w''. done (idles, w'')
              ]
                w')
      after (done (returns v, w')) h = same v w' h
      after (done (leaves t, w')) h = refl
      after (done (sleeps, w')) h = refl
      after panic h = refl
      after null_deref h = refl
      after spinning h = refl

  loop_step-same :
      (at : Point) (w : World S)
      → loop_step (perform c os rounds p stack_handler cpu poll) a at w
        ≡ loop_step (perform c os rounds p stack_handler cpu poll) b at w
  unfolding loop_step to_schedule to_task after_trap
  loop_step-same (trapped type privilege status) w =
      do_call-legal Call.trap_entry type privilege _ _ (λ v w' h. ground (arith, h)) w
  loop_step-same yielded w = do_call-legal Call.thread_entry 0 0 _ _ (λ v w' h. ground (arith, h)) w
  loop_step-same (in_kernel privilege status) w =
      do_call-legal Call.kschedule 0 0 _ _ (λ v w' h. ground (arith, h)) w
  loop_step-same (in_user privilege status) w =
      do_call-legal Call.uschedule status 0 _ _ (λ v w' h. refl) w
  loop_step-same (coming_in privilege status) w =
      do_call-legal Call.utok_schedule 0 0 _ _ (λ v w' h. ground (arith, h)) w
  loop_step-same (running privilege status) w =
      do_call-legal Call.run_task privilege status _ _ (λ v w' h. ground (arith, h)) w
  loop_step-same (going_out status) w =
      do_call-legal Call.krun_utask status 0 _ _ (λ v w' h. absurd h) w

  abbrev next_loop : M S Next → ℕ → Next → M S Exit
  next_loop word n next = elim next [
    | go at ↦ loop (perform c os rounds p stack_handler cpu poll) word n at
    | gives t ↦ λ w. done (given t, w)
    | idles ↦ λ w. done (idle, w)
  ]

  go_on :
      (n : ℕ)
      → ((at : Point) (w : World S)
          → loop (perform c os rounds p stack_handler cpu poll) a n at w
            ≡ loop (perform c os rounds p stack_handler cpu poll) b n at w)
      → (o : Outcome (Next × World S))
      → bind o (λ (next, w). next_loop a n next w) ≡ bind o (λ (next, w). next_loop b n next w)
  go_on n ih (done (go at, w)) = ih at w
  go_on n ih (done (gives t, w)) = refl
  go_on n ih (done (idles, w)) = refl
  go_on n ih panic = refl
  go_on n ih null_deref = refl
  go_on n ih spinning = refl

  -- The loop, with the functions of this library, does the same whatever happens at the words that
  -- its comments mark as unreachable (`a` or `b`): from any place, any state and for as many places.
  -- That `krun_utask` does not come back is part of the model.
  pub loop-unreached :
      (n : ℕ) (at : Point) (w : World S)
      → loop (perform c os rounds p stack_handler cpu poll) a n at w
        ≡ loop (perform c os rounds p stack_handler cpu poll) b n at w
  unfolding loop
  loop-unreached zero at w = refl
  loop-unreached (suc n) at w =
      go_on n (loop-unreached n) (loop_step (perform c os rounds p stack_handler cpu poll) a at w)
      ∙ ap (λ o. bind o (λ (next, w'). next_loop b n next w')) (loop_step-same at w)
