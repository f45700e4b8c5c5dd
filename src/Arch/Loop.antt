-- ===== src/Arch/Loop.antt =====
-- What src/arch says of the scheduling loop in its comments: the calls in their order, with the
-- privilege level (0 for the kernel) and the stack's status (0 for empty) as variables.
use vsched.Base.{ℕ, zero, suc, ◌/◌, ◌%◌, ◌==◌, if◌then◌else◌, spinning}
use vsched.MainLoop.{Transfer}
use vsched.Monad.{M, pure, ◌>>=◌}
use vsched.Arch.{Act, Call, returns, leaves, sleeps}

-- A place in the loop, with the variables' values.
pub data Point : Type 0 where
  trapped : ℕ → ℕ → ℕ → Point
  yielded : Point
  in_kernel in_user coming_in running : ℕ → ℕ → Point
  going_out : ℕ → Point

-- What follows a call: another place, a task on the CPU, or sleep.
pub data Next : Type 0 where
  go : Point → Next
  gives : Transfer → Next
  idles : Next

-- How a run of the loop ends.
pub data Exit : Type 0 where
  given : Transfer → Exit
  idle : Exit

-- `word` is what happens at a word that the comments mark as unreachable.
module _ {S : Type 0} (act : Act S) (word : M S Next) where
  -- A call, and what its number stands for.
  unfoldable pub do_call : Call → ℕ → ℕ → (ℕ → M S Next) → M S Next
  do_call f a b k = do
    e ← act f a b
    elim e [ returns n ↦ k n | leaves t ↦ pure (gives t) | sleeps ↦ pure idles ]

  -- 0 for the kernel's scheduler and 1 for the user's.
  unfoldable pub to_schedule : ℕ → ℕ → M S Next
  to_schedule privilege status =
      if privilege == 0
      then pure (go (in_kernel privilege status))
      else if privilege == 1
      then pure (go (in_user privilege status))
      else word

  -- 0 for `run_task` and 1 for `krun_utask`.
  unfoldable pub to_task : ℕ → ℕ → ℕ → M S Next
  to_task privilege status n =
      if n == 0
      then pure (go (running privilege status))
      else if n == 1
      then pure (go (going_out status))
      else word

  -- 1 for `kschedule`, 2 for `uschedule` and 3 for `utok_schedule`.
  unfoldable pub after_trap : ℕ → ℕ → ℕ → M S Next
  after_trap privilege status n =
      if n == 1
      then pure (go (in_kernel privilege status))
      else if n == 2
      then pure (go (in_user privilege status))
      else if n == 3
      then pure (go (coming_in privilege status))
      else word

  unfoldable pub loop_step : Point → M S Next
  loop_step (trapped type privilege status) =
      do_call Call.trap_entry type privilege (after_trap privilege status)
  loop_step yielded = do_call Call.thread_entry 0 0 (λ n. to_schedule (n % 2) (n / 2))
  loop_step (in_kernel privilege status) = do_call Call.kschedule 0 0 (to_task privilege status)
  loop_step (in_user privilege status) =
      do_call Call.uschedule status 0 (λ n. pure (go (running privilege status)))
  loop_step (coming_in privilege status) = do_call Call.utok_schedule 0 0 (to_task privilege status)
  loop_step (running privilege status) =
      do_call Call.run_task privilege status (λ n. to_schedule n 0)
  loop_step (going_out status) = do_call Call.krun_utask status 0 (λ n. word)

  -- The loop, for as many places.
  unfoldable pub loop : ℕ → Point → M S Exit
  loop zero at = λ w. spinning
  loop (suc n) at = do
    next ← loop_step at
    elim next [ go at' ↦ loop n at' | gives t ↦ pure (given t) | idles ↦ pure idle ]
