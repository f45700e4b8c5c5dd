-- ===== src/Arch.antt =====
-- The scheduling loop of src/arch: what its assembly calls, and how each call ends. The labels and
-- the functions are the same on every architecture.
pub mod Loop
pub mod Blocks
pub mod Status
pub mod Same
pub mod Legal
pub mod Unreached
pub mod Riscv
pub mod Trampoline
pub mod Interrupts
pub mod X86
pub mod I386
use vsched.Base.{ℕ, Bool, true, false, Option, none, some}
use vsched.Config.{Config}
use vsched.MainLoop
use vsched.MainLoop.{Turn, Transfer, jump, asleep, into_coroutine}
use vsched.MainLoop.Entry
use vsched.MainLoop.Run
use vsched.Monad.{M, pure, ◌>>=◌}
use vsched.Os.{Os}

-- The functions of main_loop.rs that the loop calls.
pub data Call : Type 0 where
  trap_entry thread_entry kschedule uschedule utok_schedule run_task krun_utask : Call

-- The labels of `global_asm!`.
pub data Label : Type 0 where
  raw_trap_entry raw_thread_entry raw_kschedule raw_uschedule : Label
  raw_utok_schedule raw_run_task raw_krun_utask : Label

-- How a call ends: it comes back, with a number, or with 0 where the function returns nothing; or the
-- CPU goes to a task, or sleeps.
pub data Ending : Type 0 where
  returns : ℕ → Ending
  leaves : Transfer → Ending
  sleeps : Ending

-- Whether the function has a result.
unfoldable pub is_numbered : Call → Bool
is_numbered Call.uschedule = false
is_numbered Call.krun_utask = false
is_numbered f = true

-- The arguments that a function has a parameter for.
unfoldable pub first_argument : Call → ℕ → ℕ
first_argument Call.trap_entry a = a
first_argument Call.uschedule a = a
first_argument Call.run_task a = a
first_argument Call.krun_utask a = a
first_argument f a = 0

unfoldable pub second_argument : Call → ℕ → ℕ
second_argument Call.trap_entry b = b
second_argument Call.run_task b = b
second_argument f b = 0

-- What the functions do when they are called with their arguments.
abbrev pub Act : Type 0 → Type 0
Act S = Call → ℕ → ℕ → M S Ending

unfoldable pub ending_of : Turn → Ending
ending_of (jump n) = returns n
ending_of asleep = sleeps

unfoldable pub ending_of_transfer : Option Transfer → Ending
ending_of_transfer none = returns 0
ending_of_transfer (some t) = leaves t

-- `rounds` is for the loops of `kschedule` and `utok_schedule`; `p` and `stack_handler` are the
-- addresses of USER_SCHEDULER and STACK_HANDLER where the code runs. `poll` is the task's.
module _ {S : Type 0} (c : Config) (os : Os S) (rounds p stack_handler cpu : ℕ)
    (poll : ℕ → M S (Option ℕ)) where
  -- A coroutine comes back to the loop, through `run_coroutine`; a thread does not.
  unfoldable pub after_run : Transfer → M S Ending
  after_run (into_coroutine task) = do
    res ← poll task
    privilege ← Run.coroutine_returned c os res cpu
    pure (returns privilege)
  after_run t = pure (leaves t)

  -- A call with its first two arguments.
  unfoldable pub perform : Call → ℕ → ℕ → M S Ending
  perform Call.trap_entry a b = do n ← Entry.trap_entry c os a b cpu; pure (returns n)
  perform Call.thread_entry a b = do
    n ← MainLoop.thread_entry c os stack_handler cpu
    pure (returns n)
  perform Call.kschedule a b = do turn ← MainLoop.kschedule c os rounds cpu; pure (ending_of turn)
  perform Call.uschedule a b = do
    t ← MainLoop.uschedule c os p stack_handler a cpu
    pure (ending_of_transfer t)
  perform Call.utok_schedule a b = do
    turn ← MainLoop.utok_schedule c os rounds cpu
    pure (ending_of turn)
  perform Call.run_task a b = do t ← Run.run_task c os stack_handler a b cpu; after_run t
  perform Call.krun_utask a b = do t ← Run.krun_utask c os a cpu; pure (leaves t)
