-- ===== src/Arch/Riscv.antt =====
-- arch/riscv.rs: the instructions that the scheduling loop uses, and the loop itself. A register
-- holds a 64-bit value. By the calling convention a function keeps s1 and s2, but for `run_task`
-- and `thread_entry`, which come back from another function and on another stack.

pub mod Refines
use vsched.Base.{
  ℕ, zero, suc, ◌/◌, ◌%◌, ◌^◌, Bool, true, false, Option, none, some, List, [], ◌∷◌, ◌==◌,
  if◌then◌else◌, Outcome, spinning,
}
use vsched.Config.{Config}
use vsched.MainLoop.{Transfer}
use vsched.Monad.{M, pure, ◌>>=◌, get, fail}
use vsched.Os.{Os}
use vsched.World.{World}
use vsched.Arch.{
  Act, first_argument, second_argument, perform, Call, Label, Ending, returns, is_numbered, leaves,
  sleeps, perform, raw_trap_entry, raw_thread_entry, raw_kschedule, raw_uschedule,
  raw_utok_schedule, raw_run_task, raw_krun_utask,
}
use vsched.Arch.Loop.{Exit, given, idle}
use vsched.Arch.Blocks.{Jump, goto, gone, run_blocks}

pub data Reg : Type 0 where
  a0 a1 s1 s2 : Reg

abbrev pub Regs : Type 0
Regs = Reg → ℕ

abbrev pub set : Reg → ℕ → Regs → Regs
set a0 v r a0 = v
set a1 v r a1 = v
set s1 v r s1 = v
set s2 v r s2 = v
set d v r x = r x

pub data Instr : Type 0 where
  mv : Reg → Reg → Instr
  li : Reg → ℕ → Instr
  andi_one srli_one : Reg → Reg → Instr
  beq : Reg → Reg → Label → Instr
  j : Label → Instr
  call : Call → Instr
  word : Instr

-- From a label to the `.word` before the next. `schedule_loop` is the first label too.
unfoldable pub program : Label → List Instr
program raw_trap_entry =
    mv s1 a1
    ∷ call Call.trap_entry
    ∷ li a1 1
    ∷ beq a0 a1 raw_kschedule
    ∷ li a1 2
    ∷ beq a0 a1 raw_uschedule
    ∷ li a1 3
    ∷ beq a0 a1 raw_utok_schedule
    ∷ word
    ∷ []
program raw_thread_entry =
    call Call.thread_entry
    ∷ andi_one s1 a0
    ∷ srli_one s2 a0
    ∷ li a1 0
    ∷ beq s1 a1 raw_kschedule
    ∷ li a1 1
    ∷ beq s1 a1 raw_uschedule
    ∷ word
    ∷ []
program raw_kschedule =
    call Call.kschedule
    ∷ li a1 0
    ∷ beq a0 a1 raw_run_task
    ∷ li a1 1
    ∷ beq a0 a1 raw_krun_utask
    ∷ word
    ∷ []
program raw_uschedule = mv a0 s2 ∷ call Call.uschedule ∷ j raw_run_task ∷ word ∷ []
program raw_utok_schedule =
    call Call.utok_schedule
    ∷ li a1 0
    ∷ beq a0 a1 raw_run_task
    ∷ li a1 1
    ∷ beq a0 a1 raw_krun_utask
    ∷ word
    ∷ []
program raw_run_task =
    mv a0 s1
    ∷ mv a1 s2
    ∷ call Call.run_task
    ∷ mv s1 a0
    ∷ li s2 0
    ∷ li a1 0
    ∷ beq s1 a1 raw_kschedule
    ∷ li a1 1
    ∷ beq s1 a1 raw_uschedule
    ∷ word
    ∷ []
program raw_krun_utask = mv a0 s2 ∷ call Call.krun_utask ∷ word ∷ []

-- Whether the function comes back with s1 and s2 as they were.
unfoldable pub saves : Call → Bool
saves Call.run_task = false
saves Call.thread_entry = false
saves f = true

-- The registers after a call with the result `v`, if it has one; `left` is what the function leaves
-- in the registers that it need not keep.
unfoldable pub after_call : Bool → Bool → ℕ → Regs → Regs → Regs
after_call kept numbered v left r a0 = if numbered then v else left a0
after_call kept numbered v left r a1 = left a1
after_call kept numbered v left r s1 = if kept then r s1 else left s1
after_call kept numbered v left r s2 = if kept then r s2 else left s2

-- `left` is what each call leaves in the registers that it need not keep.
module _ {S : Type 0} (act : Act S) (left : Call → World S → Regs) where
  unfoldable pub exec : List Instr → Regs → M S (Jump Regs)
  exec [] r = fail
  exec (mv d s ∷ is) r = exec is (set d (r s) r)
  exec (li d v ∷ is) r = exec is (set d v r)
  exec (andi_one d s ∷ is) r = exec is (set d (r s % 2) r)
  exec (srli_one d s ∷ is) r = exec is (set d (r s / 2) r)
  exec (beq x y l ∷ is) r = if r x == r y then pure (goto l r) else exec is r
  exec (j l ∷ is) r = pure (goto l r)
  exec (call f ∷ is) r = do
    e ← act f (first_argument f (r a0)) (second_argument f (r a1))
    w ← get
    elim e [
      | returns v ↦ exec is (after_call (saves f) (is_numbered f) v (left f w) r)
      | leaves t ↦ pure (gone (given t))
      | sleeps ↦ pure (gone idle)
    ]
  exec (word ∷ is) r = fail

  -- The loop from a label on, for as many labels.
  unfoldable pub run : ℕ → Label → Regs → M S Exit
  run = run_blocks (λ l r. exec (program l) r)
