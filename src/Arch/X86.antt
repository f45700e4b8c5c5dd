-- ===== src/Arch/X86.antt =====
-- arch/x86.rs for x86_64: the macros that set up a call's arguments, the instructions that the
-- scheduling loop uses, and the loop itself. `and` and `shr` are taken with the three operands that
-- they are written with. By the calling convention a function keeps rbx, r12, r13 and rsp, but for
-- `run_task` and `thread_entry`, which come back from another function and on another stack.
pub mod Refines
pub mod Aligned
use vsched.Base.{
  ℕ, ◌+◌, ◌-◌, Option, ◌/◌, ◌%◌, ◌^◌, Bool, true, false, List, [], ◌∷◌, ◌++◌, ◌==◌, if◌then◌else◌,
}
use vsched.Config.{Config}
use vsched.Monad.{M, pure, ◌>>=◌, get, fail}
use vsched.Os.{Os}
use vsched.World.{World}
use vsched.Arch.{
  Act, first_argument, second_argument, perform, Call, Label, Ending, returns, is_numbered, leaves,
  sleeps, perform, raw_trap_entry, raw_thread_entry, raw_kschedule, raw_uschedule,
  raw_utok_schedule, raw_run_task, raw_krun_utask,
}
use vsched.Arch.Loop.{Exit, given, idle}
use vsched.Arch.Blocks.{Jump, goto, gone, run_blocks}

-- `zf` is the zero flag, 1 when it is set.
pub data Reg : Type 0 where
  rax rbx rdi rsi r12 r13 rsp zf : Reg

abbrev pub Regs : Type 0
Regs = Reg → ℕ

abbrev pub set : Reg → ℕ → Regs → Regs
set rax v r rax = v
set rbx v r rbx = v
set rdi v r rdi = v
set rsi v r rsi = v
set r12 v r r12 = v
set r13 v r r13 = v
set rsp v r rsp = v
set zf v r zf = v
set d v r x = r x

pub data Instr : Type 0 where
  mov : Reg → Reg → Instr
  mov_imm cmp : Reg → ℕ → Instr
  and_one shr_one : Reg → Reg → Instr
  add_imm sub_imm : Reg → ℕ → Instr
  je jmp : Label → Instr
  call : Call → Instr
  long : Instr

-- The macros before and after a call, with the rest of the code.
abbrev push_0_arg : List Instr → List Instr
push_0_arg is = sub_imm rsp 8 ∷ is

abbrev push_1_arg : Reg → List Instr → List Instr
push_1_arg a is = sub_imm rsp 8 ∷ mov rdi a ∷ is

abbrev push_2_arg : Reg → Reg → List Instr → List Instr
push_2_arg a b is = sub_imm rsp 8 ∷ mov rdi a ∷ mov rsi b ∷ is

abbrev pop_arg : List Instr → List Instr
pop_arg is = add_imm rsp 8 ∷ is

-- From a label to the `.long` before the next.
unfoldable pub program : Label → List Instr
program raw_trap_entry =
    mov r12 rbx
    ∷ mov_imm r13 0
    ∷ push_2_arg rax rbx (
        call Call.trap_entry
        ∷ pop_arg (
            cmp rax 1
            ∷ je raw_kschedule
            ∷ cmp rax 2
            ∷ je raw_uschedule
            ∷ cmp rax 3
            ∷ je raw_utok_schedule
            ∷ long
            ∷ []))
program raw_thread_entry = push_0_arg (
    call Call.thread_entry
    ∷ pop_arg (
        and_one r12 rax
        ∷ shr_one r13 rax
        ∷ cmp r12 0
        ∷ je raw_kschedule
        ∷ cmp r12 1
        ∷ je raw_uschedule
        ∷ long
        ∷ []))
program raw_kschedule = push_0_arg (
    call Call.kschedule
    ∷ pop_arg (cmp rax 0 ∷ je raw_run_task ∷ cmp rax 1 ∷ je raw_krun_utask ∷ long ∷ []))
program raw_uschedule =
    push_1_arg r13 (call Call.uschedule ∷ pop_arg (jmp raw_run_task ∷ long ∷ []))
program raw_utok_schedule = push_0_arg (
    call Call.utok_schedule
    ∷ pop_arg (cmp rax 0 ∷ je raw_run_task ∷ cmp rax 1 ∷ je raw_krun_utask ∷ long ∷ []))
program raw_run_task = push_2_arg r12 r13 (
    call Call.run_task
    ∷ pop_arg (
        mov r12 rax
        ∷ mov_imm r13 0
        ∷ cmp r12 0
        ∷ je raw_kschedule
        ∷ cmp r12 1
        ∷ je raw_uschedule
        ∷ long
        ∷ []))
program raw_krun_utask = push_1_arg r13 (call Call.krun_utask ∷ long ∷ [])

-- Whether the function comes back with the registers that the convention has it keep.
unfoldable pub saves : Call → Bool
saves Call.run_task = false
saves Call.thread_entry = false
saves f = true

-- The registers after a call with the result `v`, if it has one; `left` is what the function leaves
-- in the registers that it need not keep.
unfoldable pub after_call : Bool → Bool → ℕ → Regs → Regs → Regs
after_call kept numbered v left r rax = if numbered then v else left rax
after_call kept numbered v left r rbx = if kept then r rbx else left rbx
after_call kept numbered v left r rdi = left rdi
after_call kept numbered v left r rsi = left rsi
after_call kept numbered v left r r12 = if kept then r r12 else left r12
after_call kept numbered v left r r13 = if kept then r r13 else left r13
after_call kept numbered v left r rsp = if kept then r rsp else left rsp
after_call kept numbered v left r zf = left zf

abbrev pub flag : ℕ → ℕ → ℕ
flag a b = if a == b then 1 else 0

abbrev pub sub64 : ℕ → ℕ → ℕ
sub64 a b = (a + (2 ^ 64 - b)) % 2 ^ 64

abbrev pub add64 : ℕ → ℕ → ℕ
add64 a b = (a + b) % 2 ^ 64

-- `left` is what each call leaves in the registers that it need not keep.
module _ {S : Type 0} (act : Act S) (left : Call → World S → Regs) where
  unfoldable pub exec : List Instr → Regs → M S (Jump Regs)
  exec [] r = fail
  exec (mov d s ∷ is) r = exec is (set d (r s) r)
  exec (mov_imm d v ∷ is) r = exec is (set d v r)
  exec (cmp x v ∷ is) r = exec is (set zf (flag (r x) v) r)
  exec (and_one d s ∷ is) r = exec is (set zf (flag (r s % 2) 0) (set d (r s % 2) r))
  exec (shr_one d s ∷ is) r = exec is (set zf (flag (r s / 2) 0) (set d (r s / 2) r))
  exec (add_imm d v ∷ is) r = exec is (set zf (flag (add64 (r d) v) 0) (set d (add64 (r d) v) r))
  exec (sub_imm d v ∷ is) r = exec is (set zf (flag (sub64 (r d) v) 0) (set d (sub64 (r d) v) r))
  exec (je l ∷ is) r = if r zf == 1 then pure (goto l r) else exec is r
  exec (jmp l ∷ is) r = pure (goto l r)
  exec (call f ∷ is) r = do
    e ← act f (first_argument f (r rdi)) (second_argument f (r rsi))
    w ← get
    elim e [
      | returns v ↦ exec is (after_call (saves f) (is_numbered f) v (left f w) r)
      | leaves t ↦ pure (gone (given t))
      | sleeps ↦ pure (gone idle)
    ]
  exec (long ∷ is) r = fail

  -- The loop from a label on, for as many labels.
  unfoldable pub run : ℕ → Label → Regs → M S Exit
  run = run_blocks (λ l r. exec (program l) r)
