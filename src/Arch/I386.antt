-- ===== src/Arch/I386.antt =====
-- arch/x86.rs for x86, with 32 bits: the macros that push a call's arguments on the stack, the
-- instructions that the scheduling loop uses, and the loop itself. `and` and `shr` are taken with the
-- three operands that they are written with, and eax for the rax among these. By the calling
-- convention a function keeps ebx, edi, esi and esp, but for `run_task` and `thread_entry`, which
-- come back from another function and on another stack.
pub mod Refines
pub mod Aligned
use vsched.Base.{
  ℕ, ◌+◌, ◌-◌, Option, ◌/◌, ◌%◌, ◌^◌, Bool, true, false, List, [], ◌∷◌, ◌++◌, ◌==◌, if◌then◌else◌,
  update,
}
use vsched.Config.{Config}
use vsched.Monad.{M, pure, ◌>>=◌, get, fail}
use vsched.Os.{Os}
use vsched.World.{World}
use vsched.Arch.{
  Act, first_argument, second_argument, perform, Call, Label, Ending, returns, is_numbered, leaves,
  sleeps, perform, raw_trap_entry, raw_thread_entry, raw_kschedule, raw_uschedule,
  raw_utok_schedule, raw_run_task, raw_krun_utask,
}
use vsched.Arch.Loop.{Exit, given, idle}
use vsched.Arch.Blocks.{Jump, goto, gone, run_blocks}

-- `zf` is the zero flag, 1 when it is set.
pub data Reg : Type 0 where
  eax ebx edi esi esp zf : Reg

abbrev pub Regs : Type 0
Regs = Reg → ℕ

abbrev pub set : Reg → ℕ → Regs → Regs
set eax v r eax = v
set ebx v r ebx = v
set edi v r edi = v
set esi v r esi = v
set esp v r esp = v
set zf v r zf = v
set d v r x = r x

-- The registers, and the words of the memory by address.
pub record Machine : Type 0 where
  pub regs : Regs
  pub mem : ℕ → ℕ

abbrev pub write : Reg → ℕ → Machine → Machine
write d v m = record m { regs = set d v m.regs }

pub data Instr : Type 0 where
  mov : Reg → Reg → Instr
  mov_imm cmp : Reg → ℕ → Instr
  and_one shr_one : Reg → Reg → Instr
  add_imm sub_imm : Reg → ℕ → Instr
  push : Reg → Instr
  je jmp : Label → Instr
  call : Call → Instr
  long : Instr

-- The macros before and after a call, with the rest of the code.
abbrev push_0_arg : List Instr → List Instr
push_0_arg is = sub_imm esp 12 ∷ is

abbrev push_1_arg : Reg → List Instr → List Instr
push_1_arg a is = sub_imm esp 8 ∷ push a ∷ is

abbrev push_2_arg : Reg → Reg → List Instr → List Instr
push_2_arg a b is = sub_imm esp 4 ∷ push b ∷ push a ∷ is

abbrev pop_arg : List Instr → List Instr
pop_arg is = add_imm esp 12 ∷ is

-- From a label to the `.long` before the next.
unfoldable pub program : Label → List Instr
program raw_trap_entry =
    mov edi ebx
    ∷ mov_imm esi 0
    ∷ push_2_arg eax ebx (
        call Call.trap_entry
        ∷ pop_arg (
            cmp eax 1
            ∷ je raw_kschedule
            ∷ cmp eax 2
            ∷ je raw_uschedule
            ∷ cmp eax 3
            ∷ je raw_utok_schedule
            ∷ long
            ∷ []))
program raw_thread_entry = push_0_arg (
    call Call.thread_entry
    ∷ pop_arg (
        and_one edi eax
        ∷ shr_one esi eax
        ∷ cmp edi 0
        ∷ je raw_kschedule
        ∷ cmp edi 1
        ∷ je raw_uschedule
        ∷ long
        ∷ []))
program raw_kschedule = push_0_arg (
    call Call.kschedule
    ∷ pop_arg (cmp eax 0 ∷ je raw_run_task ∷ cmp eax 1 ∷ je raw_krun_utask ∷ long ∷ []))
program raw_uschedule =
    push_1_arg esi (call Call.uschedule ∷ pop_arg (jmp raw_run_task ∷ long ∷ []))
program raw_utok_schedule = push_0_arg (
    call Call.utok_schedule
    ∷ pop_arg (cmp eax 0 ∷ je raw_run_task ∷ cmp eax 1 ∷ je raw_krun_utask ∷ long ∷ []))
program raw_run_task = push_2_arg edi esi (
    call Call.run_task
    ∷ pop_arg (
        mov edi eax
        ∷ mov_imm esi 0
        ∷ cmp edi 0
        ∷ je raw_kschedule
        ∷ cmp edi 1
        ∷ je raw_uschedule
        ∷ long
        ∷ []))
program raw_krun_utask = push_1_arg esi (call Call.krun_utask ∷ long ∷ [])

-- Whether the function comes back with the registers that the convention has it keep.
unfoldable pub saves : Call → Bool
saves Call.run_task = false
saves Call.thread_entry = false
saves f = true

-- The machine after a call with the result `v`, if it has one; `left` is what the function leaves in
-- the registers that it need not keep, and in the memory, where its arguments were its own.
unfoldable pub after_call : Bool → Bool → ℕ → Machine → Machine → Machine
after_call kept numbered v left m = record {
  regs =
      set eax (if numbered then v else left.regs eax)
        (set zf (left.regs zf) (if kept then m.regs else left.regs));
  mem = left.mem;
}

abbrev pub flag : ℕ → ℕ → ℕ
flag a b = if a == b then 1 else 0

abbrev pub sub32 : ℕ → ℕ → ℕ
sub32 a b = (a + (2 ^ 32 - b)) % 2 ^ 32

abbrev pub add32 : ℕ → ℕ → ℕ
add32 a b = (a + b) % 2 ^ 32

-- The result of an arithmetic instruction, with the zero flag.
abbrev pub result : Reg → ℕ → Machine → Machine
result d v m = write zf (flag v 0) (write d v m)

-- `push` of a value.
abbrev pub pushed : ℕ → Machine → Machine
pushed v m =
    let top = sub32 (m.regs esp) 4 in record { regs = set esp top m.regs; mem = update m.mem top v }

-- `left` is what each call leaves behind.
module _ {S : Type 0} (act : Act S) (left : Call → World S → Machine) where
  unfoldable pub exec : List Instr → Machine → M S (Jump Machine)
  exec [] m = fail
  exec (mov d s ∷ is) m = exec is (write d (m.regs s) m)
  exec (mov_imm d v ∷ is) m = exec is (write d v m)
  exec (cmp x v ∷ is) m = exec is (write zf (flag (m.regs x) v) m)
  exec (and_one d s ∷ is) m = exec is (result d (m.regs s % 2) m)
  exec (shr_one d s ∷ is) m = exec is (result d (m.regs s / 2) m)
  exec (add_imm d v ∷ is) m = exec is (result d (add32 (m.regs d) v) m)
  exec (sub_imm d v ∷ is) m = exec is (result d (sub32 (m.regs d) v) m)
  exec (push s ∷ is) m = exec is (pushed (m.regs s) m)
  exec (je l ∷ is) m = if m.regs zf == 1 then pure (goto l m) else exec is m
  exec (jmp l ∷ is) m = pure (goto l m)
  exec (call f ∷ is) m = do
    e ←
        act f (first_argument f (m.mem (m.regs esp)))
          (second_argument f (m.mem (add32 (m.regs esp) 4)))
    w ← get
    elim e [
      | returns v ↦ exec is (after_call (saves f) (is_numbered f) v (left f w) m)
      | leaves t ↦ pure (gone (given t))
      | sleeps ↦ pure (gone idle)
    ]
  exec (long ∷ is) m = fail

  -- The loop from a label on, for as many labels.
  unfoldable pub run : ℕ → Label → Machine → M S Exit
  run = run_blocks (λ l m. exec (program l) m)
