-- ===== src/Arch/I386/Aligned.antt =====
-- arch/x86.rs: esp is a multiple of 16 at every call of the 32-bit loop.
use vsched.Base.{ℕ, ◌≡◌, ◌/◌, ◌%◌, ◌^◌, ◌<◌, List, [], ◌∷◌, arith}
use vsched.Arch.{
  Call, Label, is_numbered, raw_trap_entry, raw_thread_entry, raw_kschedule, raw_uschedule,
  raw_utok_schedule, raw_run_task, raw_krun_utask,
}
use vsched.Arch.I386.{
  Machine, Instr, write, esp, zf, mov, mov_imm, cmp, and_one, shr_one, add_imm, sub_imm, push, je,
  jmp, call, long, flag, add32, sub32, result, pushed, program, saves, after_call,
}

-- The code keeps to the convention from this machine on: at each call esp is a multiple of 16, and
-- at each jump it is 12 more than one, as it is at the labels.
abbrev pub CallsAligned : (Call → Machine) → List Instr → Machine → Type 0
CallsAligned left [] m = Unit {0}
CallsAligned left (mov d s ∷ is) m = CallsAligned left is (write d (m.regs s) m)
CallsAligned left (mov_imm d v ∷ is) m = CallsAligned left is (write d v m)
CallsAligned left (cmp x v ∷ is) m = CallsAligned left is (write zf (flag (m.regs x) v) m)
CallsAligned left (and_one d s ∷ is) m = CallsAligned left is (result d (m.regs s % 2) m)
CallsAligned left (shr_one d s ∷ is) m = CallsAligned left is (result d (m.regs s / 2) m)
CallsAligned left (add_imm d v ∷ is) m = CallsAligned left is (result d (add32 (m.regs d) v) m)
CallsAligned left (sub_imm d v ∷ is) m = CallsAligned left is (result d (sub32 (m.regs d) v) m)
CallsAligned left (push s ∷ is) m = CallsAligned left is (pushed (m.regs s) m)
CallsAligned left (je l ∷ is) m = (m.regs esp % 16 ≡ 12) × CallsAligned left is m
CallsAligned left (jmp l ∷ is) m = m.regs esp % 16 ≡ 12
CallsAligned left (call f ∷ is) m =
    (m.regs esp % 16 ≡ 0)
    × ((v : ℕ) → CallsAligned left is (after_call (saves f) (is_numbered f) v (left f) m))
CallsAligned left (long ∷ is) m = Unit {0}

-- From every label, with esp as a `call` leaves it, each call of the 32-bit loop has its stack aligned
-- to 16 bytes and each jump finds esp as at the start. That is if the functions that switch stacks
-- come back with an aligned stack.
pub i386_program-CallsAligned :
    (left : Call → Machine) (l : Label) (m : Machine)
    → ((f : Call) → (left f).regs esp % 16 ≡ 0)
    → m.regs esp % 16 ≡ 12
    → m.regs esp < 2 ^ 32
    → CallsAligned left (program l) m
unfolding program saves is_numbered after_call
i386_program-CallsAligned left raw_trap_entry m back h b = (omega arith, λ v. omega arith)
i386_program-CallsAligned left raw_thread_entry m back h b =
    (omega arith, λ v. omega (arith, back Call.thread_entry))
i386_program-CallsAligned left raw_kschedule m back h b = (omega arith, λ v. omega arith)
i386_program-CallsAligned left raw_uschedule m back h b = (omega arith, λ v. omega arith)
i386_program-CallsAligned left raw_utok_schedule m back h b = (omega arith, λ v. omega arith)
i386_program-CallsAligned left raw_run_task m back h b =
    (omega arith, λ v. omega (arith, back Call.run_task))
i386_program-CallsAligned left raw_krun_utask m back h b = (omega arith, λ v. tt)
