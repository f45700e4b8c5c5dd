-- ===== src/Arch/Same.antt =====
-- arch/riscv.rs and arch/x86.rs: the loop is the same on both architectures.
use vsched.Base.{ℕ, ◌≡◌, refl, sym, ap, ◌∙◌, Option, arith}
use vsched.Config.{Config}
use vsched.Monad.{fail, M}
use vsched.Os.{Os}
use vsched.World.{World}
use vsched.Arch.{
  Call, perform, Label, raw_trap_entry, raw_thread_entry, raw_kschedule, raw_uschedule,
  raw_utok_schedule, raw_run_task, raw_krun_utask,
}
use vsched.Arch.Loop.{loop}
use vsched.Arch.Riscv
use vsched.Arch.Riscv.{a0, a1, s1}
use vsched.Arch.Riscv.Refines as RiscvRefines
use vsched.Arch.Status.{clear, loop-clear}
use vsched.Arch.X86
use vsched.Arch.X86.{rax, rbx, r12}
use vsched.Arch.X86.Refines as X86Refines

-- What the two machines have in common at a label: the trap's type and the privilege level.
abbrev pub Agree : Label → Riscv.Regs → X86.Regs → Type 0
Agree raw_trap_entry r r' = (r a0 ≡ r' rax) × (r a1 ≡ r' rbx)
Agree raw_thread_entry r r' = Unit
Agree raw_krun_utask r r' = Unit
Agree l r r' = r s1 ≡ r' r12

Agree-clear :
    (l : Label) (r : Riscv.Regs) (r' : X86.Regs)
    → Agree l r r'
    → clear (RiscvRefines.point_of l r) ≡ clear (X86Refines.point_of l r')
unfolding clear RiscvRefines.point_of X86Refines.point_of
Agree-clear raw_trap_entry r r' e = ground arith
Agree-clear raw_thread_entry r r' e = refl
Agree-clear raw_krun_utask r r' e = refl
Agree-clear raw_kschedule r r' e = ground arith
Agree-clear raw_uschedule r r' e = ground arith
Agree-clear raw_utok_schedule r r' e = ground arith
Agree-clear raw_run_task r r' e = ground arith

-- From a label where the trap's type and the privilege level agree, the RISC-V and the x86_64
-- assembly make the same calls with the same effect and come to the same end, where the functions
-- that they call are the same. That holds whatever the RISC-V loop finds in s2, which it does not set
-- on a trap, and whatever the functions leave in the registers that they need not keep.
pub riscv_run-x86_run :
    {S : Type 0} (c : Config) (os : Os S) (rounds p stack_handler cpu : ℕ)
    (poll : ℕ → M S (Option ℕ)) (left : Call → World S → Riscv.Regs)
    (left' : Call → World S → X86.Regs) (n : ℕ) (l : Label) (r : Riscv.Regs) (r' : X86.Regs)
    (w : World S)
    → Agree l r r'
    → Riscv.run (perform c os rounds p stack_handler cpu poll) left n l r w
      ≡ X86.run (perform c os rounds p stack_handler cpu poll) left' n l r' w
riscv_run-x86_run c os rounds p stack_handler cpu poll left left' n l r r' w e =
    RiscvRefines.riscv_run-loop (perform c os rounds p stack_handler cpu poll) left n l r w
    ∙ loop-clear c os rounds p stack_handler cpu poll n (RiscvRefines.point_of l r) w
    ∙ ap (λ at. loop (perform c os rounds p stack_handler cpu poll) fail n at w)
        (Agree-clear l r r' e)
    ∙ sym (loop-clear c os rounds p stack_handler cpu poll n (X86Refines.point_of l r') w)
    ∙ sym (X86Refines.x86_run-loop (perform c os rounds p stack_handler cpu poll) left' n l r' w)
