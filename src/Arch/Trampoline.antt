-- ===== src/Arch/Trampoline.antt =====
-- The macros `jump_to_trampoline` and `switch_sp_tratrampoline` of src/arch, from one function to the
-- next on another stack. A machine is the registers that they use and the words of the memory by
-- address. The naked functions of stack/trampoline.rs are the second macro, each with its function.
pub mod Returns
use vsched.Base.{ℕ, ◌+◌, ◌-◌, ◌*◌, ◌/◌, ◌%◌, ◌^◌, update, ◌==◌, if◌then◌else◌}

-- Where a trampoline goes to.
pub data Target : Type 0 where
  run_coroutine run_thread thread_entry_phase2 : Target

-- RISC-V with 64 bits.
pub record Riscv : Type 0 where
  pub a0 : ℕ
  pub ra : ℕ
  pub fp : ℕ
  pub sp : ℕ
  pub mem : ℕ → ℕ

unfoldable pub riscv_jump : ℕ → Riscv → Riscv
riscv_jump new_sp m = record m { a0 = new_sp; ra = m.mem ((m.fp + (2 ^ 64 - 8)) % 2 ^ 64) }

unfoldable pub riscv_switch : Riscv → Riscv
riscv_switch m = record m { sp = m.a0 }

-- `reset_stack_and_jump!`: the frame goes, with the words that its prologue saved.
unfoldable pub riscv_reset_stack : Riscv → Riscv
riscv_reset_stack m = record m {
  sp = m.fp;
  ra = m.mem ((m.fp + (2 ^ 64 - 8)) % 2 ^ 64);
  fp = m.mem ((m.fp + (2 ^ 64 - 16)) % 2 ^ 64);
}

unfoldable pub riscv_set_sp : ℕ → Riscv → Riscv
riscv_set_sp value m = record m { sp = value }

unfoldable pub riscv_get_sp : Riscv → ℕ
riscv_get_sp m = m.sp

-- x86: the registers di, si, bp and sp of either width.
pub record X86 : Type 0 where
  pub di : ℕ
  pub si : ℕ
  pub bp : ℕ
  pub sp : ℕ
  pub mem : ℕ → ℕ

unfoldable pub x86_64_jump : ℕ → X86 → X86
x86_64_jump new_sp m = record m { di = new_sp; si = m.mem ((m.bp + 8) % 2 ^ 64) }

-- `and rdi, -16` clears the last four bits.
unfoldable pub x86_64_switch : X86 → X86
x86_64_switch m =
    let top = ((m.di + 8) % 2 ^ 64 / 16 * 16 + (2 ^ 64 - 8)) % 2 ^ 64 in
    record m { di = top; mem = update m.mem top m.si; sp = top }

unfoldable pub x86_jump : ℕ → X86 → X86
x86_jump new_sp m = record m { di = new_sp; si = m.mem ((m.bp + 4) % 2 ^ 32) }

unfoldable pub x86_switch : X86 → X86
x86_switch m =
    let top = ((m.di + 4) % 2 ^ 32 / 16 * 16 + (2 ^ 32 - 4)) % 2 ^ 32 in
    record m { di = top; mem = update m.mem top m.si; sp = top }

-- The naked functions, with the macro of the architecture.
unfoldable pub coroutine_trampoline : {R : Type 0} → (R → R) → R → Target × R
coroutine_trampoline switch_sp m = (run_coroutine, switch_sp m)

unfoldable pub thread_trampoline : {R : Type 0} → (R → R) → R → Target × R
thread_trampoline switch_sp m = (run_thread, switch_sp m)

unfoldable pub tep2_trampoline : {R : Type 0} → (R → R) → R → Target × R
tep2_trampoline switch_sp m = (thread_entry_phase2, switch_sp m)

-- The `ret` of the next function, with its frame gone: where it goes, and the stack pointer then.
unfoldable pub x86_64_ret : X86 → ℕ × ℕ
x86_64_ret m = (m.mem m.sp, (m.sp + 8) % 2 ^ 64)

unfoldable pub x86_ret : X86 → ℕ × ℕ
x86_ret m = (m.mem m.sp, (m.sp + 4) % 2 ^ 32)
