-- ===== src/Arch/Trampoline/Returns.antt =====
-- src/arch: the function after a trampoline returns to the caller of the function before it.
use vsched.Base.{ℕ, ◌-◌, refl, update, ◌+◌, ◌%◌, ◌^◌, ◌≤◌, ◌<◌, ◌≡◌, ◌≢◌, arith}
use vsched.Arch.Trampoline.{
  Riscv, riscv_jump, riscv_switch, riscv_reset_stack, X86, x86_64_jump, x86_64_switch, x86_64_ret,
  x86_jump, x86_switch, x86_ret,
}

-- On x86_64, from a function with its frame at rbp to the next on the stack that ends at `new_sp`, by
-- the trampoline: the next function starts with its stack pointer 8 above a multiple of 16, as after
-- a `call`, and within the 16 bytes up to `new_sp`. Its `ret` goes to the return address of the first
-- and leaves a stack pointer that is a multiple of 16, which is `new_sp` if that is one. No word of
-- the memory but the one for the return address changes.
pub x86_64_switch_returns :
    (new_sp : ℕ) (m : X86)
    → 16 ≤ new_sp
    → new_sp + 8 < 2 ^ 64
    → let m' = x86_64_switch (x86_64_jump new_sp m) in
      (m'.sp % 16 ≡ 8)
      × (m'.sp ≤ new_sp)
      × (new_sp < m'.sp + 16)
      × ((x86_64_ret m').0 ≡ m.mem ((m.bp + 8) % 2 ^ 64))
      × ((x86_64_ret m').1 % 16 ≡ 0)
      × (new_sp % 16 ≡ 0 → (x86_64_ret m').1 ≡ new_sp)
      × ((a : ℕ) → a ≢ m'.sp → m'.mem a ≡ m.mem a)
unfolding x86_64_switch x86_64_jump x86_64_ret
x86_64_switch_returns new_sp m h k = (
  omega arith,
  omega arith,
  omega arith,
  ground arith,
  omega arith,
  λ e. omega arith,
  λ a ne. ground arith,
)

-- The same with 32 bits: the stack pointer is 12 above a multiple of 16.
pub x86_switch_returns :
    (new_sp : ℕ) (m : X86)
    → 16 ≤ new_sp
    → new_sp + 4 < 2 ^ 32
    → let m' = x86_switch (x86_jump new_sp m) in
      (m'.sp % 16 ≡ 12)
      × (m'.sp ≤ new_sp)
      × (new_sp < m'.sp + 16)
      × ((x86_ret m').0 ≡ m.mem ((m.bp + 4) % 2 ^ 32))
      × ((x86_ret m').1 % 16 ≡ 0)
      × (new_sp % 16 ≡ 0 → (x86_ret m').1 ≡ new_sp)
      × ((a : ℕ) → a ≢ m'.sp → m'.mem a ≡ m.mem a)
unfolding x86_switch x86_jump x86_ret
x86_switch_returns new_sp m h k = (
  omega arith,
  omega arith,
  omega arith,
  ground arith,
  omega arith,
  λ e. omega arith,
  λ a ne. ground arith,
)

-- What a compiled function begins with on RISC-V: a frame of `size` bytes, with the return address
-- and the caller's frame pointer at its top.
abbrev prologue : ℕ → Riscv → Riscv
prologue size m = record m {
  sp = m.sp - size;
  mem = update (update m.mem (m.sp - 8) m.ra) (m.sp - 16) m.fp;
  fp = m.sp;
}

-- `reset_stack_and_jump!` gives the next function the stack pointer, the return address and the
-- frame pointer that the function had when it was called.
pub reset_stack-prologue :
    (size : ℕ) (m : Riscv)
    → 16 ≤ size
    → size ≤ m.sp
    → m.sp < 2 ^ 64
    → let m' = riscv_reset_stack (prologue size m) in
      (m'.sp ≡ m.sp) × (m'.ra ≡ m.ra) × (m'.fp ≡ m.fp)
unfolding riscv_reset_stack
reset_stack-prologue size m h k small =
    let at_ra : (m.sp + (2 ^ 64 - 8)) % 2 ^ 64 ≡ m.sp - 8 = omega arith in
    let at_fp : (m.sp + (2 ^ 64 - 16)) % 2 ^ 64 ≡ m.sp - 16 = omega arith in
    (refl, rw at_ra (ground arith), rw at_fp (ground arith))

-- On RISC-V the next function starts on the new stack and returns to the caller of the first.
pub riscv_switch_returns :
    (size new_sp : ℕ) (m : Riscv)
    → 16 ≤ size
    → size ≤ m.sp
    → m.sp < 2 ^ 64
    → let m' = riscv_switch (riscv_jump new_sp (prologue size m)) in
      (m'.sp ≡ new_sp) × (m'.ra ≡ m.ra)
unfolding riscv_switch riscv_jump
riscv_switch_returns size new_sp m h k small =
    let at_ra : (m.sp + (2 ^ 64 - 8)) % 2 ^ 64 ≡ m.sp - 8 = omega arith in
    (refl, rw at_ra (ground arith))
