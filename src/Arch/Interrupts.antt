-- ===== src/Arch/Interrupts.antt =====
-- src/arch/riscv.rs: the interrupt flag, bit 1 of `sstatus`, in assert_disable_irq and wait_irqs.
use vsched.Base.{
  ℕ, zero, suc, ◌+◌, ◌*◌, ◌/◌, ◌%◌, ◌≡◌, refl, Bool, true, false, not, arith, Outcome, done, panic,
  assert, ◌>>◌, Returns, ◌==◌, if◌then◌else◌,
}
use vsched.Bits.{test_bit, set_bit, clear_bit, test_bit-set_bit}

-- How `wfi` ends: with an interrupt, which leaves by the trap entry, or with the next instruction.
-- Each with the `sstatus` of that moment.
pub data Wait : Type 0 where
  interrupted : ℕ → Wait
  resumed : ℕ → Wait

unfoldable pub assert_disable_irq : ℕ → Outcome (Unit {0})
assert_disable_irq sstatus = assert (not (test_bit sstatus 1))

-- `csrsi sstatus, 2`, `wfi`, `csrci sstatus, 2`; with whether an interrupt comes.
unfoldable pub wait_irqs : Bool → ℕ → Outcome Wait
wait_irqs comes sstatus =
    let enabled = set_bit sstatus 1 in
    let disabled = clear_bit enabled 1 in
    assert_disable_irq sstatus
    >> (if comes
        then done (interrupted enabled)
        else assert_disable_irq disabled >> done (resumed disabled))

clear_bit-set_bit : (b i : ℕ) → test_bit b i ≡ false → clear_bit (set_bit b i) i ≡ b
unfolding test_bit set_bit clear_bit
clear_bit-set_bit b zero h = ground arith
clear_bit-set_bit b (suc i) h =
    let half : (set_bit (b / 2) i * 2 + b % 2) / 2 ≡ set_bit (b / 2) i = omega arith in
    let rest : (set_bit (b / 2) i * 2 + b % 2) % 2 ≡ b % 2 = omega arith in
    rw (half, rest) (omega (arith, clear_bit-set_bit (b / 2) i h))

-- What `wait_irqs` may come to with interrupts off.
abbrev pub IsWait : Bool → ℕ → Wait → Type 0
IsWait comes sstatus (interrupted s) =
    (comes ≡ true) × ((j : ℕ) → test_bit s j ≡ (if 1 == j then true else test_bit sstatus j))
IsWait comes sstatus (resumed s) = (comes ≡ false) × (s ≡ sstatus)

-- With interrupts off, `wait_irqs` ends with no panic: an interrupt is taken with the flag on and
-- the rest of `sstatus` as it was, and without one `sstatus` is afterwards what it was. With
-- interrupts on it panics.
pub wait_irqs_lem :
    (comes : Bool) (sstatus : ℕ)
    → (test_bit sstatus 1 ≡ false → Returns (IsWait comes sstatus) (wait_irqs comes sstatus))
      × (test_bit sstatus 1 ≡ true → wait_irqs comes sstatus ≡ panic)
unfolding wait_irqs assert_disable_irq
wait_irqs_lem true sstatus = (λ off. rw off (refl, test_bit-set_bit sstatus 1), λ on. rw on)
wait_irqs_lem false sstatus =
    (λ off. rw (off, clear_bit-set_bit sstatus 1 off) (rw off (refl, refl)), λ on. rw on)
