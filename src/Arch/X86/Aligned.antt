-- ===== src/Arch/X86/Aligned.antt =====
-- arch/x86.rs: rsp is a multiple of 16 at every call of the x86_64 loop.
use vsched.Base.{ℕ, ◌≡◌, ◌/◌, ◌%◌, List, [], ◌∷◌}
use vsched.Arch.{Call, is_numbered}
use vsched.Arch.X86.{
  Regs, Instr, set, rsp, zf, mov, mov_imm, cmp, and_one, shr_one, add_imm, sub_imm, je, jmp, call,
  long, flag, add64, sub64, saves, after_call,
}

-- The code keeps to the convention from these registers on: at each call rsp is a multiple of 16,
-- and at each jump it is 8 more than one, as it is at the labels.
abbrev pub CallsAligned : (Call → Regs) → List Instr → Regs → Type 0
CallsAligned left [] r = Unit {0}
CallsAligned left (mov d s ∷ is) r = CallsAligned left is (set d (r s) r)
CallsAligned left (mov_imm d v ∷ is) r = CallsAligned left is (set d v r)
CallsAligned left (cmp x v ∷ is) r = CallsAligned left is (set zf (flag (r x) v) r)
CallsAligned left (and_one d s ∷ is) r =
    CallsAligned left is (set zf (flag (r s % 2) 0) (set d (r s % 2) r))
CallsAligned left (shr_one d s ∷ is) r =
    CallsAligned left is (set zf (flag (r s / 2) 0) (set d (r s / 2) r))
CallsAligned left (add_imm d v ∷ is) r =
    CallsAligned left is (set zf (flag (add64 (r d) v) 0) (set d (add64 (r d) v) r))
CallsAligned left (sub_imm d v ∷ is) r =
    CallsAligned left is (set zf (flag (sub64 (r d) v) 0) (set d (sub64 (r d) v) r))
CallsAligned left (je l ∷ is) r = (r rsp % 16 ≡ 8) × CallsAligned left is r
CallsAligned left (jmp l ∷ is) r = r rsp % 16 ≡ 8
CallsAligned left (call f ∷ is) r =
    (r rsp % 16 ≡ 0)
    × ((v : ℕ) → CallsAligned left is (after_call (saves f) (is_numbered f) v (left f) r))
CallsAligned left (long ∷ is) r = Unit {0}
