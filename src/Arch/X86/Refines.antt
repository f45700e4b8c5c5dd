-- ===== src/Arch/X86/Refines.antt =====
-- arch/x86.rs: the x86_64 assembly runs the loop that its comments describe.
use vsched.Base.{ℕ, ◌≡◌, arith, done}
use vsched.Base.Outcomes.{◌>>=◌ as bind}
use vsched.Monad.{fail}
use vsched.World.{World}
use vsched.Arch.{
  Act, first_argument, second_argument, Call, Label, is_numbered, raw_trap_entry, raw_thread_entry,
  raw_kschedule, raw_uschedule, raw_utok_schedule, raw_run_task, raw_krun_utask,
}
use vsched.Arch.Loop.{
  Point, trapped, yielded, in_kernel, in_user, coming_in, running, going_out, do_call, to_schedule,
  to_task, after_trap, loop_step, loop,
}
use vsched.Arch.Blocks.{image, run_blocks-loop}
use vsched.Arch.X86.{Regs, rax, rbx, r12, r13, program, saves, after_call, exec, run}

-- The place in the loop that a label stands for.
unfoldable pub point_of : Label → Regs → Point
point_of raw_trap_entry r = trapped (r rax) (r rbx) 0
point_of raw_thread_entry r = yielded
point_of raw_kschedule r = in_kernel (r r12) (r r13)
point_of raw_uschedule r = in_user (r r12) (r r13)
point_of raw_utok_schedule r = coming_in (r r12) (r r13)
point_of raw_run_task r = running (r r12) (r r13)
point_of raw_krun_utask r = going_out (r r13)

module _ {S : Type 0} (act : Act S) (left : Call → World S → Regs) where
  block :
      (l : Label) (r : Regs) (w : World S)
      → bind (exec act left (program l) r w) (λ (j, w'). done (image point_of j, w'))
        ≡ loop_step act fail (point_of l r) w
  unfolding exec program loop_step do_call to_schedule to_task after_trap point_of saves after_call
      is_numbered first_argument second_argument
  block raw_kschedule r w = ground arith
  block raw_trap_entry r w = ground arith
  block raw_thread_entry r w = ground arith
  block raw_uschedule r w = ground arith
  block raw_utok_schedule r w = ground arith
  block raw_run_task r w = ground arith
  block raw_krun_utask r w = ground arith

  -- From every label and with any registers, the x86_64 assembly does what the loop in the comments
  -- does from the place of that label, and comes to the same end with the same state, whatever the
  -- functions that it calls do with their arguments (`act`), and whatever they leave in the
  -- registers that they need not keep. A function is given as many arguments as it has parameters.
  pub x86_run-loop :
      (n : ℕ) (l : Label) (r : Regs) (w : World S)
      → run act left n l r w ≡ loop act fail n (point_of l r) w
  unfolding run
  x86_run-loop = run_blocks-loop (λ l r. exec act left (program l) r) act point_of block
