-- ===== src/Arch/I386/Refines.antt =====
-- arch/x86.rs: the x86 assembly, with 32 bits, runs the loop that its comments describe.
use vsched.Base.{ℕ, ◌≡◌, arith, done}
use vsched.Base.Outcomes.{◌>>=◌ as bind}
use vsched.Monad.{fail}
use vsched.World.{World}
use vsched.Arch.{
  Act, first_argument, second_argument, Call, Label, is_numbered, raw_trap_entry, raw_thread_entry,
  raw_kschedule, raw_uschedule, raw_utok_schedule, raw_run_task, raw_krun_utask,
}
use vsched.Arch.Loop.{
  Point, trapped, yielded, in_kernel, in_user, coming_in, running, going_out, do_call, to_schedule,
  to_task, after_trap, loop_step, loop,
}
use vsched.Arch.Blocks.{image, run_blocks-loop}
use vsched.Arch.I386.{Machine, eax, ebx, edi, esi, program, saves, after_call, exec, run}

-- The place in the loop that a label stands for.
unfoldable pub point_of : Label → Machine → Point
point_of raw_trap_entry r = trapped (r.regs eax) (r.regs ebx) 0
point_of raw_thread_entry r = yielded
point_of raw_kschedule r = in_kernel (r.regs edi) (r.regs esi)
point_of raw_uschedule r = in_user (r.regs edi) (r.regs esi)
point_of raw_utok_schedule r = coming_in (r.regs edi) (r.regs esi)
point_of raw_run_task r = running (r.regs edi) (r.regs esi)
point_of raw_krun_utask r = going_out (r.regs esi)

module _ {S : Type 0} (act : Act S) (left : Call → World S → Machine) where
  block :
      (l : Label) (r : Machine) (w : World S)
      → bind (exec act left (program l) r w) (λ (j, w'). done (image point_of j, w'))
        ≡ loop_step act fail (point_of l r) w
  unfolding exec program loop_step do_call to_schedule to_task after_trap point_of saves after_call
      is_numbered first_argument second_argument
  block raw_kschedule r w = ground arith
  block raw_trap_entry r w = ground arith
  block raw_thread_entry r w = ground arith
  block raw_uschedule r w = ground arith
  block raw_utok_schedule r w = ground arith
  block raw_run_task r w = ground arith
  block raw_krun_utask r w = ground arith

  -- From every label and with any registers, the x86 assembly (with 32 bits, and eax where the
  -- source names rax in `raw_thread_entry`) does what the loop in the comments does from the place
  -- of that label, and comes to the same end with the same state, whatever the functions that it
  -- calls do with their arguments (`act`), and whatever they leave in the registers that they need
  -- not keep. A function is given as many arguments as it has parameters.
  pub i386_run-loop :
      (n : ℕ) (l : Label) (r : Machine) (w : World S)
      → run act left n l r w ≡ loop act fail n (point_of l r) w
  unfolding run
  i386_run-loop = run_blocks-loop (λ l r. exec act left (program l) r) act point_of block
