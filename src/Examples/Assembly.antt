-- ===== src/Examples/Assembly.antt =====
-- The scheduling loop in assembly at concrete inputs: an interrupt on CPU 0.
use vsched.Base.{ℕ, ◌≡◌, ◌≢◌, refl, Option, none, ◌+◌, ◌%◌, ◌≤◌, ◌<◌, arith}
use vsched.Arch.{raw_trap_entry, raw_kschedule, perform}
use vsched.Arch.I386 as I386
use vsched.Arch.I386.Refines as I386Refines
use vsched.Arch.Loop.{loop, trapped, idles}
use vsched.Arch.Unreached.{loop-unreached}
use vsched.Arch.Riscv as Riscv
use vsched.Arch.Riscv.Refines as RiscvRefines
use vsched.Arch.Same.{riscv_run-x86_run}
use vsched.Arch.Trampoline.{X86, x86_64_jump, x86_64_switch, x86_64_ret}
use vsched.Arch.Trampoline.Returns.{x86_64_switch_returns}
use vsched.Arch.X86 as X86_64
use vsched.Arch.X86.Aligned as X86Aligned
use vsched.Arch.X86.Refines as X86Refines
use vsched.Examples.Machine.{dual, world}
use vsched.Examples.Setup.{Tasks, os}
use vsched.Monad.{fail, M, pure}

-- Every coroutine is pending.
abbrev poll : ℕ → M Tasks (Option ℕ)
poll task = pure none

-- An interrupt is trap type 1; the privilege level is 0. The other registers hold 9.
abbrev riscv_regs : Riscv.Regs
riscv_regs Riscv.a0 = 1
riscv_regs Riscv.a1 = 0
riscv_regs r = 9

abbrev x86_regs : X86_64.Regs
x86_regs X86_64.rax = 1
x86_regs X86_64.rbx = 0
x86_regs X86_64.rsp = 4096 + 8
x86_regs r = 9

abbrev i386_machine : I386.Machine
i386_machine = record { regs = λ r. 4096 + 12; mem = λ a. 9 }

riscv_run-loop_example :
    Riscv.run (perform dual os 3 64 256 0 poll) (λ f w r. 77) 5 raw_trap_entry riscv_regs world
    ≡ loop
        (perform dual os 3 64 256 0 poll)
        fail
        5
        (RiscvRefines.point_of raw_trap_entry riscv_regs)
        world
riscv_run-loop_example =
    RiscvRefines.riscv_run-loop (perform dual os 3 64 256 0 poll) (λ f w r. 77) 5 raw_trap_entry
      riscv_regs world

x86_run-loop_example :
    X86_64.run (perform dual os 3 64 256 0 poll) (λ f w r. 77) 5 raw_trap_entry x86_regs world
    ≡ loop
        (perform dual os 3 64 256 0 poll)
        fail
        5
        (X86Refines.point_of raw_trap_entry x86_regs)
        world
x86_run-loop_example =
    X86Refines.x86_run-loop (perform dual os 3 64 256 0 poll) (λ f w r. 77) 5 raw_trap_entry
      x86_regs world

i386_run-loop_example :
    I386.run
      (perform dual os 3 64 256 0 poll)
      (λ f w. i386_machine)
      5
      raw_kschedule
      i386_machine
      world
    ≡ loop
        (perform dual os 3 64 256 0 poll)
        fail
        5
        (I386Refines.point_of raw_kschedule i386_machine)
        world
i386_run-loop_example =
    I386Refines.i386_run-loop (perform dual os 3 64 256 0 poll) (λ f w. i386_machine) 5
      raw_kschedule i386_machine world

riscv_run-x86_run_example :
    Riscv.run (perform dual os 3 64 256 0 poll) (λ f w r. 77) 5 raw_trap_entry riscv_regs world
    ≡ X86_64.run (perform dual os 3 64 256 0 poll) (λ f w r. 78) 5 raw_trap_entry x86_regs world
riscv_run-x86_run_example =
    riscv_run-x86_run dual os 3 64 256 0 poll (λ f w r. 77) (λ f w r. 78) 5 raw_trap_entry
      riscv_regs x86_regs world (refl, refl)

loop-unreached_example :
    loop (perform dual os 3 64 256 0 poll) fail 5 (trapped 1 0 0) world
    ≡ loop (perform dual os 3 64 256 0 poll) (pure idles) 5 (trapped 1 0 0) world
loop-unreached_example =
    loop-unreached dual os 3 64 256 0 poll fail (pure idles) 5 (trapped 1 0 0) world

abbrev frame : X86
frame = record { di = 0; si = 0; bp = 4000; sp = 3900; mem = λ a. a + 1 }

x86_64_switch_returns_example :
    let m' = x86_64_switch (x86_64_jump 8192 frame) in
    (m'.sp % 16 ≡ 8)
    × (m'.sp ≤ 8192)
    × (8192 < m'.sp + 16)
    × ((x86_64_ret m').0 ≡ 4009)
    × ((x86_64_ret m').1 % 16 ≡ 0)
    × (8192 % 16 ≡ 0 → (x86_64_ret m').1 ≡ 8192)
    × ((a : ℕ) → a ≢ m'.sp → m'.mem a ≡ a + 1)
x86_64_switch_returns_example = x86_64_switch_returns 8192 frame (omega arith) (omega arith)
