-- ===== src/Lib.antt =====
-- The scheduler of this repository, vsched: a vDSO library that an operating system and its
-- processes share. Each process has a scheduler, the kernel tasks share one, and a table of the
-- processes says for each CPU which process has the task of the highest priority.
--
-- The parts and their files, with paths from the repository's root:
--   Base         names and lemmas that all files use; `Outcome` is what a call may come to
--   Bits         the bit operations that the ready queue's bitmap needs
--   Config       build.rs, the constants
--   Os           src/interface.rs: TaskState, and the operating system's traits as a parameter
--   ReadyQueue   src/schedule/ready_queue.rs (ReadyQueue, new, push_task, hightest_priority,
--                take_task); its children hold the invariant and the order of tasks, Abstract is
--                the priority queue that any sequence of calls is compared with, and Interleaved
--                has the same calls in the single steps of several CPUs
--   Process      src/schedule/process_info.rs (ProcessInfoTable, register_process,
--                unregister_process, highest_prio_process); Interleaved has the first two in the
--                single accesses of several CPUs, without the address space
--   TrapWaitQueue  src/schedule/trap_wait_queue.rs but for trap_handler (MainLoop/Handler)
--   Stacks       src/stack/handler.rs (StackHandler and its calls); Owners has the calls of several
--                CPUs in any order, Places where a stack stands
--   World        src/current.rs, the shared data, with the instances of the private data
--   Monad, Current  calls on that state; get_current_task and its like
--   Scheduler    src/schedule/scheduler.rs and src/schedule/event_source.rs: priorities, pop_task,
--                push_task, push_trap
--   Sources      src/schedule/scheduler.rs: init, init_sources, register_event_source,
--                unregister_event_source; Setup has the steps that both inits share
--   MainLoop     src/main_loop.rs: the schedule functions; Entry has trap_entry, Run has run_task,
--                krun_utask and run_coroutine, Handler has trap_handler; States, Yield, Traps,
--                Interrupts, Serve and Wake follow a task from the CPU to the queues, Choose,
--                Spaces and Rounds from the queues to the CPU, Handover from a user's scheduler to
--                another process, Asleep from a CPU that sleeps to the handler of its interrupt
--   Api          src/api.rs; Boot is about the kernel, Users about a process
--   Arch         the calls and jumps between the main loop and the assembly that runs it; Loop is
--                the loop that the assembly is meant to be, Blocks what both have in common
--   Arch/Riscv, Arch/X86, Arch/I386   src/arch/riscv.rs and the two halves of src/arch/x86.rs:
--                the routine as a list of instructions with labels, run on the registers
--   Arch/Trampoline   src/stack/trampoline.rs and the routines of src/arch that switch stacks
--   Arch/Interrupts   the interrupt flag of src/arch/riscv.rs: assert_disable_irq and wait_irqs
--   Arch/Legal, Unreached, Same, Status   what the main loop returns to the assembly, the words that
--                are not reached, and the status argument
--   Examples     the theorems at concrete inputs
--
-- How the code corresponds. Each function is a definition with its name. A call takes the state, a
-- `World` over any state `S` of the operating system, and comes to a result and the next state, or
-- to a panic, a null pointer followed, or a wait that has not ended. The CPU at work is the
-- argument `cpu`, for `SMPVirtImpl::cpu_id()`. Tasks, stacks and address spaces are their
-- addresses, 0 for null; schedulers and stack pools are found by address. An `isize` is kept as its
-- value plus 2 ^ 63, so that the order is that of the naturals. Arrays are functions of the index,
-- with the code's panics where an index may be out of range. A vtable's function is the code that
-- it runs and its address.
--
-- Loops. `take_task`, `highest_prio_process` and the folds run over ranges that the code fixes.
-- `register_process` gets one round for each process number, which is proved to be enough. The
-- wait for a handler is followed for `looks` rounds and kschedule for `rounds`; what other CPUs do
-- between two looks is `others`.
-- The assembly and the loop that it is meant to be are followed for the same number of labels; a run
-- that needs more has not ended.
--
-- The assembly. An instruction is a constructor, a routine the list of instructions at each label. A
-- call does what `act` says of a function and its arguments, for the library's own functions
-- `perform`, and keeps what the calling convention says; what it leaves
-- in the other registers is the argument `left`, what a coroutine's `poll` does is `poll`. Words
-- wrap at the register's width. On x86 `and` and `shr` are taken with the operands as written.
--
-- The interrupt flag. wait_irqs and assert_disable_irq are functions of `sstatus`, apart from the main
-- loop, whose functions run with interrupts off: there `asleep` is the end in wait_irqs.
--
-- Not modelled: in src/arch the 32-bit lines of the macros of RISC-V and, on x86, `set_pre_stack!`,
-- which is a `todo!`, so the model's functions are those of RISC-V; the interleaving of two CPUs
-- inside one call, but for the ready queue and the numbers of processes; the translation of the
-- user's addresses: the user's pointers of a scheduler's own two sources are taken to lead to
-- its own queues, and so is the kernel's where a priority is asked for; calls that `handle` and `poll` make back into the library; log messages
-- and inter-processor interrupts; src/lib.rs and the mod.rs files, which only list modules. The
-- operating system's traits and the crates for locks and containers are not in the repository: the
-- first are `Os`, with what src/interface.rs documents of task states as `TaskLaws`, the second are
-- lists with their capacities.
pub mod Base
pub mod Bits
pub mod Config
pub mod Os
pub mod Process
pub mod ReadyQueue
pub mod TrapWaitQueue
pub mod Stacks
pub mod World
pub mod Monad
pub mod Current
pub mod Scheduler
pub mod Sources
pub mod MainLoop
pub mod Api
pub mod Arch
pub mod Examples
