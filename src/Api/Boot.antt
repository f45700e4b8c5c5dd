-- ===== src/Api/Boot.antt =====
-- api.rs: a CPU after `kernel_init_main` and `kernel_init_secondary`.
use vsched.Base.{
  ℕ, ◌≤◌, ◌<◌, ◌≡◌, ◌≢◌, refl, ap, ◌∙◌, sym, subst, true, none, some, [], arith, update, done,
  Returns, Returns-done, Returns-map, List-cases, inl, inr, ◌∷◌,
}
use vsched.Api.{kernel_init_main, kernel_init_secondary, init_cpu_task, init_cpu_flags}
use vsched.Config.{Config, IsUsable}
use vsched.Os.{Os}
use vsched.ReadyQueue
use vsched.Scheduler.Own.{user_pointers, queues_of, IsOwn, move-IsOwn}
use vsched.Sources.{init}
use vsched.Sources.Start.{init-IsStarted}
use vsched.Stacks.{StackHandler, alloc_stack, alloc_trap_stack, set_trap_stack, swap_remove}
use vsched.World.{World, Scheduler}

module _ {S : Type 0} (c : Config) (u : IsUsable c) (os : Os S) where
  -- A CPU that runs its first task in the kernel, on its first stack, with a wait context and a
  -- stack for the next trap, whose base is in the register.
  abbrev pub IsBooted : ℕ → ℕ → ℕ → World S → Type 0
  IsBooted init_stack init_task cpu w =
      (w.current_task cpu ≡ init_task)
      × (w.in_kernel cpu ≡ true)
      × (w.current_vspace cpu ≡ 0)
      × (w.kernel_stacks.current_stack cpu ≡ some init_stack)
      × (trap_stack : ℕ) × (w.kernel_stacks.trap_stack cpu ≡ some trap_stack)
      × (w.pre_stack cpu ≡ os.base w.os_state trap_stack)

  alloc_trap_stack_lem :
      (cpu : ℕ) (h : StackHandler) (s : S)
      → h.trap_stack cpu ≡ none
      → (stack : ℕ) × (h' : StackHandler) × (s' : S) × (alloc_trap_stack c os cpu h s
          ≡ done (os.base s' stack, h', s'))
        × (h'.trap_stack ≡ update h.trap_stack cpu (some stack))
        × (h'.current_stack ≡ h.current_stack)
  unfolding alloc_trap_stack alloc_stack set_trap_stack
  alloc_trap_stack_lem cpu h s none_yet = elim (List-cases (h.free_stacks cpu)) [
    | inl e ↦ (
      (os.alloc_stack s).0,
      record h { trap_stack = update h.trap_stack cpu (some (os.alloc_stack s).0) },
      (os.alloc_stack s).1,
      ground (arith, e, none_yet),
      refl,
      refl,
    )
    | inr (addr, rest, e) ↦ (
      addr,
      record h {
        free_stacks = update h.free_stacks cpu (swap_remove addr (addr ∷ rest));
        trap_stack = update h.trap_stack cpu (some addr);
      },
      s,
      ground (arith, e, none_yet),
      refl,
      refl,
    )
  ]

  init_cpu_flags-IsBooted :
      (init_stack cpu : ℕ) (w : World S)
      → w.kernel_stacks.trap_stack cpu ≡ none
      → Returns
          (λ (_, w').
            IsBooted init_stack (w.current_task cpu) cpu w'
            × (w'.current_task ≡ w.current_task)
            × (w'.schedulers ≡ w.schedulers)
            × (w'.process_info_table ≡ w.process_info_table)
            × (w'.kernel_scheduler ≡ w.kernel_scheduler)
            × (w'.scheduler_wait_context ≡ w.scheduler_wait_context))
          (init_cpu_flags c os init_stack cpu w)
  unfolding init_cpu_flags
  init_cpu_flags-IsBooted init_stack cpu w none_yet =
      let h = w.kernel_stacks in
      let h' = record h { current_stack = update h.current_stack cpu (some init_stack) } in
      let (stack, h2, s, worked, traps, currents) =
        alloc_trap_stack_lem cpu h' w.os_state none_yet in
      rw worked (
        (
          refl,
          ground arith,
          ground arith,
          ap (λ f. f cpu) currents ∙ ground arith,
          stack,
          ap (λ f. f cpu) traps ∙ ground arith,
          ground arith,
        ),
        refl,
        refl,
        refl,
        refl,
        refl,
      )

  -- On a CPU with no trap stack yet, and where no kernel scheduler is there yet, with the room that
  -- `Scheduler::init` needs, `kernel_init_main` ends. The CPU runs its first task in the kernel, on
  -- the stack it was given, with a stack for the next trap, and the kernel's scheduler, which all
  -- CPUs reach by its shared address, has its own two sources and no task. The data of each source,
  -- in both privilege levels, is the field of that queue in this scheduler.
  pub kernel_init_main-IsBooted :
      (init_stack init_task cpu : ℕ) (w : World S)
      → w.user_scheduler ≢ 0
      → w.schedulers w.user_scheduler ≡ none
      → w.kernel_stacks.trap_stack cpu ≡ none
      → cpu < c.cpu_num
      → c.cpu_num ≤ c.trap_wait_queue_size
      → 2 ≤ c.event_source_num
      → Returns
          (λ (_, w').
            IsBooted init_stack init_task cpu w'
            × (w'.kernel_scheduler ≡ w.user_scheduler)
            × (x : Scheduler) × IsOwn c w'.kernel_scheduler x w'
            × (user_pointers x.sources ≡ queues_of c w.user_scheduler)
            × (x.global_index ≡ 0)
            × (x.ready_queue ≡ ReadyQueue.new c)
            × (x.trap_wait_queue.queues ≡ λ _. [])
            × ((j : ℕ) → j ≢ w.user_scheduler → w'.schedulers j ≡ w.schedulers j))
          (kernel_init_main c os init_stack init_task cpu w)
  unfolding kernel_init_main init_cpu_task
  kernel_init_main-IsBooted init_stack init_task cpu w ne free none_yet h room slots =
      let (context, s) = os.new_handler 0 w.os_state in
      let p = w.user_scheduler in
      let w1 = record w {
        current_task = update w.current_task cpu init_task;
        os_state = s;
        scheduler_wait_context = update w.scheduler_wait_context cpu context;
      } in
      let ((_, w2), e2, (x, s2, own, points, at, new, quiet, len, recorded, kept, others)) =
        Returns-done _ (init c os p 0 cpu w1)
          (init-IsStarted c u os p 0 cpu w1 ne free h u.some_process room slots) in
      let w3 = record w2 { kernel_scheduler = w2.user_scheduler } in
      rw e2 (
        Returns-map _ _ (init_cpu_flags c os init_stack cpu w3)
          (init_cpu_flags-IsBooted init_stack cpu w3
            (ap (λ v. v.kernel_stacks.trap_stack cpu) kept ∙ none_yet))
          (λ (_, w') (booted, tasks, same, table, kernel, waits).
            let shared : w'.kernel_scheduler ≡ p = kernel ∙ ap (λ v. v.user_scheduler) kept in
            (
              subst (λ t. IsBooted init_stack t cpu w')
                  (ap (λ v. v.current_task cpu) kept ∙ ground arith) booted,
              shared,
              x,
              subst (λ q. IsOwn c q x w') (sym shared)
                  (move-IsOwn c u os p x w2 w' (ap (λ f. f p) same ∙ own.there) own),
              points,
              at,
              new,
              quiet,
              λ j other. ap (λ f. f j) same ∙ others j other,
            )))

  -- On a CPU with no trap stack yet, `kernel_init_secondary` ends. The CPU runs its first task in
  -- the kernel, on the stack it was given, with a stack for the next trap; the schedulers and the
  -- process table stay as they were.
  pub kernel_init_secondary-IsBooted :
      (init_stack init_task cpu : ℕ) (w : World S)
      → w.kernel_stacks.trap_stack cpu ≡ none
      → Returns
          (λ (_, w').
            IsBooted init_stack init_task cpu w'
            × (w'.schedulers ≡ w.schedulers)
            × (w'.process_info_table ≡ w.process_info_table)
            × (w'.kernel_scheduler ≡ w.kernel_scheduler))
          (kernel_init_secondary c os init_stack init_task cpu w)
  unfolding kernel_init_secondary init_cpu_task
  kernel_init_secondary-IsBooted init_stack init_task cpu w none_yet =
      let (context, s) = os.new_handler 0 w.os_state in
      let w1 = record w {
        current_task = update w.current_task cpu init_task;
        os_state = s;
        scheduler_wait_context = update w.scheduler_wait_context cpu context;
      } in
      Returns-map _ _ (init_cpu_flags c os init_stack cpu w1)
        (init_cpu_flags-IsBooted init_stack cpu w1 none_yet)
        (λ (_, w') (booted, tasks, same, table, kernel, waits).
          (subst (λ t. IsBooted init_stack t cpu w') (ground arith) booted, same, table, kernel))
