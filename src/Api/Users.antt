-- ===== src/Api/Users.antt =====
-- api.rs: a process from `process_init` to `user_init`.
use vsched.Base.{
  ℕ, ◌+◌, ◌≤◌, ◌<◌, ◌≡◌, ◌≢◌, ◌^◌, refl, ap, ◌∙◌, sym, subst, true, false, none, some, [], arith,
  ◌==◌, update, done, Returns, Returns-map, Option, Outcome,
}
use vsched.Api.{process_init, user_init}
use vsched.Config.{Config, IsUsable}
use vsched.Current.{get_user_data, get_user_addr}
use vsched.Os.{Os}
use vsched.Process.{ProcessInfo, ProcessInfoTable, set_valid, register_process}
use vsched.Process.Register.{Registers, register_process-Registers}
use vsched.ReadyQueue
use vsched.Scheduler.Own.{user_pointers, queues_of, IsOwn, store_all_lem}
use vsched.Sources.Setup.{fresh, init_except_sources_lem, told}
use vsched.Sources.Start.{IsStarted}
use vsched.Sources.User.{IsMapped, init_sources-IsStarted}
use vsched.Stacks.{default_handler}
use vsched.World.{World, Scheduler}

module _ {S : Type 0} (c : Config) (u : IsUsable c) (os : Os S) where
  -- The vDSO is loaded in an address space: the kernel finds its scheduler at `p` and its stack
  -- pool at `stacks`, the user finds its scheduler at `user`, and its functions and statics have addresses there.
  pub record IsLoaded (vspace p stacks user : ℕ) (w : World S) : Type 0 where
    pub scheduler : (s : S) → os.get_user_data s w.user_scheduler w.scheduler_size (some vspace) ≡ p
    pub stack_pool :
        (s : S) → os.get_user_data s w.stack_handler w.stack_handler_size (some vspace) ≡ stacks
    pub address :
        (s : S) → os.get_user_addr s w.user_scheduler w.scheduler_size (some vspace) ≡ user
    pub user_not_null : user ≢ 0
    pub functions : IsMapped c u os vspace w
    pub not_null : p ≢ 0
    pub stacks_not_null : stacks ≢ 0

  -- What `process_init` leaves, with its process number.
  abbrev pub IsRegistered : ℕ → ℕ → ℕ → World S → ℕ × World S → Type 0
  IsRegistered vspace p stacks w (pid, w') =
      (t : ProcessInfoTable) × (pid < c.process_num)
      × ((w.process_info_table.table pid).valid ≡ false)
      × (t.table pid ≡ record (w.process_info_table.table pid) {
        valid = true;
        vspace = vspace;
        scheduler = p;
      })
      × ((j : ℕ) → j ≢ pid → t.table j ≡ w.process_info_table.table j)
      × (w' ≡ record w {
        process_info_table = t;
        schedulers = update w.schedulers p (some (fresh c u os pid));
        stack_handlers = update w.stack_handlers stacks (some default_handler);
      })

  registers :
      (free : ℕ) (t : ProcessInfoTable)
      → t.next_i + c.process_num < 2 ^ 64
      → free < c.process_num
      → (t.table free).valid ≡ false
      → (pid : ℕ) × (t' : ProcessInfoTable) × (register_process c t ≡ done (some pid, t'))
        × (pid < c.process_num)
        × ((t.table pid).valid ≡ false)
        × (t'.table ≡ (set_valid pid true t).table)
  registers free t room small unused =
      named (register_process c t) refl (register_process-Registers c t u.some_process room)
    where
      named :
          (m : Outcome (Option ℕ × ProcessInfoTable))
          → m ≡ register_process c t
          → Returns (Registers c t u.some_process room) m
          → (pid : ℕ) × (t' : ProcessInfoTable) × (register_process c t ≡ done (some pid, t'))
            × (pid < c.process_num)
            × ((t.table pid).valid ≡ false)
            × (t'.table ≡ (set_valid pid true t).table)
      named (done (some pid, t')) e (below, was_free, same) =
          (pid, t', sym e, below, was_free, same)
      named (done (none, t')) e (taken, same) = absurd (ground (arith, taken free))
      named Outcome.panic e r = absurd r
      named Outcome.null_deref e r = absurd r
      named Outcome.spinning e r = absurd r

  process_init-IsRegistered :
      (vspace p stacks user cpu free : ℕ) (w : World S)
      → IsLoaded vspace p stacks user w
      → w.schedulers p ≡ none
      → w.stack_handlers stacks ≡ none
      → w.process_info_table.next_i + c.process_num < 2 ^ 64
      → free < c.process_num
      → (w.process_info_table.table free).valid ≡ false
      → Returns (IsRegistered vspace p stacks w) (process_init c os vspace cpu w)
  unfolding process_init get_user_data set_valid
  process_init-IsRegistered vspace p stacks user cpu free w l no_scheduler no_stacks room small
        unused =
      let (pid, t, registered, below, was_free, marked) =
        registers free w.process_info_table room small unused in
      let t1 = record t { table = update t.table pid (record (t.table pid) { vspace = vspace }) } in
      let t2 = record t { table = update t1.table pid (record (t1.table pid) { scheduler = p }) } in
      let w2 = record w { process_info_table = t1 } in
      let e3 = init_except_sources_lem c u os p pid w2 no_scheduler in
      let w' = record w {
        process_info_table = t2;
        schedulers = update w.schedulers p (some (fresh c u os pid));
        stack_handlers = update w.stack_handlers stacks (some default_handler);
      } in
      let found_p = l.scheduler w.os_state in
      let found_stacks = l.stack_pool w.os_state in
      let b : (p == 0) ≡ false = ground (arith, l.not_null) in
      let bs : (stacks == 0) ≡ false = ground (arith, l.stacks_not_null) in
      let at_pid : t.table pid ≡ record (w.process_info_table.table pid) { valid = true } =
        ap (λ f. f pid) marked ∙ ground arith in
      rw (registered, found_p, b, e3, found_stacks, bs, no_stacks)
        (
          t2,
          below,
          was_free,
          ground arith
              ∙ ap (λ (i : ProcessInfo). record i { vspace = vspace; scheduler = p }) at_pid,
          λ j other. ground (arith, ap (λ f. f j) marked),
          refl,
        )

  user_init-IsStarted :
      (vspace p stacks user cpu pid : ℕ) (w w1 : World S)
      → IsLoaded vspace p stacks user w
      → cpu < c.cpu_num
      → c.cpu_num ≤ c.trap_wait_queue_size
      → 2 ≤ c.event_source_num
      → IsRegistered vspace p stacks w (pid, w1)
      → Returns (λ (_, w2). IsStarted c u os p user pid w1 w2) (user_init c os vspace cpu w1)
  unfolding user_init get_user_data get_user_addr
  user_init-IsStarted vspace p stacks user cpu pid w w1 l h handlers slots
        (t, below, was_free, at_pid, others, same) =
      let x = fresh c u os pid in
      let v = record w {
        process_info_table = t;
        schedulers = update w.schedulers p (some x);
        stack_handlers = update w.stack_handlers stacks (some default_handler);
      } in
      let b : (p == 0) ≡ false = ground (arith, l.not_null) in
      let found : (user == 0) ≡ false = ground (arith, l.user_not_null) in
      subst
        (λ v. Returns (λ (_, w2). IsStarted c u os p user pid v w2) (user_init c os vspace cpu v))
        (sym same)
        (rw (l.scheduler w.os_state, b, l.address w.os_state, found)
          (init_sources-IsStarted c u os p user vspace cpu x v l.not_null (ground arith) refl refl
            refl l.functions h below handlers slots))

  -- What `user_init` leaves, compared with the state before `process_init`.
  abbrev pub IsUserStarted : ℕ → ℕ → ℕ → ℕ → World S → World S → Type 0
  IsUserStarted p stacks user pid w w2 =
      (x : Scheduler) × IsOwn c p x w2
      × (user_pointers x.sources ≡ queues_of c user)
      × (x.global_index ≡ pid)
      × (x.ready_queue ≡ ReadyQueue.new c)
      × (x.trap_wait_queue.queues ≡ λ _. [])
      × (w2.stack_handlers stacks ≡ some default_handler)
      × ((j : ℕ)
          → j < c.cpu_num
          → (w2.process_info_table.table pid).highest_prio j ≡ c.lowest_priority + 1)
      × ((j : ℕ) → j ≢ pid → w2.process_info_table.table j ≡ w.process_info_table.table j)
      × ((q : ℕ) → q ≢ p → w2.schedulers q ≡ w.schedulers q)

  started-IsUserStarted :
      (vspace p stacks user pid : ℕ) (w w1 w2 : World S)
      → IsRegistered vspace p stacks w (pid, w1)
      → IsStarted c u os p user pid w1 w2
      → IsUserStarted p stacks user pid w w2
  started-IsUserStarted vspace p stacks user pid w w1 w2 (t, _, _, at_pid, others, same)
        (x, s, own, points, at, new, quiet, len, recorded, kept, others') =
      let prio = c.lowest_priority + 1 in
      let now : (j : ℕ)
          → w2.process_info_table.table j ≡ (told c u os pid prio w1).process_info_table.table j =
        λ j. ap (λ t. t.table j) recorded in
      let before : (j : ℕ) → w1.process_info_table.table j ≡ t.table j =
        λ j. ap (λ v. v.process_info_table.table j) same in
      (
        x,
        own,
        points,
        at,
        new,
        quiet,
        ap (λ v. v.stack_handlers stacks) kept
            ∙ (ap (λ v. v.stack_handlers stacks) same ∙ ground arith),
        λ j on_cpu.
            ap (λ i. i.highest_prio j) (now pid)
            ∙ ground (
              arith,
              store_all_lem c u os c.cpu_num prio j (w1.process_info_table.table pid).highest_prio,
            ),
        λ j other. now j ∙ ground (arith, before j, others j other),
        λ q other. others' q other ∙ (ap (λ v. v.schedulers q) same ∙ ground arith),
      )

  -- While the vDSO is loaded in a process's address space, which has no scheduler and no stack
  -- pool yet, some process number is free, and the counter stays under 2 ^ 64, `process_init` ends.
  -- It gives a number that was free, makes it valid with the address space, an empty scheduler and
  -- a stack pool with no stack, and leaves the number's priorities what its former owner left.
  -- `user_init` then ends as well, and leaves the process's scheduler with its own two sources. The
  -- data of each is the field of that queue, for the kernel in the scheduler where the kernel finds
  -- it, for the user in the scheduler at the address in the process's address space. Both are empty, and LOWEST_PRIORITY + 1 recorded on all CPUs. The other processes and their
  -- schedulers stay as they were.
  pub process_init-user_init :
      (vspace p stacks user cpu free : ℕ) (w : World S)
      → IsLoaded vspace p stacks user w
      → w.schedulers p ≡ none
      → w.stack_handlers stacks ≡ none
      → w.process_info_table.next_i + c.process_num < 2 ^ 64
      → free < c.process_num
      → (w.process_info_table.table free).valid ≡ false
      → cpu < c.cpu_num
      → c.cpu_num ≤ c.trap_wait_queue_size
      → 2 ≤ c.event_source_num
      → Returns
          (λ (pid, w1).
            IsRegistered vspace p stacks w (pid, w1)
            × Returns
                (λ (_, w2). IsUserStarted p stacks user pid w w2)
                (user_init c os vspace cpu w1))
          (process_init c os vspace cpu w)
  process_init-user_init vspace p stacks user cpu free w l no_scheduler no_stacks room small unused
        h handlers slots =
      Returns-map _ _ (process_init c os vspace cpu w)
        (process_init-IsRegistered vspace p stacks user cpu free w l no_scheduler no_stacks room
          small unused)
        (λ (pid, w1) r. (
          r,
          Returns-map _ _ (user_init c os vspace cpu w1)
              (user_init-IsStarted vspace p stacks user cpu pid w w1 l h handlers slots r)
              (λ (_, w2) started. started-IsUserStarted vspace p stacks user pid w w1 w2 r started),
        ))
