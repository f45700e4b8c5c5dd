-- ===== src/Examples/Start.antt =====
-- The initialisation calls at concrete inputs, on two CPUs.
use vsched.Base.{ℕ, ◌+◌, ◌≡◌, ◌≢◌, refl, true, none, some, [], arith, Returns}
use vsched.Api.{process_init, user_init, kernel_init_main}
use vsched.Api.Users.{IsLoaded, IsRegistered, IsUserStarted, process_init-user_init}
use vsched.Api.Boot.{IsBooted, kernel_init_main-IsBooted}
use vsched.Examples.Machine.{dual, dual-IsUsable, own, world}
use vsched.Examples.Setup.{Tasks, os}
use vsched.Os.{external_code}
use vsched.ReadyQueue
use vsched.Scheduler.{data_of, is_in_kernel}
use vsched.Scheduler.Own.{user_pointers, queues_of, IsOwn}
use vsched.Sources.{
  init, pos, insert_at, insert_index, position, register_event_source, unregister_event_source,
}
use vsched.Sources.Start.{IsStarted, init-IsStarted}
use vsched.Sources.RoundTrip.{register-unregister}
use vsched.World.{Scheduler, World, EventSourceEntry}

-- No scheduler yet; the functions have addresses that are not null.
abbrev unstarted : World Tasks
unstarted = record world { schedulers = λ _. none; code_address = λ _ i. 1000 + i }

init-IsStarted_example :
    Returns
      (λ (_, w'). IsStarted dual dual-IsUsable os 64 64 0 unstarted w')
      (init dual os 64 0 0 unstarted)
init-IsStarted_example =
    init-IsStarted dual dual-IsUsable os 64 0 0 unstarted (λ e. cc) refl (omega arith) (omega arith)
      (omega arith) (omega arith)

unstarted-IsLoaded : IsLoaded dual dual-IsUsable os 6 128 256 128 unstarted
unstarted-IsLoaded = record {
  scheduler = λ s. refl;
  stack_pool = λ s. refl;
  address = λ s. refl;
  user_not_null = λ e. absurd (omega (arith, e));
  functions = λ s code k e. absurd (omega (arith, e));
  not_null = λ e. absurd (omega (arith, e));
  stacks_not_null = λ e. absurd (omega (arith, e));
}

process_init-user_init_example :
    Returns
      (λ (pid, w1).
        IsRegistered dual dual-IsUsable os 6 128 256 unstarted (pid, w1)
        × Returns
            (λ (_, w2). IsUserStarted dual dual-IsUsable os 128 256 128 pid unstarted w2)
            (user_init dual os 6 0 w1))
      (process_init dual os 6 0 unstarted)
process_init-user_init_example =
    process_init-user_init dual dual-IsUsable os 6 128 256 128 0 5 unstarted unstarted-IsLoaded refl
      refl (omega arith) (omega arith) refl (omega arith) (omega arith) (omega arith)

kernel_init_main-IsBooted_example :
    Returns
      (λ (_, w').
        IsBooted dual dual-IsUsable os 4096 7 0 w'
        × (w'.kernel_scheduler ≡ 128)
        × (x : Scheduler) × IsOwn dual w'.kernel_scheduler x w'
        × (user_pointers x.sources ≡ queues_of dual 128)
        × (x.global_index ≡ 0)
        × (x.ready_queue ≡ ReadyQueue.new dual)
        × (x.trap_wait_queue.queues ≡ λ _. [])
        × ((j : ℕ) → j ≢ 128 → w'.schedulers j ≡ unstarted.schedulers j))
      (kernel_init_main dual os 4096 7 0 unstarted)
kernel_init_main-IsBooted_example =
    kernel_init_main-IsBooted dual dual-IsUsable os 4096 7 0 unstarted
      (λ e. absurd (omega (arith, e))) refl refl (omega arith) (omega arith) (omega arith)

-- An external source with other addresses than the scheduler's own.
abbrev source : EventSourceEntry
source = record {
  kernel_data = 40;
  user_data = 48;
  vtable = record {
    kernel_hightest_priority = (external_code 1, 1);
    user_hightest_priority = (external_code 1, 2);
    kernel_take_task = (external_code 1, 3);
    user_take_task = (external_code 1, 4);
    is_prio_per_cpu = true;
  };
}

middle : insert_index (pos 1) 2 ≡ some 1
unfolding insert_index
middle = refl

new_source :
    let k = is_in_kernel dual os 0 own world in position k (data_of source k) own.sources ≡ none
unfolding position data_of is_in_kernel
new_source = refl

register-unregister_example :
    Returns
      (λ (added, w1).
        (added ≡ true)
        × (w1.schedulers 64 ≡ some (record own { sources = insert_at 1 source own.sources }))
        × Returns
            (λ (removed, w2). (removed ≡ true) × (w2.schedulers 64 ≡ some own))
            (unregister_event_source dual os 64
              (data_of source (is_in_kernel dual os 0 own world))
              0
              w1))
      (register_event_source dual os 64 40 48 source.vtable (pos 1) 0 world)
register-unregister_example =
    register-unregister dual os 64 0 (λ e. cc) (omega arith) (pos 1) 1 source own world refl
      (omega arith) (omega arith) (λ e. absurd (omega (arith, e))) (λ e. absurd (omega (arith, e)))
      middle (omega arith) new_source
