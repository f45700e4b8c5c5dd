-- ===== src/Examples/Pool.antt =====
-- The stack pool at concrete inputs: CPU 0 of two allocates a stack.
use vsched.Base.{ℕ, ◌≡◌, ◌≤◌, refl, some, [], ◌∷◌, arith, Returns, total-zero}
use vsched.Examples.Machine.{dual}
use vsched.Examples.Setup.{Tasks, os, tasks}
use vsched.Stacks.{default_handler, alloc_stack, get_thread_stack, get_empty_stack}
use vsched.Stacks.Places.{cell}
use vsched.Stacks.Owners.{Pool, owners, IsNew, Reach, alloc, start, then_step}
use vsched.Stacks.Apart.{Reach-IsApart}
use vsched.Stacks.Checks.{get_thread_stack-Returns, get_empty_stack-Returns}

abbrev empty_pool : Pool Tasks
empty_pool = record { handler = default_handler; os_state = tasks; held = [] }

abbrev one_stack : Pool Tasks
one_stack = record { handler = default_handler; os_state = tasks; held = 4096 ∷ [] }

empty_pool-IsNew : IsNew dual os empty_pool
unfolding default_handler
empty_pool-IsNew = omega (arith, total-zero 2 (cell 4096 default_handler) (λ i. refl))

allocates : alloc_stack dual os 0 default_handler tasks ≡ (4096, default_handler, tasks)
unfolding alloc_stack default_handler
allocates = refl

one_stack-reached : Reach dual os one_stack
one_stack-reached =
    then_step empty_pool one_stack (start tasks)
      (alloc 0 (omega arith) empty_pool-IsNew 4096 default_handler tasks allocates)

Reach-IsApart_example : owners dual os 4096 one_stack ≤ 1
Reach-IsApart_example = Reach-IsApart dual os one_stack one_stack-reached 4096

get_thread_stack-Returns_example :
    Returns
      (λ (h, s). h.current_stack 1 ≡ some 4096)
      (get_thread_stack dual os (some 4096) 0 1 default_handler tasks)
get_thread_stack-Returns_example =
    get_thread_stack-Returns dual os one_stack 4096 0 1 one_stack-reached (omega arith)
      (omega arith)

get_empty_stack-Returns_example :
    Returns
      (λ (b, h, s).
        (stack : ℕ) × (h.current_stack 1 ≡ some stack)
        × (b ≡ os.base s stack)
        × ((old : ℕ) → default_handler.current_stack 1 ≡ some old → stack ≡ old))
      (get_empty_stack dual os 0 1 default_handler tasks)
get_empty_stack-Returns_example =
    get_empty_stack-Returns dual os empty_pool 0 1 (start tasks) (omega arith) empty_pool-IsNew
