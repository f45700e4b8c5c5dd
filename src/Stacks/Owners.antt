-- ===== src/Stacks/Owners.antt =====
-- stack/handler.rs: any calls of the pool from any CPUs, in any order, and who owns which stack.
-- The pool's methods take and return `&'static mut` references: `held` lists the stacks whose
-- reference is with a caller (a task, an entry point) and not in the pool.
use vsched.Base.{ℕ, ◌+◌, ◌≤◌, ◌<◌, ◌≡◌, Option, none, some, List, [], ◌∷◌, done, copies}
use vsched.Config.{Config}
use vsched.Os.{Os}
use vsched.Stacks.{
  StackHandler, default_handler, alloc_stack, dealloc_stack, set_trap_stack, take_current_stack,
  set_current_stack, get_thread_stack, alloc_trap_stack, get_empty_stack, swap_remove,
}
use vsched.Stacks.Places.{places}

pub record Pool (S : Type 0) : Type 0 where
  pub handler : StackHandler
  pub os_state : S
  pub held : List ℕ

abbrev pub with_returned : Option ℕ → List ℕ → List ℕ
with_returned none held = held
with_returned (some stack) held = stack ∷ held

module _ {S : Type 0} (c : Config) (os : Os S) where
  -- In how many places the stack `a` stands, in the pool or with a caller.
  abbrev pub owners : ℕ → Pool S → ℕ
  owners a p = places c.cpu_num a p.handler + copies a p.held

  -- The operating system's next stack is one that nobody has.
  abbrev pub IsNew : Pool S → Type 0
  IsNew p = owners (os.alloc_stack p.os_state).0 p ≡ 0

  abbrev pub IsHeld : ℕ → Pool S → Type 0
  IsHeld stack p = 0 < copies stack p.held

  -- One call of a method of `StackHandler` by a CPU, or a step of the operating system.
  pub data Step (p : Pool S) : Pool S → Type 0 where
    os_moves : (s : S) → Step p (record p { os_state = s })
    alloc :
        (cpu : ℕ)
        → cpu < c.cpu_num
        → IsNew p
        → (stack : ℕ) (h : StackHandler) (s : S)
        → alloc_stack c os cpu p.handler p.os_state ≡ (stack, h, s)
        → Step p (record { handler = h; os_state = s; held = stack ∷ p.held })
    dealloc :
        (stack cpu : ℕ)
        → cpu < c.cpu_num
        → IsHeld stack p
        → (h : StackHandler) (s : S) → dealloc_stack c os stack cpu p.handler p.os_state ≡ (h, s)
        → Step p (record { handler = h; os_state = s; held = swap_remove stack p.held })
    trap_stack_set :
        (stack cpu : ℕ)
        → cpu < c.cpu_num
        → IsHeld stack p
        → (old : Option ℕ) (h : StackHandler) → set_trap_stack stack cpu p.handler ≡ (old, h)
        → Step p (record p { handler = h; held = with_returned old (swap_remove stack p.held) })
    current_stack_set :
        (stack cpu : ℕ)
        → cpu < c.cpu_num
        → IsHeld stack p
        → (old : Option ℕ) (h : StackHandler)
        → set_current_stack c os stack cpu p.handler p.os_state ≡ done (old, h)
        → Step p (record p { handler = h; held = with_returned old (swap_remove stack p.held) })
    current_stack_taken :
        (cpu : ℕ)
        → cpu < c.cpu_num
        → (stack : ℕ) (h : StackHandler) → take_current_stack cpu p.handler ≡ done (stack, h)
        → Step p (record p { handler = h; held = stack ∷ p.held })
    trap_stack_allocated :
        (cpu : ℕ)
        → cpu < c.cpu_num
        → IsNew p
        → (b : ℕ) (h : StackHandler) (s : S)
        → alloc_trap_stack c os cpu p.handler p.os_state ≡ done (b, h, s)
        → Step p (record p { handler = h; os_state = s })
    empty_stack_got :
        (status cpu : ℕ)
        → cpu < c.cpu_num
        → IsNew p
        → (b : ℕ) (h : StackHandler) (s : S)
        → get_empty_stack c os status cpu p.handler p.os_state ≡ done (b, h, s)
        → Step p (record p { handler = h; os_state = s })
    thread_stack_got :
        (stack : ℕ) (status cpu : ℕ)
        → cpu < c.cpu_num
        → IsHeld stack p
        → (h : StackHandler) (s : S)
        → get_thread_stack c os (some stack) status cpu p.handler p.os_state ≡ done (h, s)
        → Step p (record { handler = h; os_state = s; held = swap_remove stack p.held })
    no_thread_stack_got :
        (status cpu : ℕ)
        → cpu < c.cpu_num
        → (h : StackHandler) (s : S)
        → get_thread_stack c os none status cpu p.handler p.os_state ≡ done (h, s)
        → Step p (record p { handler = h; os_state = s })

  pub data Reach : Pool S → Type 0 where
    start : (s : S) → Reach (record { handler = default_handler; os_state = s; held = [] })
    then_step : (p q : Pool S) → Reach p → Step p q → Reach q

  -- No stack is in two places.
  abbrev pub IsApart : Pool S → Type 0
  IsApart p = (a : ℕ) → owners a p ≤ 1
