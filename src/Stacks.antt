-- ===== src/Stacks.antt =====
-- stack/handler.rs: the stack pool of an address space. A stack is its address; `StackVirtImpl` is
-- the operating system's. The map of free stacks is a list of keys in the map's order, whose
-- `remove` puts the last entry in the place of the one removed.
pub mod Exclusive
pub mod Places
pub mod Owners
pub mod Apart
pub mod Checks
use mathlib.Core.List.{reverse}
use vsched.Base.{
  ℕ, zero, suc, ◌≡◌, Bool, true, false, not, ◌&&◌, ◌||◌, Option, none, some, List, [], ◌∷◌, ◌++◌,
  ltb, ◌==◌, if◌then◌else◌, length, update, Outcome, done, panic, ◌>>=◌, ◌>>◌, assert,
}
use vsched.Config.{Config}
use vsched.Os.{Os}

pub record StackHandler : Type 0 where
  pub free_stacks : ℕ → List ℕ
  pub current_stack : ℕ → Option ℕ
  pub trap_stack : ℕ → Option ℕ

unfoldable pub default_handler : StackHandler
default_handler = record {
  free_stacks = λ _. [];
  current_stack = λ _. none;
  trap_stack = λ _. none;
}

abbrev pub is_none {ℓ} : {A : Type ℓ} → Option A → Bool
is_none none = true
is_none (some a) = false

unfoldable pub last_to_front : List ℕ → List ℕ
last_to_front [] = []
last_to_front (x ∷ xs) = x ∷ reverse xs

unfoldable pub swap_remove : ℕ → List ℕ → List ℕ
swap_remove a [] = []
swap_remove a (x ∷ xs) = if x == a then last_to_front (reverse xs) else x ∷ swap_remove a xs

unfoldable pub set_trap_stack : ℕ → ℕ → StackHandler → Option ℕ × StackHandler
set_trap_stack stack cpu h =
    (h.trap_stack cpu, record h { trap_stack = update h.trap_stack cpu (some stack) })

unfoldable pub take_current_stack : ℕ → StackHandler → Outcome (ℕ × StackHandler)
take_current_stack cpu h = elim (h.current_stack cpu) [
  | none ↦ panic
  | some stack ↦ done (stack, record h { current_stack = update h.current_stack cpu none })
]

module _ {S : Type 0} (c : Config) (os : Os S) where
  unfoldable pub alloc_stack : ℕ → StackHandler → S → ℕ × StackHandler × S
  alloc_stack cpu h s = elim (h.free_stacks cpu) [
    | [] ↦ let (stack, s') = os.alloc_stack s in (stack, h, s')
    | addr ∷ rest ↦ (
      addr,
      record h { free_stacks = update h.free_stacks cpu (swap_remove addr (addr ∷ rest)) },
      s,
    )
  ]

  unfoldable pub dealloc_stack : ℕ → ℕ → StackHandler → S → StackHandler × S
  dealloc_stack stack cpu h s =
      let others = swap_remove stack (h.free_stacks cpu) in
      if ltb (length others) c.stack_pool_size
      then (record h { free_stacks = update h.free_stacks cpu (others ++ stack ∷ []) }, s)
      else (record h { free_stacks = update h.free_stacks cpu others }, os.dealloc_stack stack s)

  unfoldable pub holds : ℕ → Option ℕ → S → Bool
  holds stack none s = false
  holds stack (some p) s = p == stack && os.base s p == os.base s stack

  -- The check of `set_current_stack` on the CPUs under `n` but `cpu`.
  unfoldable pub in_use : ℕ → ℕ → ℕ → StackHandler → S → Bool
  in_use zero stack cpu h s = false
  in_use (suc n) stack cpu h s =
      (not (n == cpu) && holds stack (h.current_stack n) s) || in_use n stack cpu h s

  unfoldable pub set_current_stack : ℕ → ℕ → StackHandler → S → Outcome (Option ℕ × StackHandler)
  set_current_stack stack cpu h s =
      if in_use c.cpu_num stack cpu h s
      then panic
      else done (
        h.current_stack cpu,
        record h { current_stack = update h.current_stack cpu (some stack) },
      )

  unfoldable pub alloc_trap_stack : ℕ → StackHandler → S → Outcome (ℕ × StackHandler × S)
  alloc_trap_stack cpu h s =
      let (stack, h', s') = alloc_stack cpu h s in
      let (old, h2) = set_trap_stack stack cpu h' in
      assert (is_none old) >> done (os.base s' stack, h2, s')

  unfoldable pub current_base : ℕ → StackHandler → S → Outcome (ℕ × StackHandler × S)
  current_base cpu h s = elim (h.current_stack cpu) [
    | none ↦ panic
    | some stack ↦ done (os.base s stack, h, s)
  ]

  -- With `stack_status`, which the code does not read.
  unfoldable pub get_empty_stack : ℕ → ℕ → StackHandler → S → Outcome (ℕ × StackHandler × S)
  get_empty_stack stack_status cpu h s = elim (h.current_stack cpu) [
    | none ↦
        let (stack, h', s') = alloc_stack cpu h s in
        set_current_stack stack cpu h' s' >>= λ (old, h2).
        assert (is_none old) >> current_base cpu h2 s'
    | some stack ↦ done (os.base s stack, h, s)
  ]

  unfoldable pub give_back : Option ℕ → ℕ → StackHandler → S → StackHandler × S
  give_back none cpu h s = (h, s)
  give_back (some stack) cpu h s = dealloc_stack stack cpu h s

  unfoldable pub get_thread_stack : Option ℕ → ℕ → ℕ → StackHandler → S → Outcome (StackHandler × S)
  get_thread_stack (some stack) stack_status cpu h s =
      set_current_stack stack cpu h s >>= λ (old, h'). done (give_back old cpu h' s)
  get_thread_stack none stack_status cpu h s =
      let h' = record h { current_stack = update h.current_stack cpu none } in
      done (give_back (h.current_stack cpu) cpu h' s)
