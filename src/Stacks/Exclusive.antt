-- ===== src/Stacks/Exclusive.antt =====
-- stack/handler.rs: no stack is the current one of two CPUs, and the pool keeps to its size.
use mathlib.Core.List.{reverse, reverse-cons}
use vsched.Base.{
  ℕ, zero, suc, ◌≤◌, ◌<◌, ◌≡◌, ◌≢◌, refl, ap, false, some, List, [], ◌∷◌, arith, length,
  length-append, ◌==◌, panic, Returns, Bool-cases, inl, inr,
}
use vsched.Config.{Config}
use vsched.Os.{Os}
use vsched.Stacks.{
  StackHandler, swap_remove, last_to_front, dealloc_stack, holds, in_use, set_current_stack,
}

-- No stack is the current one of two CPUs.
abbrev pub IsExclusive : Config → StackHandler → Type 0
IsExclusive c h =
    (i j stack : ℕ)
    → i < c.cpu_num
    → j < c.cpu_num
    → h.current_stack i ≡ some stack
    → h.current_stack j ≡ some stack
    → i ≡ j

length-reverse : (xs : List ℕ) → length (reverse xs) ≡ length xs
length-reverse [] = refl
length-reverse (x ∷ xs) =
    omega
      (arith, ap length (reverse-cons x xs), length-append (reverse xs) (x ∷ []), length-reverse xs)

length-last_to_front : (xs : List ℕ) → length (last_to_front xs) ≡ length xs
unfolding last_to_front
length-last_to_front [] = refl
length-last_to_front (x ∷ xs) = ap suc (length-reverse xs)

length-swap_remove : (a : ℕ) (xs : List ℕ) → length (swap_remove a xs) ≤ length xs
unfolding swap_remove
length-swap_remove a [] = omega arith
length-swap_remove a (x ∷ xs) =
    ground (arith, length-swap_remove a xs, length-last_to_front (reverse xs), length-reverse xs)

module _ {S : Type 0} (c : Config) (os : Os S) where
  not_in_use :
      (n stack cpu : ℕ) (h : StackHandler) (s : S)
      → in_use c os n stack cpu h s ≡ false
      → (i : ℕ) → i < n
      → i ≢ cpu
      → h.current_stack i ≢ some stack
  unfolding in_use holds
  not_in_use zero stack cpu h s e i l ne m = absurd (omega arith)
  not_in_use (suc n) stack cpu h s e i l ne m = elim (Bool-cases (i == n)) [
    | inl here ↦ ground arith
    | inr there ↦ not_in_use n stack cpu h s (ground arith) i (ground arith) ne m
  ]

  pub free_to_use :
      (n stack cpu : ℕ) (h : StackHandler) (s : S)
      → ((i : ℕ) → i < n → i ≢ cpu → h.current_stack i ≢ some stack)
      → in_use c os n stack cpu h s ≡ false
  unfolding in_use holds
  free_to_use zero stack cpu h s free = refl
  free_to_use (suc n) stack cpu h s free =
      ground (arith, free n, free_to_use n stack cpu h s (λ i l. free i (omega arith)))

  -- If no two CPUs have the same current stack, and no other CPU has this one, `set_current_stack`
  -- makes it the CPU's with no panic, and again no two CPUs have the same one. The former stack
  -- comes back, and the pool is left alone.
  pub set_current_stack-IsExclusive :
      (stack cpu : ℕ) (h : StackHandler) (s : S)
      → IsExclusive c h
      → ((i : ℕ) → i < c.cpu_num → i ≢ cpu → h.current_stack i ≢ some stack)
      → Returns
          (λ (old, h').
            IsExclusive c h'
            × (h'.current_stack cpu ≡ some stack)
            × (old ≡ h.current_stack cpu)
            × (h'.free_stacks ≡ h.free_stacks))
          (set_current_stack c os stack cpu h s)
  unfolding set_current_stack
  set_current_stack-IsExclusive stack cpu h s v free =
      rw (free_to_use c.cpu_num stack cpu h s free)
        (λ i j x li lj ei ej. ground (arith, v i j x, free i, free j), ground arith, refl, refl)

  -- `set_current_stack` panics on a stack that is the current one of another CPU.
  pub set_current_stack_panics :
      (stack cpu i : ℕ) (h : StackHandler) (s : S)
      → i < c.cpu_num
      → i ≢ cpu
      → h.current_stack i ≡ some stack
      → set_current_stack c os stack cpu h s ≡ panic
  unfolding set_current_stack
  set_current_stack_panics stack cpu i h s l ne e =
      elim (Bool-cases (in_use c os c.cpu_num stack cpu h s)) [
        | inl busy ↦ rw busy
        | inr not_busy ↦ absurd (not_in_use c.cpu_num stack cpu h s not_busy i l ne e)
      ]

  -- `dealloc_stack` keeps the pool of a CPU within its size, whatever stack is given back.
  pub dealloc_stack-bounded :
      (stack cpu : ℕ) (h : StackHandler) (s : S)
      → length (h.free_stacks cpu) ≤ c.stack_pool_size
      → length ((dealloc_stack c os stack cpu h s).0.free_stacks cpu) ≤ c.stack_pool_size
  unfolding dealloc_stack
  dealloc_stack-bounded stack cpu h s l = ground (
    arith,
    length-swap_remove stack (h.free_stacks cpu),
    length-append (swap_remove stack (h.free_stacks cpu)) (stack ∷ []),
  )
