-- ===== src/Stacks/Places.antt =====
-- stack/handler.rs: in how many places of the pool a stack stands, before and after each call.
use mathlib.Core.List.{reverse}
use vsched.Base.{
  ℕ, ◌+◌, ◌≤◌, ◌<◌, ◌≡◌, refl, false, Option, none, some, List, [], ◌∷◌, ◌++◌, arith, ltb, ◌==◌,
  if◌then◌else◌, update, Bool-cases, inl, inr, List-cases, copies, copies-append, copies-reverse,
  total, total_change, Ensures, Ensures->>=, Option-cases,
}
use vsched.Config.{Config}
use vsched.Os.{Os}
use vsched.Stacks.{
  StackHandler, swap_remove, last_to_front, alloc_stack, dealloc_stack, set_trap_stack, in_use,
  set_current_stack, give_back, get_thread_stack, take_current_stack, alloc_trap_stack,
  get_empty_stack, current_base,
}

abbrev pub at : ℕ → Option ℕ → ℕ
at a none = 0
at a (some s) = if s == a then 1 else 0

-- The places of stack `a` that belong to one CPU, and to all.
abbrev pub cell : ℕ → StackHandler → ℕ → ℕ
cell a h cpu = copies a (h.free_stacks cpu) + at a (h.current_stack cpu) + at a (h.trap_stack cpu)

abbrev pub places : ℕ → ℕ → StackHandler → ℕ
places n a h = total n (cell a h)

-- A call that changes the cells of one CPU.
pub places_change :
    (n cpu a : ℕ) (h h' : StackHandler)
    → cpu < n
    → ((j : ℕ) → (j == cpu) ≡ false → cell a h' j ≡ cell a h j)
    → places n a h' + cell a h cpu ≡ places n a h + cell a h' cpu
places_change n cpu a h h' l same = total_change n cpu (cell a h) (cell a h') l same

copies-last_to_front : (a : ℕ) (xs : List ℕ) → copies a (last_to_front xs) ≡ copies a xs
unfolding last_to_front
copies-last_to_front a [] = refl
copies-last_to_front a (x ∷ xs) = omega (arith, copies-reverse a xs)

-- `remove` takes one occurrence away, if there is one.
pub copies-swap_remove :
    (a s : ℕ) (xs : List ℕ)
    → copies a (swap_remove s xs) + (if ltb 0 (copies s xs) then at a (some s) else 0) ≡ copies a xs
unfolding swap_remove
copies-swap_remove a s [] = refl
copies-swap_remove a s (x ∷ xs) =
    ground
      (arith, copies-swap_remove a s xs, copies-last_to_front a (reverse xs), copies-reverse a xs)

module _ (n cpu a : ℕ) (h : StackHandler) (on_cpu : cpu < n) where
  pub places-set_trap_stack :
      (stack : ℕ)
      → let (old, h') = set_trap_stack stack cpu h in
        places n a h' + at a old ≡ places n a h + at a (some stack)
  unfolding set_trap_stack
  places-set_trap_stack stack =
      let h' = record h { trap_stack = update h.trap_stack cpu (some stack) } in
      ground (arith, places_change n cpu a h h' on_cpu (λ j ne. ground arith))

  pub places-set_current :
      (new : Option ℕ)
      → places n a (record h { current_stack = update h.current_stack cpu new })
          + at a (h.current_stack cpu)
        ≡ places n a h + at a new
  places-set_current new =
      let h' = record h { current_stack = update h.current_stack cpu new } in
      ground (arith, places_change n cpu a h h' on_cpu (λ j ne. ground arith))

module _ {S : Type 0} (c : Config) (os : Os S) (cpu a : ℕ) (on_cpu : cpu < c.cpu_num) where
  -- A stack from the pool leaves its place; the operating system's had none.
  pub places-alloc_stack :
      (h : StackHandler) (s : S)
      → let (stack, h', s') = alloc_stack c os cpu h s in
        places c.cpu_num a h' + at a (some stack)
        ≤ places c.cpu_num a h + at a (some (os.alloc_stack s).0)
  unfolding alloc_stack
  places-alloc_stack h s = elim (List-cases (h.free_stacks cpu)) [
    | inl e ↦ ground arith
    | inr (x, xs, e) ↦
        let h' = record h { free_stacks = update h.free_stacks cpu (swap_remove x (x ∷ xs)) } in
        ground (
          arith,
          places_change c.cpu_num cpu a h h' on_cpu (λ j ne. ground arith),
          copies-swap_remove a x (x ∷ xs),
        )
  ]

  -- A stack given back gets a place, or goes to the operating system.
  pub places-dealloc_stack :
      (stack : ℕ) (h : StackHandler) (s : S)
      → places c.cpu_num a (dealloc_stack c os stack cpu h s).0
        ≤ places c.cpu_num a h + at a (some stack)
  unfolding dealloc_stack
  places-dealloc_stack stack h s =
      let others = swap_remove stack (h.free_stacks cpu) in
      let pooled = record h { free_stacks = update h.free_stacks cpu (others ++ stack ∷ []) } in
      let gone = record h { free_stacks = update h.free_stacks cpu others } in
      ground (
        arith,
        places_change c.cpu_num cpu a h pooled on_cpu (λ j ne. ground arith),
        places_change c.cpu_num cpu a h gone on_cpu (λ j ne. ground arith),
        copies-swap_remove a stack (h.free_stacks cpu),
        copies-append a others (stack ∷ []),
      )

  places-give_back :
      (stack : Option ℕ) (h : StackHandler) (s : S)
      → places c.cpu_num a (give_back c os stack cpu h s).0 ≤ places c.cpu_num a h + at a stack
  unfolding give_back
  places-give_back none h s = omega arith
  places-give_back (some stack) h s = places-dealloc_stack stack h s

  pub places-set_current_stack :
      (stack : ℕ) (h : StackHandler) (s : S)
      → Ensures
          (λ (old, h'). places c.cpu_num a h' + at a old ≡ places c.cpu_num a h + at a (some stack))
          (set_current_stack c os stack cpu h s)
  unfolding set_current_stack
  places-set_current_stack stack h s = elim (Bool-cases (in_use c os c.cpu_num stack cpu h s)) [
    | inl busy ↦ rw busy tt
    | inr free ↦ rw free (places-set_current c.cpu_num cpu a h on_cpu (some stack))
  ]

  pub places-get_thread_stack :
      (stack : Option ℕ) (status : ℕ) (h : StackHandler) (s : S)
      → Ensures
          (λ (h', s'). places c.cpu_num a h' ≤ places c.cpu_num a h + at a stack)
          (get_thread_stack c os stack status cpu h s)
  unfolding get_thread_stack
  places-get_thread_stack none status h s =
      let h' = record h { current_stack = update h.current_stack cpu none } in
      omega (
        arith,
        places-give_back (h.current_stack cpu) h' s,
        places-set_current c.cpu_num cpu a h on_cpu none,
      )
  places-get_thread_stack (some stack) status h s =
      Ensures->>= _ _ (set_current_stack c os stack cpu h s) _ (places-set_current_stack stack h s)
        (λ (old, h') e. omega (arith, places-give_back old h' s))

  pub places-take_current_stack :
      (h : StackHandler)
      → Ensures
          (λ (stack, h'). places c.cpu_num a h' + at a (some stack) ≡ places c.cpu_num a h)
          (take_current_stack cpu h)
  unfolding take_current_stack
  places-take_current_stack h = elim (Option-cases (h.current_stack cpu)) [
    | inl e ↦ ground arith
    | inr (stack, e) ↦ ground (arith, places-set_current c.cpu_num cpu a h on_cpu none)
  ]

  pub places-get_empty_stack :
      (status : ℕ) (h : StackHandler) (s : S)
      → Ensures
          (λ (b, h', s').
            places c.cpu_num a h' ≤ places c.cpu_num a h + at a (some (os.alloc_stack s).0))
          (get_empty_stack c os status cpu h s)
  unfolding get_empty_stack current_base
  places-get_empty_stack status h s = elim (Option-cases (h.current_stack cpu)) [
    | inl e ↦
        let (stack, h', s') = alloc_stack c os cpu h s in
        rw (e, get_empty_stack)
          (Ensures->>= _ _ (set_current_stack c os stack cpu h' s') _
            (places-set_current_stack stack h' s')
            (λ (old, h2) p. ground (arith, places-alloc_stack h s)))
    | inr (stack, e) ↦ ground arith
  ]

  pub places-alloc_trap_stack :
      (h : StackHandler) (s : S)
      → Ensures
          (λ (b, h', s').
            places c.cpu_num a h' ≤ places c.cpu_num a h + at a (some (os.alloc_stack s).0))
          (alloc_trap_stack c os cpu h s)
  unfolding alloc_trap_stack
  places-alloc_trap_stack h s =
      let (stack, h', s') = alloc_stack c os cpu h s in
      ground (arith, places-alloc_stack h s, places-set_trap_stack c.cpu_num cpu a h' on_cpu stack)
