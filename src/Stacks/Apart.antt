-- ===== src/Stacks/Apart.antt =====
-- stack/handler.rs: what each call of the pool does to the owners of a stack.
use vsched.Base.{
  ℕ, ◌+◌, ◌≤◌, ◌<◌, ◌≡◌, refl, ap, Option, none, some, List, arith, ◌==◌, Bool-cases, inl, inr,
  copies, total-zero, Ensures-done,
}
use vsched.Config.{Config}
use vsched.Os.{Os}
use vsched.Stacks.{default_handler, swap_remove}
use vsched.Stacks.Places.{
  at, cell, copies-swap_remove, places-set_trap_stack, places-alloc_stack, places-dealloc_stack,
  places-set_current_stack, places-get_thread_stack, places-take_current_stack,
  places-get_empty_stack, places-alloc_trap_stack,
}
use vsched.Stacks.Owners.{
  Pool, with_returned, owners, Step, Reach, IsApart, os_moves, alloc, dealloc, trap_stack_set,
  current_stack_set, current_stack_taken, trap_stack_allocated, empty_stack_got, thread_stack_got,
  no_thread_stack_got, start, then_step,
}

module _ {S : Type 0} (c : Config) (os : Os S) where
  -- A call that brings the new stack in, at most.
  grows-IsApart :
      (p q : Pool S) (new : ℕ)
      → owners c os new p ≡ 0
      → ((a : ℕ) → owners c os a q ≤ owners c os a p + at a (some new))
      → IsApart c os p
      → IsApart c os q
  grows-IsApart p q new e g v a = elim (Bool-cases (new == a)) [
    | inl same ↦
        let at_new : new ≡ a = ground arith in ground (arith, g a, ap (λ x. owners c os x p) at_new)
    | inr other ↦ ground (arith, g a, v a)
  ]

  -- `held` after a stack has been handed over.
  copies-handed :
      (a stack : ℕ) (xs : List ℕ)
      → 0 < copies stack xs
      → copies a (swap_remove stack xs) + at a (some stack) ≡ copies a xs
  copies-handed a stack xs l = ground (arith, copies-swap_remove a stack xs)

  copies-with_returned :
      (a : ℕ) (old : Option ℕ) (xs : List ℕ)
      → copies a (with_returned old xs) ≡ at a old + copies a xs
  copies-with_returned a none xs = omega arith
  copies-with_returned a (some s) xs = omega arith

  Step-IsApart : (p q : Pool S) → Step c os p q → IsApart c os p → IsApart c os q
  Step-IsApart p q (os_moves s) v a = v a
  Step-IsApart p q (alloc cpu l new stack h s e) v a =
      grows-IsApart p q (os.alloc_stack p.os_state).0 new
        (λ a. ground (arith, places-alloc_stack c os cpu a l p.handler p.os_state)) v a
  Step-IsApart p q (dealloc stack cpu l held h s e) v a = ground (
    arith,
    v a,
    copies-handed a stack p.held,
    places-dealloc_stack c os cpu a l stack p.handler p.os_state,
  )
  Step-IsApart p q (trap_stack_set stack cpu l held old h e) v a = ground (
    arith,
    v a,
    copies-handed a stack p.held,
    copies-with_returned a old (swap_remove stack p.held),
    places-set_trap_stack c.cpu_num cpu a p.handler l stack,
  )
  Step-IsApart p q (current_stack_set stack cpu l held old h e) v a = ground (
    arith,
    v a,
    copies-handed a stack p.held,
    copies-with_returned a old (swap_remove stack p.held),
    Ensures-done _ _ (old, h) (places-set_current_stack c os cpu a l stack p.handler p.os_state) e,
  )
  Step-IsApart p q (current_stack_taken cpu l stack h e) v a =
      ground (
        arith,
        v a,
        Ensures-done _ _ (stack, h) (places-take_current_stack c os cpu a l p.handler) e,
      )
  Step-IsApart p q (trap_stack_allocated cpu l new b h s e) v a =
      grows-IsApart p q (os.alloc_stack p.os_state).0 new
        (λ a. omega (
          arith,
          Ensures-done _ _ (b, h, s) (places-alloc_trap_stack c os cpu a l p.handler p.os_state) e,
        ))
        v a
  Step-IsApart p q (empty_stack_got status cpu l new b h s e) v a =
      grows-IsApart p q (os.alloc_stack p.os_state).0 new
        (λ a. omega (
          arith,
          Ensures-done _ _ (b, h, s)
              (places-get_empty_stack c os cpu a l status p.handler p.os_state) e,
        ))
        v a
  Step-IsApart p q (thread_stack_got stack status cpu l held h s e) v a = ground (
    arith,
    v a,
    copies-handed a stack p.held,
    Ensures-done _ _ (h, s)
        (places-get_thread_stack c os cpu a l (some stack) status p.handler p.os_state) e,
  )
  Step-IsApart p q (no_thread_stack_got status cpu l h s e) v a = ground (
    arith,
    v a,
    Ensures-done _ _ (h, s) (places-get_thread_stack c os cpu a l none status p.handler p.os_state)
        e,
  )

  -- In whatever order the CPUs call the pool, from its start on, no stack is ever in two places:
  -- not twice in the lists of free stacks, not the current or the trap stack of two CPUs, not free
  -- and in use, not in the pool and with a caller. The callers hand over stacks that they hold,
  -- and the operating system allocates stacks that nobody has.
  pub Reach-IsApart : (p : Pool S) → Reach c os p → IsApart c os p
  unfolding default_handler
  Reach-IsApart p (start s) a =
      omega (arith, total-zero c.cpu_num (cell a default_handler) (λ i. refl))
  Reach-IsApart p (then_step q r reached step) a = Step-IsApart q r step (Reach-IsApart q reached) a
