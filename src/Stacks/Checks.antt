-- ===== src/Stacks/Checks.antt =====
-- stack/handler.rs: the checks of the pool on a stack that its caller owns.
use vsched.Base.{
  ℕ, ◌<◌, ◌≡◌, ◌≢◌, refl, ap, ◌∙◌, none, some, arith, Returns, done, inl, inr, Option-cases,
  total-ge, update,
}
use vsched.Config.{Config}
use vsched.Os.{Os}
use vsched.Stacks.{
  StackHandler, alloc_stack, dealloc_stack, set_current_stack, get_thread_stack, get_empty_stack,
  give_back, current_base,
}
use vsched.Stacks.Exclusive.{free_to_use}
use vsched.Stacks.Places.{cell, places, places-alloc_stack}
use vsched.Stacks.Owners.{Pool, owners, IsNew, IsHeld, Reach}
use vsched.Stacks.Apart.{Reach-IsApart}

module _ {S : Type 0} (c : Config) (os : Os S) where
  not_placed :
      (h : StackHandler) (stack : ℕ)
      → places c.cpu_num stack h ≡ 0
      → (i : ℕ) → i < c.cpu_num
      → h.current_stack i ≢ some stack
  not_placed h stack e i l m = ground (arith, total-ge c.cpu_num i (cell stack h) l)

  held-not_placed :
      (p : Pool S) (stack : ℕ)
      → Reach c os p
      → IsHeld c os stack p
      → places c.cpu_num stack p.handler ≡ 0
  held-not_placed p stack reached held = omega (arith, Reach-IsApart c os p reached stack)

  sets_current :
      (h : StackHandler) (stack cpu : ℕ) (s : S)
      → places c.cpu_num stack h ≡ 0
      → set_current_stack c os stack cpu h s
        ≡ done (
          h.current_stack cpu,
          record h { current_stack = update h.current_stack cpu (some stack) },
        )
  unfolding set_current_stack
  sets_current h stack cpu s e =
      rw (free_to_use c os c.cpu_num stack cpu h s (λ i l ne. not_placed h stack e i l)) refl

  -- In whatever order the CPUs have called the pool, `get_thread_stack` with a stack that the
  -- caller holds returns: the check that no other CPU has it passes. The stack is then the CPU's
  -- current one.
  pub get_thread_stack-Returns :
      (p : Pool S) (stack status cpu : ℕ)
      → Reach c os p
      → cpu < c.cpu_num
      → IsHeld c os stack p
      → Returns
          (λ (h, s). h.current_stack cpu ≡ some stack)
          (get_thread_stack c os (some stack) status cpu p.handler p.os_state)
  unfolding get_thread_stack give_back dealloc_stack
  get_thread_stack-Returns p stack status cpu reached l held =
      ground
        (arith, sets_current p.handler stack cpu p.os_state (held-not_placed p stack reached held))

  alloc_stack-free :
      (p : Pool S) (cpu : ℕ)
      → Reach c os p
      → cpu < c.cpu_num
      → IsNew c os p
      → let (stack, h, s) = alloc_stack c os cpu p.handler p.os_state in
        (places c.cpu_num stack h ≡ 0) × (h.current_stack ≡ p.handler.current_stack)
  unfolding alloc_stack
  alloc_stack-free p cpu reached l new =
      let (stack, h, s) = alloc_stack c os cpu p.handler p.os_state in
      let fresh = (os.alloc_stack p.os_state).0 in
      (
        ground (
          arith,
          places-alloc_stack c os cpu stack l p.handler p.os_state,
          Reach-IsApart c os p reached stack,
          ap (λ x. owners c os x p) {x = fresh} {y = stack},
        ),
        ground arith,
      )

  -- In whatever order the CPUs have called the pool, and where a stack that the operating system
  -- allocates is one that nobody has, `get_empty_stack` returns: its checks, that no
  -- other CPU has the stack and that this CPU has none, pass. It answers the base of the CPU's
  -- current stack, which is the one that the CPU had, if it had one.
  pub get_empty_stack-Returns :
      (p : Pool S) (status cpu : ℕ)
      → Reach c os p
      → cpu < c.cpu_num
      → IsNew c os p
      → Returns
          (λ (b, h, s).
            (stack : ℕ) × (h.current_stack cpu ≡ some stack)
            × (b ≡ os.base s stack)
            × ((old : ℕ) → p.handler.current_stack cpu ≡ some old → stack ≡ old))
          (get_empty_stack c os status cpu p.handler p.os_state)
  unfolding get_empty_stack current_base
  get_empty_stack-Returns p status cpu reached l new =
      elim (Option-cases (p.handler.current_stack cpu)) [
        | inl e ↦
            let (stack, h, s) = alloc_stack c os cpu p.handler p.os_state in
            let (free, same) = alloc_stack-free p cpu reached l new in
            let none_yet : h.current_stack cpu ≡ none = ap (λ f. f cpu) same ∙ e in
            let h2 = record h { current_stack = update h.current_stack cpu (some stack) } in
            let got : get_empty_stack c os status cpu p.handler p.os_state
                ≡ done (os.base s stack, h2, s) =
              ground (arith, sets_current h stack cpu s free, none_yet) in
            rw got (stack, ground arith, refl, λ old had. ground arith)
        | inr (stack, e) ↦ rw (e, get_empty_stack) (stack, e, refl, λ old same. ground arith)
      ]
