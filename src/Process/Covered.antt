-- ===== src/Process/Covered.antt =====
-- schedule/process_info.rs: the scan of `highest_prio_process` passes every valid process, from the
-- first table on and through every call.
use vsched.Base.{
  ℕ, zero, suc, ◌+◌, ◌-◌, ◌%◌, ◌^◌, ◌<◌, ◌≡◌, refl, sym, subst, ap, ◌∙◌, inl, inr, true, false,
  Option, none, some, arith, ◌==◌, Outcome, done, Returns, Returns-done, Bool-cases, leb,
}
use native.Mathlib.Nat.{mod-eq_of_lt}
use vsched.Config.{Config}
use vsched.Os.{Os}
use vsched.Process.{
  ProcessInfoTable, default_info, default_table, bump, set_valid, register_from, register_process,
  unregister_process,
}
use vsched.Process.Best.{IsCovered}
use vsched.Process.Register.{Registers, register_process-Registers}

-- The kernel is in the first table, and the scan passes it.
pub default_table-IsCovered : (c : Config) → IsCovered c default_table
unfolding default_table default_info
default_table-IsCovered c i h v = ground arith

module _ (c : Config) where
  bump-IsCovered :
      (t : ProcessInfoTable) → t.next_i + 1 < 2 ^ 64 → IsCovered c t → IsCovered c (bump t)
  unfolding bump
  bump-IsCovered t room covered i h v = ground (arith, covered i h v)

  taken-IsCovered :
      (index : ℕ) (t : ProcessInfoTable)
      → 0 < t.next_i
      → index ≡ (t.next_i - 1) % c.process_num
      → IsCovered c t
      → IsCovered c (set_valid index true t)
  unfolding set_valid
  taken-IsCovered index t some_drawn e covered i h v =
      elim (Bool-cases (leb c.process_num t.next_i)) [
        | inl all ↦ inr (ground arith)
        | inr few ↦
            let same : (t.next_i - 1) % c.process_num ≡ t.next_i - 1 =
              mod-eq_of_lt (ground arith) in
            ground (arith, covered i h, same)
      ]

  -- The three ways of a round.
  register_from-free :
      (n start index : ℕ) (t : ProcessInfoTable)
      → (t.table index).valid ≡ false
      → register_from c (suc n) start index t ≡ done (some index, set_valid index true t)
  unfolding register_from
  register_from-free n start index t e = rw (e, register_from)

  register_from-around :
      (n start index : ℕ) (t : ProcessInfoTable)
      → (t.table index).valid ≡ true
      → (t.next_i % c.process_num == start) ≡ true
      → register_from c (suc n) start index t ≡ done (none, bump t)
  unfolding register_from
  register_from-around n start index t e k = rw (e, k, register_from)

  register_from-on :
      (n start index : ℕ) (t : ProcessInfoTable)
      → (t.table index).valid ≡ true
      → (t.next_i % c.process_num == start) ≡ false
      → register_from c (suc n) start index t
        ≡ register_from c n start (t.next_i % c.process_num) (bump t)
  unfolding register_from
  register_from-on n start index t e k = rw (e, k, register_from)

  same_table :
      {a b : Option ℕ} {t t' : ProcessInfoTable}
      → ◌≡◌ {A = Outcome (Option ℕ × ProcessInfoTable)} (done (a, t)) (done (b, t'))
      → t ≡ t'
  same_table e = cc e

  bump-last : (t : ProcessInfoTable) → t.next_i + 1 < 2 ^ 64 → ((bump t).next_i ≡ t.next_i + 1)
  unfolding bump
  bump-last t room = ground arith

  register_from-IsCovered :
      (n start index : ℕ) (t t' : ProcessInfoTable) (found : Option ℕ)
      → 0 < t.next_i
      → t.next_i + n < 2 ^ 64
      → index ≡ (t.next_i - 1) % c.process_num
      → IsCovered c t
      → register_from c n start index t ≡ done (found, t')
      → IsCovered c t'
  register_from-IsCovered zero start index t t' found d room e covered r =
      absurd (unfold register_from in cc r)
  register_from-IsCovered (suc n) start index t t' found d room e covered r =
      let next = bump-last t (omega arith) in
      elim (Bool-cases (t.table index).valid) [
        | inr free ↦
            subst (IsCovered c) (same_table (sym (register_from-free n start index t free) ∙ r))
              (taken-IsCovered index t d e covered)
        | inl taken ↦ elim (Bool-cases (t.next_i % c.process_num == start)) [
          | inl around ↦
              subst (IsCovered c)
                (same_table (sym (register_from-around n start index t taken around) ∙ r))
                (bump-IsCovered t (omega arith) covered)
          | inr on ↦
              register_from-IsCovered n start (t.next_i % c.process_num) (bump t) t' found
                (omega (arith, next)) (omega (arith, next))
                (ap (λ (k : ℕ). k % c.process_num) (omega (arith, next)))
                (bump-IsCovered t (omega arith) covered)
                (sym (register_from-on n start index t taken on) ∙ r)
        ]
      ]

  -- While the counter stays under 2 ^ 64, `register_process` ends, and the scan of
  -- `highest_prio_process` passes every valid process afterwards if it did before.
  pub register_process-IsCovered :
      (t : ProcessInfoTable)
      → 0 < c.process_num
      → t.next_i + c.process_num + 1 < 2 ^ 64
      → IsCovered c t
      → Returns (λ (found, t'). IsCovered c t') (register_process c t)
  unfolding register_process
  register_process-IsCovered t size room covered =
      let next = bump-last t (omega arith) in
      let ((found, t'), e, _) =
        Returns-done (Registers c t size (omega arith)) (register_process c t)
          (register_process-Registers c t size (omega arith)) in
      let kept =
        register_from-IsCovered c.process_num (t.next_i % c.process_num) (t.next_i % c.process_num)
          (bump t) t' found (omega (arith, next)) (omega (arith, next))
          (ap (λ (k : ℕ). k % c.process_num) (omega (arith, next)))
          (bump-IsCovered t (omega arith) covered) e in
      rw e kept

  -- `unregister_process` on an index of the table ends, and keeps that too. The index is free then,
  -- and the result says whether it was not.
  pub unregister_process-IsCovered :
      {S : Type 0} (os : Os S) (index : ℕ) (t : ProcessInfoTable) (s : S)
      → index < c.process_num
      → IsCovered c t
      → Returns
          (λ (was, t', s').
            IsCovered c t' × (was ≡ (t.table index).valid) × ((t'.table index).valid ≡ false))
          (unregister_process c os index t s)
  unfolding unregister_process
  unregister_process-IsCovered os index t s h covered =
      let inside : leb c.process_num index ≡ false = ground arith in
      rw inside (λ i l v. ground (arith, covered i l), refl, ground arith)
