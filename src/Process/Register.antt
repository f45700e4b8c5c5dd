-- ===== src/Process/Register.antt =====
-- schedule/process_info.rs: the numbers that `register_process` gives out.
use vsched.Base.{
  ℕ, zero, suc, ◌+◌, ◌*◌, ◌/◌, ◌%◌, ◌^◌, ◌≤◌, ◌<◌, ◌≡◌, refl, sym, ap, subst, ◌∙◌, inl, inr, true,
  false, Option, none, some, arith, ◌==◌, Returns, Bool-cases, leb, mod_of_mul_add, split_mod,
  mod_returns, mod_add_self,
}
use vsched.Config.{Config}
use vsched.Process.{ProcessInfoTable, bump, set_valid, register_from, register_process}

-- Every index under n is met by a counter that runs from s to s + n - 1.
pub reach_index : (s n k : ℕ) → k < n → (j : ℕ) × (s ≤ j) × (j < s + n) × (j % n ≡ k)
reach_index s n k h =
    let (split, small) = split_mod s n (omega arith) in
    elim (Bool-cases (leb (s % n) k)) [
      | inl later ↦ (s / n * n + k, ground arith, ground arith, mod_of_mul_add (s / n) n k h)
      | inr sooner ↦ (
        s / n * n + k + n,
        ground arith,
        ground arith,
        mod_add_self (s / n * n + k) n (omega arith) ∙ mod_of_mul_add (s / n) n k h,
      )
    ]

module _ (c : Config) (t : ProcessInfoTable) (size : 0 < c.process_num)
    (room : t.next_i + c.process_num < 2 ^ 64) where
  mod_lt' : (a : ℕ) → a % c.process_num < c.process_num
  mod_lt' a = grind arith

  -- The table after `m` numbers drawn.
  drawn : ℕ → ProcessInfoTable
  drawn m = record t { next_i = t.next_i + m }

  -- A number under `process_num` that was free and is taken now, or none, and all were taken.
  abbrev pub Registers : Option ℕ × ProcessInfoTable → Type 0
  Registers (none, t') =
      ((i : ℕ) → i < c.process_num → (t.table i).valid ≡ true) × (t'.table ≡ t.table)
  Registers (some pid, t') =
      (pid < c.process_num)
      × ((t.table pid).valid ≡ false)
      × (t'.table ≡ (set_valid pid true t).table)

  all_taken :
      (m : ℕ)
      → suc m ≡ c.process_num
      → ((j : ℕ) → t.next_i ≤ j → j < t.next_i + m → (t.table (j % c.process_num)).valid ≡ true)
      → (t.table ((t.next_i + m) % c.process_num)).valid ≡ true
      → (i : ℕ) → i < c.process_num
      → (t.table i).valid ≡ true
  all_taken m e seen last i h =
      let (j, from, below, same) = reach_index t.next_i c.process_num i h in
      elim (Bool-cases (j == t.next_i + m)) [
        | inl at ↦
            let here : j ≡ t.next_i + m = ground arith in
            subst (λ k. (t.table k).valid ≡ true)
              (ap (λ (k : ℕ). k % c.process_num) (sym here) ∙ same) last
        | inr before ↦ subst (λ k. (t.table k).valid ≡ true) same (seen j from (ground arith))
      ]

  extend_seen :
      (m : ℕ)
      → ((j : ℕ) → t.next_i ≤ j → j < t.next_i + m → (t.table (j % c.process_num)).valid ≡ true)
      → (t.table ((t.next_i + m) % c.process_num)).valid ≡ true
      → (j : ℕ) → t.next_i ≤ j
      → j < t.next_i + (m + 1)
      → (t.table (j % c.process_num)).valid ≡ true
  extend_seen m seen last j from below = elim (Bool-cases (j == t.next_i + m)) [
    | inl at ↦ let here : j ≡ t.next_i + m = ground arith in rw here last
    | inr before ↦ seen j from (ground arith)
  ]

  not_around :
      (m : ℕ)
      → m < c.process_num
      → ((t.next_i + (m + 1)) % c.process_num == t.next_i % c.process_num) ≡ false
      → m + 1 < c.process_num
  not_around m h on = elim (Bool-cases (m + 1 == c.process_num)) [
    | inl last ↦
        let same : m + 1 ≡ c.process_num = ground arith in
        let around = mod_add_self t.next_i c.process_num size in
        ground (arith, ap (λ (k : ℕ). (t.next_i + k) % c.process_num) same)
    | inr less ↦ ground arith
  ]

  bump-drawn : (m : ℕ) → m < c.process_num → bump (drawn m) ≡ drawn (m + 1)
  unfolding bump drawn
  bump-drawn m h = ground arith

  register_from-Registers :
      (n m : ℕ)
      → m + n ≡ c.process_num
      → m < c.process_num
      → ((j : ℕ) → t.next_i ≤ j → j < t.next_i + m → (t.table (j % c.process_num)).valid ≡ true)
      → Returns Registers (
          register_from c n
            (t.next_i % c.process_num)
            ((t.next_i + m) % c.process_num)
            (drawn (m + 1)))
  unfolding register_from drawn bump set_valid
  register_from-Registers zero m e h seen = absurd (omega arith)
  register_from-Registers (suc n) m e h seen =
      elim (Bool-cases (t.table ((t.next_i + m) % c.process_num)).valid) [
        | inr free ↦ rw free (mod_lt' (t.next_i + m), free, refl)
        | inl taken ↦
            elim (Bool-cases ((t.next_i + (m + 1)) % c.process_num == t.next_i % c.process_num)) [
              | inl around ↦
                  rw (taken, around)
                    (
                      all_taken m (ground (arith, mod_returns t.next_i (m + 1) c.process_num)) seen
                          taken,
                      refl,
                    )
              | inr on ↦
                  let more = not_around m h on in
                  rw (taken, on, bump-drawn (m + 1) more)
                    (register_from-Registers n (m + 1) (omega arith) more
                      (extend_seen m seen taken))
            ]
      ]

  bump-first : bump t ≡ drawn (0 + 1)
  unfolding bump drawn
  bump-first = ground arith

  -- While the counter stays under 2 ^ 64, `register_process` ends within one round for each number.
  -- It gives a number that was free and marks it valid, or finds all of them valid; it changes
  -- nothing else in the table.
  pub register_process-Registers : Returns Registers (register_process c t)
  unfolding register_process
  register_process-Registers =
      let start : t.next_i + 0 ≡ t.next_i = omega arith in
      let found =
        register_from-Registers c.process_num 0 (omega arith) size
          (λ j from below. absurd (omega arith)) in
      rw bump-first (rw start at found)
