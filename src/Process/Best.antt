-- ===== src/Process/Best.antt =====
-- schedule/process_info.rs: `highest_prio_process` finds a process of the highest priority.
use vsched.Base.{
  ℕ, zero, suc, ◌+◌, ◌-◌, ◌%◌, ◌≤◌, ◌<◌, ◌≡◌, refl, sym, subst, ◌∙◌, ◌⊎◌, inl, inr, true, false,
  ◌||◌, List, [], ◌∷◌, ◌++◌, arith, ltb, leb, ◌==◌, if◌then◌else◌, length, length-append, Returns,
  Returns->>=, Bool-cases,
}
use native.Mathlib.Nat.{mod-eq_of_lt}
use vsched.Config.{Config, isize_max}
use vsched.Process.{ProcessInfoTable, contains, choose, best_processes, highest_prio_process}
use vsched.Process.Register.{reach_index}

contains-append : (x y : ℕ) (ys : List ℕ) → contains x (ys ++ y ∷ []) ≡ (contains x ys || x == y)
unfolding contains
contains-append x y [] = ground arith
contains-append x y (z ∷ ys) = ground (arith, contains-append x y ys)

append-ne-nil : (ps : List ℕ) (p : ℕ) → ¬ ((ps ++ p ∷ []) ≡ [])
append-ne-nil [] p e = cc
append-ne-nil (x ∷ ps) p e = cc

-- Every valid number is one that the scan passes through.
abbrev pub IsCovered : Config → ProcessInfoTable → Type 0
IsCovered c t =
    (i : ℕ)
    → i < c.process_num
    → (t.table i).valid ≡ true
    → (i < t.next_i) ⊎ (c.process_num ≤ t.next_i)

module _ (c : Config) (t : ProcessInfoTable) (cpu : ℕ) (size : 0 < c.process_num) where
  abbrev prio : ℕ → ℕ
  prio i = (t.table i).highest_prio cpu

  abbrev IsBest : ℕ → List ℕ → Type 0
  IsBest h [] = Unit {0}
  IsBest h (p ∷ ps) = (p < c.process_num) × ((t.table p).valid ≡ true) × (prio p ≡ h) × IsBest h ps

  IsBest-append :
      (h p : ℕ) (ps : List ℕ)
      → IsBest h ps
      → p < c.process_num
      → (t.table p).valid ≡ true
      → prio p ≡ h
      → IsBest h (ps ++ p ∷ [])
  IsBest-append h p [] b l v e = (l, v, e, tt)
  IsBest-append h p (x ∷ ps) b l v e = (b.0, b.1, b.2, IsBest-append h p ps b.3 l v e)

  -- What the loop knows when it has passed from `start` to `i`.
  record Seen (start i h : ℕ) (ps : List ℕ) : Type 0 where
    best : IsBest h ps
    least :
        (j : ℕ)
        → start ≤ j
        → j < i
        → (t.table (j % c.process_num)).valid ≡ true
        → (h ≤ prio (j % c.process_num))
          × (prio (j % c.process_num) ≡ h → contains (j % c.process_num) ps ≡ true)
    few : length ps ≤ i - start
    fresh : ps ≡ [] → h ≡ isize_max

  mod_lt' : (a : ℕ) → a % c.process_num < c.process_num
  mod_lt' a = grind arith

  pass :
      (start i h h' : ℕ) (ps ps' : List ℕ)
      → Seen start i h ps
      → IsBest h' ps'
      → length ps' ≤ i + 1 - start
      → (ps' ≡ [] → h' ≡ isize_max)
      → ((j : ℕ)
          → (h ≤ prio j) × (prio j ≡ h → contains j ps ≡ true)
          → (h' ≤ prio j) × (prio j ≡ h' → contains j ps' ≡ true))
      → ((t.table (i % c.process_num)).valid ≡ true
          → (h' ≤ prio (i % c.process_num))
            × (prio (i % c.process_num) ≡ h' → contains (i % c.process_num) ps' ≡ true))
      → Seen start (i + 1) h' ps'
  pass start i h h' ps ps' seen b l fr old new = record {
    fresh = fr;
    best = b;
    few = l;
    least = λ j from below v. elim (Bool-cases (j == i)) [
      | inl at ↦ let here : j ≡ i = ground arith in rw here (new (rw here at v))
      | inr before ↦ old (j % c.process_num) (seen.least j from (ground arith) v)
    ];
  }

  pass_invalid :
      (start i h : ℕ) (ps : List ℕ)
      → Seen start i h ps
      → (t.table (i % c.process_num)).valid ≡ false
      → Seen start (i + 1) h ps
  pass_invalid start i h ps seen e =
      pass start i h h ps ps seen seen.best (omega (arith, seen.few)) seen.fresh (λ j s. s)
        (λ v. cc)

  pass_better :
      (start i h : ℕ) (ps : List ℕ)
      → start ≤ i
      → Seen start i h ps
      → (t.table (i % c.process_num)).valid ≡ true
      → prio (i % c.process_num) < h
      → Seen start (i + 1) (prio (i % c.process_num)) (i % c.process_num ∷ [])
  pass_better start i h ps l seen v less =
      pass start i h _ ps _ seen (mod_lt' i, v, refl, tt) (omega arith) (λ e. cc)
        (λ j s. (omega (arith, s.0), λ e. absurd (omega (arith, s.0))))
        (λ _. (omega arith, λ _. unfold contains in ground arith))

  pass_equal :
      (start i h : ℕ) (ps : List ℕ)
      → start ≤ i
      → Seen start i h ps
      → (t.table (i % c.process_num)).valid ≡ true
      → prio (i % c.process_num) ≡ h
      → Seen start (i + 1) h (ps ++ i % c.process_num ∷ [])
  pass_equal start i h ps l seen v e =
      pass start i h h ps _ seen (IsBest-append h _ ps seen.best (mod_lt' i) v e)
        (omega (arith, seen.few, length-append ps (i % c.process_num ∷ [])))
        (λ e. absurd (append-ne-nil ps (i % c.process_num) e))
        (λ j s. (s.0, λ same. ground (arith, s.1 same, contains-append j (i % c.process_num) ps)))
        (λ _. (
          omega arith,
          λ _. ground (arith, contains-append (i % c.process_num) (i % c.process_num) ps),
        ))

  pass_worse :
      (start i h : ℕ) (ps : List ℕ)
      → Seen start i h ps
      → h < prio (i % c.process_num)
      → Seen start (i + 1) h ps
  pass_worse start i h ps seen more =
      pass start i h h ps ps seen seen.best (omega (arith, seen.few)) seen.fresh (λ j s. s)
        (λ v. (omega arith, λ e. absurd (omega arith)))

  -- The loop pushes to a vector with room, and what it knows holds at its end.
  best_processes-Seen :
      (n start i h : ℕ) (ps : List ℕ)
      → start ≤ i
      → i + n - start ≤ c.process_num
      → Seen start i h ps
      → Returns (λ ps'. (h' : ℕ) × Seen start (i + n) h' ps') (best_processes c n i cpu h ps t)
  unfolding best_processes
  best_processes-Seen zero start i h ps l k seen = (h, let e : i + 0 ≡ i = omega arith in rw e seen)
  best_processes-Seen (suc n) start i h ps l k seen =
      let e : i + suc n ≡ i + 1 + n = omega arith in
      let next = λ (h' : ℕ) (ps' : List ℕ) (s : Seen start (i + 1) h' ps').
        best_processes-Seen n start (i + 1) h' ps' (omega arith) (omega arith) s in
      rw e (elim (Bool-cases (t.table (i % c.process_num)).valid) [
        | inr invalid ↦ rw invalid (next h ps (pass_invalid start i h ps seen invalid))
        | inl valid ↦ elim (Bool-cases (ltb (prio (i % c.process_num)) h)) [
          | inl less ↦
              rw (valid, less) (next _ _ (pass_better start i h ps l seen valid (ground arith)))
          | inr not_less ↦ elim (Bool-cases (prio (i % c.process_num) == h)) [
            | inl equal ↦
                let room : ltb (length ps) c.process_num ≡ true = ground (arith, seen.few) in
                rw (valid, not_less, equal, room)
                  (next h _ (pass_equal start i h ps l seen valid (ground arith)))
            | inr other ↦
                rw (valid, not_less, other)
                  (next h ps (pass_worse start i h ps seen (ground arith)))
          ]
        ]
      ])

  -- The process chosen is valid, no valid process has a higher priority, and the current one is
  -- chosen if it is among the best.
  abbrev pub IsChoice : ℕ → ℕ → Type 0
  IsChoice current p =
      (p < c.process_num)
      × ((t.table p).valid ≡ true)
      × ((i : ℕ) → i < c.process_num → (t.table i).valid ≡ true → prio p ≤ prio i)
      × (current < c.process_num
          → (t.table current).valid ≡ true
          → prio current ≡ prio p
          → p ≡ current)

  best_of :
      (h x : ℕ) (ps : List ℕ)
      → IsBest h ps
      → contains x ps ≡ true
      → (x < c.process_num) × ((t.table x).valid ≡ true) × (prio x ≡ h)
  unfolding contains
  best_of h x [] b e = cc
  best_of h x (y ∷ ps) b e = elim (Bool-cases (y == x)) [
    | inl here ↦ let same : y ≡ x = ground arith in rw (← same) (b.0, b.1, b.2)
    | inr there ↦ best_of h x ps b.3 (ground arith)
  ]

  module _ (covered : IsCovered c t) (k : ℕ) (k_small : k < c.process_num)
      (k_valid : (t.table k).valid ≡ true) (k_prio : (t.table k).highest_prio cpu ≤ isize_max) where
    Seen-all :
        (start i h : ℕ) (ps : List ℕ)
        → start ≡ (if leb c.process_num t.next_i then t.next_i - c.process_num else 0)
        → i ≡ t.next_i
        → Seen start i h ps
        → (x : ℕ) → x < c.process_num
        → (t.table x).valid ≡ true
        → (h ≤ prio x) × (prio x ≡ h → contains x ps ≡ true)
    Seen-all start i h ps es ei seen x l v = elim (Bool-cases (leb c.process_num t.next_i)) [
      | inl full ↦
          let (j, from, below, same) = reach_index start c.process_num x l in
          subst (λ y. (h ≤ prio y) × (prio y ≡ h → contains y ps ≡ true)) same
            (seen.least j from (ground arith) (subst (λ y. (t.table y).valid ≡ true) (sym same) v))
      | inr part ↦
          let same : x % c.process_num ≡ x = mod-eq_of_lt l in
          subst (λ y. (h ≤ prio y) × (prio y ≡ h → contains y ps ≡ true)) same
            (seen.least x (ground arith) (ground (arith, covered x l v))
              (subst (λ y. (t.table y).valid ≡ true) (sym same) v))
    ]

    choose-IsChoice :
        (current h : ℕ) (ps : List ℕ)
        → IsBest h ps
        → (ps ≡ [] → h ≡ isize_max)
        → ((x : ℕ)
            → x < c.process_num
            → (t.table x).valid ≡ true
            → (h ≤ prio x) × (prio x ≡ h → contains x ps ≡ true))
        → Returns (IsChoice current) (choose current ps)
    unfolding choose
    choose-IsChoice current h [] b f all =
        let none_left : contains k [] ≡ true =
          (all k k_small k_valid).1 (omega (arith, f refl, (all k k_small k_valid).0)) in
        unfold contains in cc none_left
    choose-IsChoice current h (p ∷ ps) b f all = elim (Bool-cases (contains current (p ∷ ps))) [
      | inl member ↦
          let (l, v, e) = best_of h current (p ∷ ps) b member in
          rw member (l, v, λ i li vi. omega (arith, e, (all i li vi).0), λ _ _ _. refl)
      | inr other ↦ rw other (
        b.0,
        b.1,
        λ i li vi. omega (arith, b.2, (all i li vi).0),
        λ li vi e. cc ((all current li vi).1 (e ∙ b.2)),
      )
    ]

    -- If the scan passes every valid process, and one of them has a priority up to `isize::MAX`,
    -- `highest_prio_process` comes to a valid process with no panic. No valid process has a higher
    -- priority, and the current one is kept if it is among the best.
    pub highest_prio_process-IsChoice :
        (current : ℕ)
        → cpu < c.cpu_num
        → Returns (IsChoice current) (highest_prio_process c current cpu t)
    unfolding highest_prio_process
    highest_prio_process-IsChoice current h =
        let start : ℕ = if leb c.process_num t.next_i then t.next_i - c.process_num else 0 in
        let on_cpu : leb c.cpu_num cpu ≡ false = ground arith in
        let end : start + (t.next_i - start) ≡ t.next_i = ground arith in
        let nothing : Seen start start isize_max [] = record {
          best = tt;
          least = λ j from below v. absurd (omega arith);
          few = omega arith;
          fresh = λ _. refl;
        } in
        rw on_cpu (
          Returns->>= (λ ps. (h : ℕ) × Seen start (start + (t.next_i - start)) h ps)
            (IsChoice current) (best_processes c (t.next_i - start) start cpu isize_max [] t)
            (λ ps. choose current ps)
            (best_processes-Seen (t.next_i - start) start start isize_max [] (omega arith)
              (ground arith) nothing)
            (λ ps (h, seen).
              choose-IsChoice current h ps seen.best seen.fresh
                (Seen-all start _ h ps refl end seen)))
