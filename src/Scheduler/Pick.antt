-- ===== src/Scheduler/Pick.antt =====
-- schedule/scheduler.rs: the fold of `pop_task` picks the first source of the highest priority.
use vsched.Base.{
  ℕ, suc, ◌+◌, ◌≤◌, ◌<◌, ◌≡◌, ◌≢◌, refl, sym, ap, none, some, List, [], ◌∷◌, arith, ltb,
  if◌then◌else◌, length, get_elem?, ◌∙◌, ◌⊎◌,
}
use vsched.Config.{isize_max}
use vsched.Scheduler.{Choice, no_choice, choose_source}

-- What the choice says of the first `i` priorities of a list.
pub record IsChoice (all : List ℕ) (i : ℕ) (best : Choice) : Type 0 where
  pub nothing : best.first_index ≡ none → best.first_prio ≡ isize_max
  pub chosen :
      (k : ℕ) → best.first_index ≡ some k → (k < i) × (get_elem? all k ≡ some best.first_prio)
  pub least : (j p : ℕ) → j < i → get_elem? all j ≡ some p → best.first_prio ≤ p
  pub earliest :
      (k j p : ℕ)
      → best.first_index ≡ some k
      → j < k
      → get_elem? all j ≡ some p
      → best.first_prio < p
  pub second :
      (j p : ℕ)
      → j < i
      → get_elem? all j ≡ some p
      → best.first_index ≢ some j
      → best.second_prio ≤ p
  pub ordered : best.first_prio ≤ best.second_prio

at_or_below : (i j : ℕ) → j < i + 1 → (j ≡ i) ⊎ (j < i)
at_or_below i j l = omega arith

better : ℕ → ℕ → Choice → Choice
better i prio best =
    if ltb prio best.first_prio
    then record { first_index = some i; first_prio = prio; second_prio = best.first_prio }
    else if ltb prio best.second_prio
    then record best { second_prio = prio }
    else best

better-IsChoice :
    (all : List ℕ) (i prio : ℕ) (best : Choice)
    → get_elem? all i ≡ some prio
    → IsChoice all i best
    → IsChoice all (i + 1) (better i prio best)
unfolding better
better-IsChoice all i prio best e v = record {
  nothing = λ n. ground (arith, v.nothing);
  chosen = λ k q. ground (arith, v.chosen k);
  least = λ j p l q. ground (arith, v.least j p, v.ordered, at_or_below i j l);
  earliest = λ k j p q l r. ground (arith, v.earliest k j p, v.chosen k, v.least j p);
  second = λ j p l q ne. ground (arith, v.second j p, v.least j p, v.ordered, at_or_below i j l);
  ordered = ground (arith, v.ordered);
}

choose_source-step :
    (all rest : List ℕ) (i : ℕ) (best : Choice)
    → ((j : ℕ) → get_elem? rest j ≡ get_elem? all (i + j))
    → IsChoice all i best
    → IsChoice all (i + length rest) (choose_source i best rest)
unfolding choose_source better
choose_source-step all [] i best e v = let same : i + 0 ≡ i = omega arith in rw same v
choose_source-step all (x ∷ rest) i best e v =
    let same : i + suc (length rest) ≡ i + 1 + length rest = omega arith in
    rw same (
      choose_source-step all rest (i + 1) (better i x best)
        (λ j. e (suc j) ∙ ap (get_elem? all) (omega arith))
        (better-IsChoice all i x best (sym (e 0 ∙ ap (get_elem? all) (omega arith))) v))

-- The fold of `pop_task` over the priorities of the sources finds the first source of the highest
-- priority, and a second priority that none of the other sources is above. It finds none only with
-- `isize::MAX` as the highest priority.
pub choose_source-IsChoice :
    (prios : List ℕ) → IsChoice prios (length prios) (choose_source 0 no_choice prios)
unfolding no_choice
choose_source-IsChoice prios =
    let start : 0 + length prios ≡ length prios = omega arith in
    rw start at (
      choose_source-step prios prios 0 no_choice (λ j. ap (get_elem? prios) (omega arith))
        (record {
          nothing = λ _. refl;
          chosen = λ k e. cc;
          least = λ j p l e. absurd (omega arith);
          earliest = λ k j p e l q. cc;
          second = λ j p l e ne. absurd (omega arith);
          ordered = omega arith;
        }))
