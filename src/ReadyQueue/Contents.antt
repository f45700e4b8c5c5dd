-- ===== src/ReadyQueue/Contents.antt =====
-- schedule/ready_queue.rs: the queues of all levels as one list, the highest priority first and, in
-- one priority, the oldest first.
use mathlib.Core.List.{append_assoc}
use vsched.Base.{
  ℕ, zero, suc, ◌+◌, ◌-◌, ◌≤◌, ◌<◌, ◌≡◌, refl, sym, ap, ◌∙◌, ◌↔◌, inl, inr, true, false, List, [],
  ◌++◌, arith, ◌==◌, if◌then◌else◌, is_empty, update, List-cases, Bool-cases,
}

-- The first of the `n` levels from `level` on with a task, or the end of the range.
unfoldable pub first_ready : ℕ → ℕ → (ℕ → List ℕ) → ℕ
first_ready zero level f = level
first_ready (suc n) level f =
    let later = first_ready n (level + 1) f in if is_empty (f level) then later else level

pub first_ready-le :
    (n level : ℕ) (f : ℕ → List ℕ)
    → (level ≤ first_ready n level f) × (first_ready n level f ≤ level + n)
unfolding first_ready
first_ready-le zero level f = omega arith
first_ready-le (suc n) level f = ground (arith, first_ready-le n (level + 1) f)

pub first_ready-pos : (n : ℕ) (f : ℕ → List ℕ) → 0 < n → f 0 ≡ [] → 0 < first_ready n 0 f
unfolding first_ready
first_ready-pos zero f h e = absurd (omega arith)
first_ready-pos (suc n) f h e = ground (arith, first_ready-le n (0 + 1) f)

pub first_ready_before :
    (n level i : ℕ) (f : ℕ → List ℕ) → level ≤ i → i < first_ready n level f → is_empty (f i) ≡ true
unfolding first_ready
first_ready_before zero level i f h k = absurd (omega arith)
first_ready_before (suc n) level i f h k = elim (Bool-cases (level == i)) [
  | inl e ↦ ground arith
  | inr e ↦ ground (arith, first_ready_before n (level + 1) i f)
]

pub first_ready_at :
    (n level : ℕ) (f : ℕ → List ℕ)
    → first_ready n level f < level + n
    → is_empty (f (first_ready n level f)) ≡ false
unfolding first_ready
first_ready_at zero level f h = absurd (omega arith)
first_ready_at (suc n) level f h = ground (arith, first_ready_at n (level + 1) f)

unfoldable pub contents_from : ℕ → ℕ → (ℕ → List ℕ) → List ℕ
contents_from zero level f = []
contents_from (suc n) level f = f level ++ contents_from n (level + 1) f

-- Cells under the range do not count.
pub contents_from-update_below :
    (n level i : ℕ) (f : ℕ → List ℕ) (x : List ℕ)
    → i < level
    → contents_from n level (update f i x) ≡ contents_from n level f
unfolding contents_from
contents_from-update_below zero level i f x h = refl
contents_from-update_below (suc n) level i f x h =
    ground (arith, contents_from-update_below n (level + 1) i f x)

pub first_ready-contents :
    (n level : ℕ) (f : ℕ → List ℕ)
    → (first_ready n level f ≡ level + n) ↔ (contents_from n level f ≡ [])
unfolding first_ready contents_from
first_ready-contents zero level f = (λ _. refl, λ _. omega arith)
first_ready-contents (suc n) level f = elim (List-cases (f level)) [
  | inl e ↦ (
    λ h. ground (arith, (first_ready-contents n (level + 1) f).0),
    λ h. ground (arith, (first_ready-contents n (level + 1) f).1),
  )
  | inr (task, rest, e) ↦ (λ h. ground arith, λ h. ground arith)
]

contents_from-split :
    (m n s level : ℕ) (f : ℕ → List ℕ)
    → s ≡ m + n
    → contents_from s level f ≡ contents_from m level f ++ contents_from n (level + m) f
unfolding contents_from
contents_from-split zero n s level f e =
    let same : s ≡ n = omega arith in let here : level + 0 ≡ level = omega arith in rw (same, here)
contents_from-split (suc m) n zero level f e = absurd (omega arith)
contents_from-split (suc m) n (suc s) level f e =
    let next : level + 1 + m ≡ level + suc m = omega arith in
    rw (contents_from-split m n s (level + 1) f (omega arith), next)
      (sym (
        append_assoc (f level) (contents_from m (level + 1) f) (contents_from n (level + suc m) f)))

contents_from-update_above :
    (n level i : ℕ) (f : ℕ → List ℕ) (x : List ℕ)
    → level + n ≤ i
    → contents_from n level (update f i x) ≡ contents_from n level f
unfolding contents_from
contents_from-update_above zero level i f x h = refl
contents_from-update_above (suc n) level i f x h =
    ground (arith, contents_from-update_above n (level + 1) i f x)

-- The task list with one level's queue replaced.
pub contents_from-around :
    (n i : ℕ) (f : ℕ → List ℕ) (x : List ℕ)
    → i < n
    → contents_from n 0 (update f i x)
      ≡ contents_from i 0 f ++ (x ++ contents_from (n - suc i) (i + 1) f)
contents_from-around n i f x h =
    contents_from-split i (suc (n - suc i)) n 0 (update f i x) (omega arith)
    ∙ rw (contents_from-update_above i 0 i f x (omega arith)) (ap (◌++◌ (contents_from i 0 f)) here)
  where
    here :
        contents_from (suc (n - suc i)) (0 + i) (update f i x)
        ≡ x ++ contents_from (n - suc i) (i + 1) f
    here =
        unfold contents_from in
        ground (arith, contents_from-update_below (n - suc i) (0 + i + 1) i f x)

pub contents_from-whole :
    (n i : ℕ) (f : ℕ → List ℕ)
    → i < n
    → contents_from n 0 f ≡ contents_from i 0 f ++ (f i ++ contents_from (n - suc i) (i + 1) f)
contents_from-whole n i f h =
    contents_from-split i (suc (n - suc i)) n 0 f (omega arith)
    ∙ ap (◌++◌ (contents_from i 0 f)) here
  where
    start : 0 + i ≡ i
    start = omega arith

    here : contents_from (suc (n - suc i)) (0 + i) f ≡ f i ++ contents_from (n - suc i) (i + 1) f
    here = unfold contents_from in rw start refl
