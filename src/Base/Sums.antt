-- ===== src/Base/Sums.antt =====
-- How often a number stands in a list, and sums over the cells of an array.
use Prim.Native.Nat.{ℕ, zero, suc, ◌+◌, ◌≤◌, ◌<◌}
use mathlib.Core.Path.{◌≡◌, refl}
use mathlib.Core.Logic.{inl, inr}
use mathlib.Core.Bool.{false}
use mathlib.Core.List.{List, [], ◌∷◌, ◌++◌, reverse, reverse-cons}
use native.Mathlib.Omega.{arith}
use vsched.Base.Tests.{◌==◌, if◌then◌else◌, Bool-cases}

abbrev pub copies : ℕ → List ℕ → ℕ
copies item [] = 0
copies item (y ∷ ys) = copies item ys + (if y == item then 1 else 0)

pub copies-append :
    (item : ℕ) (ys zs : List ℕ) → copies item (ys ++ zs) ≡ copies item zs + copies item ys
copies-append item [] zs = omega arith
copies-append item (y ∷ ys) zs = omega (copies-append item ys zs, arith)

pub copies-reverse : (a : ℕ) (xs : List ℕ) → copies a (reverse xs) ≡ copies a xs
copies-reverse a [] = refl
copies-reverse a (x ∷ xs) =
    rw (reverse-cons x xs)
      (omega (arith, copies-append a (reverse xs) (x ∷ []), copies-reverse a xs))

pub total : ℕ → (ℕ → ℕ) → ℕ
total zero f = 0
total (suc n) f = total n f + f n

pub total_same : (n : ℕ) (f g : ℕ → ℕ) → ((j : ℕ) → j < n → g j ≡ f j) → total n g ≡ total n f
unfolding total
total_same zero f g same = refl
total_same (suc n) f g same =
    omega (arith, total_same n f g (λ j h. same j (omega arith)), same n (omega arith))

-- Two arrays that differ in one cell.
pub total_change :
    (n i : ℕ) (f g : ℕ → ℕ)
    → i < n
    → ((j : ℕ) → (j == i) ≡ false → g j ≡ f j)
    → total n g + f i ≡ total n f + g i
unfolding total
total_change zero i f g h same = absurd (omega arith)
total_change (suc n) i f g h same = elim (Bool-cases (n == i)) [
  | inl here ↦
      let at : n ≡ i = ground arith in
      let below = total_same n f g (λ j k. same j (ground arith)) in ground (arith, below)
  | inr there ↦ omega (arith, total_change n i f g (ground arith) same, same n there)
]

pub total-zero : (n : ℕ) (f : ℕ → ℕ) → ((i : ℕ) → f i ≡ 0) → total n f ≡ 0
unfolding total
total-zero zero f h = refl
total-zero (suc n) f h = omega (arith, total-zero n f h, h n)

-- A cell is part of the sum, and two cells are.
pub total-ge : (n i : ℕ) (f : ℕ → ℕ) → i < n → f i ≤ total n f
unfolding total
total-ge zero i f h = absurd (omega arith)
total-ge (suc n) i f h = elim (Bool-cases (n == i)) [
  | inl here ↦ let at : n ≡ i = ground arith in rw at (omega arith)
  | inr there ↦ omega (arith, total-ge n i f (ground arith))
]
