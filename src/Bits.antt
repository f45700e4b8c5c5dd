-- ===== src/Bits.antt =====
-- Single-bit operations on a 64-bit word, as schedule/ready_queue.rs uses them: `b & (1 << i) != 0`,
-- `b | (1 << i)` and `b & !(1 << i)`, by recursion on the place of the bit.
use vsched.Base.{
  ℕ, zero, suc, ◌+◌, ◌*◌, ◌/◌, ◌%◌, ◌≤◌, ◌<◌, ◌≡◌, refl, inl, inr, Bool, true, false, Option, none,
  some, arith, ◌==◌, if◌then◌else◌, Bool-cases, ==_iff,
}

unfoldable pub test_bit : ℕ → ℕ → Bool
test_bit b zero = b % 2 == 1
test_bit b (suc i) = test_bit (b / 2) i

unfoldable pub set_bit : ℕ → ℕ → ℕ
set_bit b zero = b / 2 * 2 + 1
set_bit b (suc i) = set_bit (b / 2) i * 2 + b % 2

unfoldable pub clear_bit : ℕ → ℕ → ℕ
clear_bit b zero = b / 2 * 2
clear_bit b (suc i) = clear_bit (b / 2) i * 2 + b % 2

half_double : (a r : ℕ) → r < 2 → (a * 2 + r) / 2 ≡ a
half_double a r h = omega arith

pub test_bit-set_bit :
    (b i j : ℕ) → test_bit (set_bit b i) j ≡ (if i == j then true else test_bit b j)
unfolding test_bit set_bit
test_bit-set_bit b zero zero = ground arith
test_bit-set_bit b zero (suc j) = ground (arith, half_double (b / 2) 1)
test_bit-set_bit b (suc i) zero = ground arith
test_bit-set_bit b (suc i) (suc j) =
    ground (arith, half_double (set_bit (b / 2) i) (b % 2), test_bit-set_bit (b / 2) i j)

pub test_bit-clear_bit :
    (b i j : ℕ) → test_bit (clear_bit b i) j ≡ (if i == j then false else test_bit b j)
unfolding test_bit clear_bit
test_bit-clear_bit b zero zero = ground arith
test_bit-clear_bit b zero (suc j) = ground (arith, half_double (b / 2) 0)
test_bit-clear_bit b (suc i) zero = ground arith
test_bit-clear_bit b (suc i) (suc j) =
    ground (arith, half_double (clear_bit (b / 2) i) (b % 2), test_bit-clear_bit (b / 2) i j)

pub test_bit-zero : (j : ℕ) → test_bit 0 j ≡ false
unfolding test_bit
test_bit-zero zero = refl
test_bit-zero (suc j) = test_bit-zero j

unfoldable pub highest_one_from : ℕ → ℕ → Option ℕ
highest_one_from b zero = if test_bit b 0 then some 0 else none
highest_one_from b (suc i) =
    let rest = highest_one_from b i in if test_bit b (suc i) then some (suc i) else rest

-- The bit found is set and every bit above it, up to the start of the search, is clear.
pub highest_one_from-some :
    (b n k : ℕ)
    → k ≤ n
    → test_bit b k ≡ true
    → ((j : ℕ) → k < j → j ≤ n → test_bit b j ≡ false)
    → highest_one_from b n ≡ some k
unfolding highest_one_from
highest_one_from-some b zero zero h t above = rw t
highest_one_from-some b zero (suc k) h t above = absurd (omega arith)
highest_one_from-some b (suc n) k h t above = elim (Bool-cases (k == suc n)) [
  | inl e ↦ let p : k ≡ suc n = (==_iff k (suc n)).0 e in ground arith
  | inr e ↦
      rw (above (suc n) (ground arith) (omega arith))
        (highest_one_from-some b n k (ground arith) t (λ j p q. above j p (omega arith)))
]

pub highest_one_from-none :
    (b n : ℕ) → ((j : ℕ) → j ≤ n → test_bit b j ≡ false) → highest_one_from b n ≡ none
unfolding highest_one_from
highest_one_from-none b zero h = rw (h 0 (omega arith))
highest_one_from-none b (suc n) h =
    rw (h (suc n) (omega arith)) (highest_one_from-none b n (λ j p. h j (omega arith)))

-- A set bit bounds the one found from below.
pub highest_one_from-ge :
    (b n k : ℕ)
    → k ≤ n
    → test_bit b k ≡ true
    → (j : ℕ) × (highest_one_from b n ≡ some j) × (k ≤ j) × (j ≤ n)
unfolding highest_one_from
highest_one_from-ge b zero k h t =
    let e : k ≡ 0 = omega arith in (0, ground arith, omega arith, omega arith)
highest_one_from-ge b (suc n) k h t = elim (Bool-cases (test_bit b (suc n))) [
  | inl e ↦ (suc n, rw e refl, h, omega arith)
  | inr e ↦
      let below : k ≤ n = elim (Bool-cases (k == suc n)) [
        | inl p ↦ let q : k ≡ suc n = (==_iff k (suc n)).0 p in ground arith
        | inr p ↦ ground arith
      ] in
      let (j, found, ge, le) = highest_one_from-ge b n k below t in (j, rw e found, ge, omega arith)
]
