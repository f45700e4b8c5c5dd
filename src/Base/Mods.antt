-- ===== src/Base/Mods.antt =====
-- Remainders: the indices that a counter passes through, modulo the size of a table.
use Prim.Native.Nat.{ℕ, ◌+◌, ◌*◌, ◌/◌, ◌%◌, ◌≤◌, ◌<◌}
use mathlib.Core.Path.{◌≡◌, ◌∙◌}
use native.Mathlib.Nat.{mul-add-mod_self_right, mod-eq_of_lt}
use native.Mathlib.Omega.{arith}

pub mod_of_mul_add : (q n k : ℕ) → k < n → (q * n + k) % n ≡ k
mod_of_mul_add q n k h = mul-add-mod_self_right q n k ∙ mod-eq_of_lt h

pub split_mod : (s n : ℕ) → 0 < n → (s / n * n + s % n ≡ s) × (s % n < n)
split_mod s n h = grind arith

-- A counter comes back to an index after n steps and not before.
pub mod_returns : (s m n : ℕ) → 0 < m → m ≤ n → (s + m) % n ≡ s % n → m ≡ n
mod_returns s m n h k e = grind arith

pub mod_add_self : (s n : ℕ) → 0 < n → (s + n) % n ≡ s % n
mod_add_self s n h = grind arith
