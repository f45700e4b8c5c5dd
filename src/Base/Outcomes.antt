-- ===== src/Base/Outcomes.antt =====
-- What a call may come to: a value, a panic (an `assert!`, an `unwrap`, an index out of bounds,
-- `unreachable!`), a null pointer followed, or a wait that has not ended within the fuel.
use mathlib.Core.Path.{◌≡◌, refl, ap, subst}
use mathlib.Core.Bool.{Bool, true, false}

pub data Outcome {ℓ} (A : Type ℓ) : Type ℓ where
  done : A → Outcome A
  panic : Outcome A
  null_deref : Outcome A
  spinning : Outcome A

-- Rust's `Result`.
pub data Result {ℓ κ} (A : Type ℓ) (E : Type κ) : Type (ℓ ⊔ κ) where
  ok : A → Result A E
  err : E → Result A E

infixl 5 ◌>>=◌
abbrev pub ◌>>=◌ {ℓ κ} : {A : Type ℓ} {B : Type κ} → Outcome A → (A → Outcome B) → Outcome B
done a >>= f = f a
panic >>= f = panic
null_deref >>= f = null_deref
spinning >>= f = spinning

-- `assert!`.
abbrev pub assert : Bool → Outcome (Unit {0})
assert true = done tt
assert false = panic

infixl 5 ◌>>◌
abbrev pub ◌>>◌ {κ} : {B : Type κ} → Outcome (Unit {0}) → Outcome B → Outcome B
m >> k = m >>= λ _. k

-- The call comes to a value, of which `P` holds.
abbrev pub Returns {ℓ} : {A : Type ℓ} → (A → Type 0) → Outcome A → Type 0
Returns P (done a) = P a
Returns P panic = ⊥
Returns P null_deref = ⊥
Returns P spinning = ⊥

pub Returns->>= {ℓ κ} :
    {A : Type ℓ} {B : Type κ} (P : A → Type 0) (Q : B → Type 0) (m : Outcome A) (f : A → Outcome B)
    → Returns P m
    → ((a : A) → P a → Returns Q (f a))
    → Returns Q (m >>= f)
Returns->>= P Q (done a) f p k = k a p
Returns->>= P Q panic f p k = absurd p
Returns->>= P Q null_deref f p k = absurd p
Returns->>= P Q spinning f p k = absurd p

-- A call that comes to a value comes to one that can be named.
pub Returns-done {ℓ} :
    {A : Type ℓ} (P : A → Type 0) (m : Outcome A) → Returns P m → (a : A) × (m ≡ done a) × P a
Returns-done P (done a) p = (a, refl, p)
Returns-done P panic p = absurd p
Returns-done P null_deref p = absurd p
Returns-done P spinning p = absurd p

pub Returns-map {ℓ} :
    {A : Type ℓ} (P Q : A → Type 0) (m : Outcome A)
    → Returns P m
    → ((a : A) → P a → Q a)
    → Returns Q m
Returns-map P Q (done a) p k = k a p
Returns-map P Q panic p k = absurd p
Returns-map P Q null_deref p k = absurd p
Returns-map P Q spinning p k = absurd p

-- If the call comes to a value, `P` holds of it.
abbrev pub Ensures {ℓ} : {A : Type ℓ} → (A → Type 0) → Outcome A → Type 0
Ensures P (done a) = P a
Ensures P panic = Unit {0}
Ensures P null_deref = Unit {0}
Ensures P spinning = Unit {0}

pub Ensures->>= {ℓ κ} :
    {A : Type ℓ} {B : Type κ} (P : A → Type 0) (Q : B → Type 0) (m : Outcome A) (f : A → Outcome B)
    → Ensures P m
    → ((a : A) → P a → Ensures Q (f a))
    → Ensures Q (m >>= f)
Ensures->>= P Q (done a) f p k = k a p
Ensures->>= P Q panic f p k = tt
Ensures->>= P Q null_deref f p k = tt
Ensures->>= P Q spinning f p k = tt

pub Ensures-map {ℓ} :
    {A : Type ℓ} (P Q : A → Type 0) (m : Outcome A)
    → Ensures P m
    → ((a : A) → P a → Q a)
    → Ensures Q m
Ensures-map P Q (done a) p k = k a p
Ensures-map P Q panic p k = tt
Ensures-map P Q null_deref p k = tt
Ensures-map P Q spinning p k = tt

abbrev value_or {ℓ} : {A : Type ℓ} → A → Outcome A → A
value_or b (done a) = a
value_or b panic = b
value_or b null_deref = b
value_or b spinning = b

-- A call that comes to a value, with what it ensures of the value.
pub Returns-Ensures {ℓ} :
    {A : Type ℓ} (P Q : A → Type 0) (m : Outcome A) → Returns P m → Ensures Q m → Returns Q m
Returns-Ensures P Q (done a) p q = q
Returns-Ensures P Q panic p q = absurd p
Returns-Ensures P Q null_deref p q = absurd p
Returns-Ensures P Q spinning p q = absurd p

-- What a call ensures holds of the value it comes to.
pub Ensures-done {ℓ} :
    {A : Type ℓ} (P : A → Type 0) (m : Outcome A) (a : A) → Ensures P m → m ≡ done a → P a
Ensures-done P (done b) a p e = subst P (ap (λ r. value_or b r) e) p
Ensures-done P panic a p e = cc
Ensures-done P null_deref a p e = cc
Ensures-done P spinning a p e = cc
