-- ===== src/Monad.antt =====
-- The monad of the calls: each takes the state, and comes to a result and the next state.
use vsched.Base.{Bool, true, false, Outcome, done, panic}
use vsched.Base.Outcomes.{◌>>=◌ as bind}
use vsched.World.{World}

abbrev pub M : Type 0 → Type 0 → Type 0
M S A = World S → Outcome (A × World S)

module _ {S : Type 0} where
  abbrev pub pure : {A : Type 0} → A → M S A
  pure a w = done (a, w)

  infixl 5 ◌>>=◌ ◌>>◌
  abbrev pub ◌>>=◌ : {A B : Type 0} → M S A → (A → M S B) → M S B
  ◌>>=◌ m f w = bind (m w) λ (a, w'). f a w'

  abbrev pub ◌>>◌ : {B : Type 0} → M S (Unit {0}) → M S B → M S B
  m >> k = m >>= λ _. k

  abbrev pub get : M S (World S)
  get w = done (w, w)

  abbrev pub modify : (World S → World S) → M S (Unit {0})
  modify f w = done (tt, f w)

  abbrev pub fail : {A : Type 0} → M S A
  fail w = panic

  -- A call that reads and does not write.
  abbrev pub lift : {A : Type 0} → Outcome A → M S A
  lift m w = bind m λ a. done (a, w)

  -- `assert!`.
  abbrev pub check : Bool → M S (Unit {0})
  check true w = done (tt, w)
  check false w = panic
