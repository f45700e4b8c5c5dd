-- ===== src/Base/Runs.antt =====
-- The steps of one CPU in a call: all of them, to the end of the call and no further.
use mathlib.Core.Path.{◌≡◌, refl, sym, subst, ◌∙◌}
use mathlib.Core.Bool.{Bool, true, false}

-- From the memory and the place of the CPU to those where the call ends. No step follows the end.
pub data Whole {M P : Type 0} (Move : M → P → M → P → Type 0) (is_end : P → Bool)
    : M → P → M → P → Type 0 where
  ended : {m : M} {p : P} → is_end p ≡ true → Whole Move is_end m p m p
  moved :
      {m m' m'' : M} {p p' p'' : P}
      → is_end p ≡ false
      → Move m p m' p'
      → Whole Move is_end m' p' m'' p''
      → Whole Move is_end m p m'' p''

-- The call comes to this end, and to no other.
abbrev pub Only : {M P : Type 0} → (M → P → M → P → Type 0) → (P → Bool) → M → P → M → P → Type 0
Only Move is_end m p m' p' =
    Whole Move is_end m p m' p'
    × ((n : _) (q : _) → Whole Move is_end m p n q → (n ≡ m') × (q ≡ p'))

-- Where each step inside a call is the one that `next` gives, a call has one end.
module _ {M P : Type 0} (Move : M → P → M → P → Type 0) (is_end : P → Bool) (next : M → P → M × P)
    (only : (m m' : M) (p p' : P) → is_end p ≡ false → Move m p m' p' → next m p ≡ (m', p')) where
  Whole-unique :
      {m m' n : M} {p p' q : P}
      → Whole Move is_end m p m' p'
      → Whole Move is_end m p n q
      → (n ≡ m') × (q ≡ p')
  Whole-unique (ended e) (ended f) = (refl, refl)
  Whole-unique (ended e) (moved f mv r) = cc (e, f)
  Whole-unique (moved e mv r) (ended f) = cc (e, f)
  Whole-unique {n} {q} (moved e mv r) (moved f mv' r') =
      let same = sym (only _ _ _ _ f mv') ∙ only _ _ _ _ e mv in
      Whole-unique r (subst (λ (s : M × P). Whole Move is_end s.0 s.1 n q) same r')

  pub Whole-Only : {m m' : M} {p p' : P} → Whole Move is_end m p m' p' → Only Move is_end m p m' p'
  Whole-Only run = (run, λ n q r. Whole-unique run r)
