-- ===== src/Arch/Blocks.antt =====
-- The assembly of the loop, on any architecture: each label starts a block of instructions, which
-- ends in a jump to another.
use vsched.Base.{ℕ, zero, suc, ◌≡◌, refl, ap, ◌∙◌, Outcome, done, panic, null_deref, spinning}
use vsched.Base.Outcomes.{◌>>=◌ as bind}
use vsched.Monad.{fail, M, pure, ◌>>=◌}
use vsched.World.{World}
use vsched.Arch.{Act, Label}
use vsched.Arch.Loop.{Point, Next, go, gives, idles, Exit, given, idle, loop_step, loop}

-- What a block comes to, with the registers `R`: a jump, or the CPU is given away or asleep.
pub data Jump (R : Type 0) : Type 0 where
  goto : Label → R → Jump R
  gone : Exit → Jump R

abbrev pub image : {R : Type 0} → (Label → R → Point) → Jump R → Next
image point_of (goto l r) = go (point_of l r)
image point_of (gone (given t)) = gives t
image point_of (gone idle) = idles

module _ {S R : Type 0} (block : Label → R → M S (Jump R)) where
  -- The blocks from a label on, for as many labels.
  unfoldable pub run_blocks : ℕ → Label → R → M S Exit
  run_blocks zero l r = λ w. spinning
  run_blocks (suc n) l r = do
    next ← block l r
    elim next [ goto l' r' ↦ run_blocks n l' r' | gone x ↦ pure x ]

  module _ (act : Act S) (point_of : Label → R → Point)
      (step : (l : Label) (r : R) (w : World S)
        → bind (block l r w) (λ (j, w'). done (image point_of j, w'))
          ≡ loop_step act fail (point_of l r) w) where
    abbrev next_run : ℕ → Jump R → M S Exit
    next_run n next = elim next [ goto l r ↦ run_blocks n l r | gone x ↦ λ w. done (x, w) ]

    abbrev next_loop : ℕ → Next → M S Exit
    next_loop n next = elim next [
      | go at ↦ loop act fail n at
      | gives t ↦ λ w. done (given t, w)
      | idles ↦ λ w. done (idle, w)
    ]

    go_on :
        (n : ℕ)
        → ((l : Label) (r : R) (w : World S)
            → run_blocks n l r w ≡ loop act fail n (point_of l r) w)
        → (o : Outcome (Jump R × World S))
        → bind o (λ (j, w). next_run n j w)
          ≡ bind (bind o (λ (j, w). done (image point_of j, w))) (λ (next, w). next_loop n next w)
    go_on n ih (done (goto l r, w)) = ih l r w
    go_on n ih (done (gone (given t), w)) = refl
    go_on n ih (done (gone idle, w)) = refl
    go_on n ih panic = refl
    go_on n ih null_deref = refl
    go_on n ih spinning = refl

    -- Where each block does one step of the loop, the blocks do the loop.
    pub run_blocks-loop :
        (n : ℕ) (l : Label) (r : R) (w : World S)
        → run_blocks n l r w ≡ loop act fail n (point_of l r) w
    unfolding run_blocks loop
    run_blocks-loop zero l r w = refl
    run_blocks-loop (suc n) l r w =
        go_on n (run_blocks-loop n) (block l r w)
        ∙ ap (λ o. bind o (λ (next, w'). next_loop n next w')) (step l r w)
