-- ===== src/Process/Interleaved/Alone.antt =====
-- schedule/process_info.rs: the steps of `register_process` and `unregister_process` when no other
-- CPU comes between.
use vsched.Base.{
  Bool, true, ◌-◌, if◌then◌else◌, Whole, ended, moved, Only, Whole-Only, ℕ, zero, suc, ◌+◌, ◌%◌,
  ◌^◌, ◌<◌, ◌≡◌, refl, ap, sym, subst, ◌∙◌, false, Option, none, some, arith, ◌==◌, update,
  Bool-cases, inl, inr, Ensures, Ensures-map, Returns-Ensures, Returns, leb,
}
use vsched.Config.{Config}
use vsched.Os.{Os}
use vsched.Process.{
  ProcessInfoTable, bump, set_valid, register_from, register_process, unregister_process,
}
use vsched.Process.Register.{Registers, register_process-Registers}
use vsched.Process.Interleaved.{
  Shared, Pc, idle, failed, dropping, next_index, drawn, bumped, Move, draw, swap_free, swap_taken,
  draw_next, none_left, unregister, swap_false,
}

-- A call of a CPU ends where the CPU is in no call.
abbrev pub is_end : Pc → Bool
is_end idle = true
is_end p = false

abbrev next_step : Config → Shared → Pc → Shared × Pc
next_step c m idle = (m, idle)
next_step c m (drawn start index) = if m.valid index then (m, failed start) else (
  record m { valid = update m.valid index true; given = update m.given index (m.given index + 1) },
  idle,
)
next_step c m (failed start) =
    (bumped m, if next_index c m == start then idle else drawn start (next_index c m))
next_step c m (dropping pid) = (record m { valid = update m.valid pid false }, idle)

Move-next_step :
    (c : Config) {m m' : Shared} {p p' : Pc}
    → is_end p ≡ false
    → Move c m p m' p'
    → next_step c m p ≡ (m', p')
Move-next_step c e draw = cc e
Move-next_step c e (swap_free h) = rw h refl
Move-next_step c e (swap_taken h) = rw h refl
Move-next_step c e (draw_next h) = rw h refl
Move-next_step c e (none_left h) = rw h refl
Move-next_step c e (unregister pid owned) = cc e
Move-next_step c e swap_false = refl

-- All steps of a call from `p`, if no other CPU comes between, end with `m'`.
abbrev pub Ends : Config → Shared → Pc → Shared → Type 0
Ends c m p m' = Only (Move c) is_end m p m' idle

Whole-Ends :
    (c : Config) {m m' : Shared} {p : Pc} → Whole (Move c) is_end m p m' idle → Ends c m p m'
Whole-Ends c run =
    Whole-Only (Move c) is_end (next_step c) (λ n n' r r' e mv. Move-next_step c e mv) run

-- The flags and the counter are those of the table.
abbrev pub IsSame : Shared → ProcessInfoTable → Type 0
IsSame m t = ((i : ℕ) → m.valid i ≡ (t.table i).valid) × (m.next_i ≡ t.next_i)

abbrev pub given_after : Option ℕ → Shared → ℕ → ℕ
given_after none m = m.given
given_after (some pid) m = update m.given pid (m.given pid + 1)

-- The steps of a lone CPU from `p` come to the end of the call, and to what the call says.
abbrev Leaves : Config → Shared → Pc → Option ℕ × ProcessInfoTable → Type 0
Leaves c m p (found, t') =
    (m' : Shared) × Whole (Move c) is_end m p m' idle
    × IsSame m' t'
    × (m'.given ≡ given_after found m)

given_after-bumped :
    (found : Option ℕ) (m : Shared) → given_after found (bumped m) ≡ given_after found m
given_after-bumped none m = refl
given_after-bumped (some pid) m = refl

module _ (c : Config) where
  register_from-Leaves :
      (n start index : ℕ) (m : Shared) (t : ProcessInfoTable)
      → IsSame m t
      → Ensures (Leaves c m (drawn start index)) (register_from c n start index t)
  unfolding register_from bump set_valid
  register_from-Leaves zero start index m t same = tt
  register_from-Leaves (suc n) start index m t (valid, counter) =
      elim (Bool-cases (t.table index).valid) [
        | inr free ↦ rw free (
          _,
          moved refl (swap_free (valid index ∙ free)) (ended refl),
          (λ i. ground (arith, valid i), counter),
          refl,
        )
        | inl taken ↦
            let drawn_next : m.next_i % c.process_num ≡ t.next_i % c.process_num =
              ap (λ (k : ℕ). k % c.process_num) counter in
            elim (Bool-cases (t.next_i % c.process_num == start)) [
              | inl around ↦
                  rw (taken, around)
                    (
                      bumped m,
                      moved refl (swap_taken (valid index ∙ taken)) (
                          moved refl (none_left (ap (λ k. k == start) drawn_next ∙ around))
                            (ended refl)),
                      (valid, ap (λ (k : ℕ). (k + 1) % 2 ^ 64) counter),
                      refl,
                    )
              | inr on ↦
                  rw (taken, on)
                    (Ensures-map (Leaves c (bumped m) (drawn start (t.next_i % c.process_num)))
                      (Leaves c m (drawn start index))
                      (register_from c n start (t.next_i % c.process_num) (bump t))
                      (register_from-Leaves n start (t.next_i % c.process_num) (bumped m) (bump t)
                        (valid, ap (λ (k : ℕ). (k + 1) % 2 ^ 64) counter))
                      (λ (found, t') (m', run, same, given). (
                        m',
                        moved refl (swap_taken (valid index ∙ taken)) (
                            moved refl (draw_next (ap (λ k. k == start) drawn_next ∙ on)) (
                              subst (λ k. Whole (Move c) is_end (bumped m) (drawn start k) m' idle)
                                (sym drawn_next) run)),
                        same,
                        given ∙ given_after-bumped found m,
                      )))
            ]
      ]

  -- The steps of `register_process` in a call that is not disturbed: it draws a number, and then
  -- has one way to the end of the call.
  abbrev pub Draws : Shared → Option ℕ × ProcessInfoTable → Type 0
  Draws m (found, t') =
      let first = next_index c m in
      Move c m idle (bumped m) (drawn first first)
      × (m' : Shared) × Ends c (bumped m) (drawn first first) m'
      × IsSame m' t'
      × (m'.given ≡ given_after found m)

  register_process-Draws :
      (m : Shared) (t : ProcessInfoTable) → IsSame m t → Ensures (Draws m) (register_process c t)
  unfolding register_process bump
  register_process-Draws m t (valid, counter) =
      let first = t.next_i % c.process_num in
      let drawn_first : m.next_i % c.process_num ≡ first =
        ap (λ (k : ℕ). k % c.process_num) counter in
      Ensures-map (Leaves c (bumped m) (drawn first first)) (Draws m)
        (register_from c c.process_num first first (bump t))
        (register_from-Leaves c.process_num first first (bumped m) (bump t)
          (valid, ap (λ (k : ℕ). (k + 1) % 2 ^ 64) counter))
        (λ (found, t') (m', run, same, given). (
          draw,
          m',
          Whole-Ends c (
              subst (λ k. Whole (Move c) is_end (bumped m) (drawn k k) m' idle) (sym drawn_first)
                run),
          same,
          given ∙ given_after-bumped found m,
        ))

  -- The steps of `unregister_process` of a number that is given out: they take the number back, and
  -- then have one way to the end of the call.
  abbrev pub Drops : ℕ → Shared → Bool × ProcessInfoTable → Type 0
  Drops pid m (was_valid, t') =
      let m1 = record m { given = update m.given pid (m.given pid - 1) } in
      Move c m idle m1 (dropping pid)
      × (m' : Shared) × Ends c m1 (dropping pid) m'
      × IsSame m' t'
      × (m'.given ≡ m1.given)
      × (was_valid ≡ m.valid pid)

  -- A lone CPU, while the counter stays under 2 ^ 64: no other CPU comes between, and the flags and
  -- the counter are those of the table. `register_process` returns; its steps have one way from the
  -- first number that they draw to the end of the call, with the flags and the counter of the table
  -- that it leaves, and the number that it gives, if any, is given out once more.
  -- `unregister_process` of a number below `process_num` that is given out returns the flag of the
  -- number; its steps have one way from taking the number back to the end of the call, with the
  -- flags and the counter of the table that it leaves.
  pub steps_alone :
      {S : Type 0} (os : Os S) (pid : ℕ) (m : Shared) (t : ProcessInfoTable) (s : S)
      → IsSame m t
      → t.next_i + c.process_num < 2 ^ 64
      → pid < c.process_num
      → 0 < m.given pid
      → Returns (Draws m) (register_process c t)
        × Returns
            (λ (was_valid, t', s'). Drops pid m (was_valid, t'))
            (unregister_process c os pid t s)
  unfolding unregister_process
  steps_alone os pid m t s (valid, counter) room small owned =
      let size : 0 < c.process_num = omega arith in
      let within : leb c.process_num pid ≡ false = ground arith in
      (
        Returns-Ensures (Registers c t size room) (Draws m) (register_process c t)
            (register_process-Registers c t size room)
            (register_process-Draws m t (valid, counter)),
        rw within (
          unregister pid owned,
          _,
          Whole-Ends c (moved refl swap_false (ended refl)),
          (λ i. ground (arith, valid i), counter),
          refl,
          sym (valid pid),
        ),
      )
