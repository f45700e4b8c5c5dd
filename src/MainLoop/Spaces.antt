-- ===== src/MainLoop/Spaces.antt =====
-- main_loop.rs: how the CPU enters the address space of the process that it runs.
use vsched.Base.{
  ℕ, ◌<◌, ◌≡◌, ◌≢◌, refl, false, arith, leb, ◌==◌, update, done, Returns, Bool-cases, inl, inr,
}
use vsched.Config.{Config}
use vsched.MainLoop.{switch_vspace}
use vsched.Os.{Os}
use vsched.World.{World}

module _ {S : Type 0} (c : Config) (os : Os S) where
  pub switch_vspace_lem :
      (cpu pid : ℕ) (w : World S)
      → pid ≢ w.current_vspace cpu
      → pid < c.process_num
      → (w.process_info_table.table pid).vspace ≢ 0
      → switch_vspace c os cpu pid w
        ≡ done (
          tt,
          record w {
            current_vspace = update w.current_vspace cpu pid;
            os_state = os.into_vspace (w.process_info_table.table pid).vspace w.os_state;
          },
        )
  unfolding switch_vspace
  switch_vspace_lem cpu pid w other small there = ground arith

  pub switch_vspace-Returns :
      (cpu pid : ℕ) (w : World S)
      → pid < c.process_num
      → Returns
          (λ (_, w').
            (w'.current_vspace cpu ≡ pid)
            × (w' ≡ record w { current_vspace = w'.current_vspace; os_state = w'.os_state }))
          (switch_vspace c os cpu pid w)
  unfolding switch_vspace
  switch_vspace-Returns cpu pid w small =
      let v = (w.process_info_table.table pid).vspace in
      let within : leb c.process_num pid ≡ false = ground arith in
      elim (Bool-cases (pid == w.current_vspace cpu)) [
        | inl same ↦ rw same (ground arith, refl)
        | inr other ↦ elim (Bool-cases (v == 0)) [
          | inl nowhere ↦ rw (other, within, nowhere) (ground arith, refl)
          | inr there ↦ rw (other, within, there) (ground arith, refl)
        ]
      ]

  pub switch_vspace-current :
      (cpu pid : ℕ) (w : World S)
      → pid ≡ w.current_vspace cpu
      → switch_vspace c os cpu pid w
        ≡ done (tt, record w { current_vspace = update w.current_vspace cpu pid })
  unfolding switch_vspace
  switch_vspace-current cpu pid w same = ground arith
