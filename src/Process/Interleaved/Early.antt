-- ===== src/Process/Interleaved/Early.antt =====
-- schedule/process_info.rs on two CPUs: `register_process` that gives up while numbers are free.
use vsched.Base.{
  ℕ, zero, suc, mod_of_mul_add, subst, ap, sym, ◌+◌, ◌-◌, ◌*◌, ◌%◌, ◌^◌, ◌<◌, ◌≡◌, refl, false,
  arith, ◌==◌, update,
}
use vsched.Config.{Config}
use vsched.Process.Interleaved.{
  Shared, Pc, idle, failed, bumped, next_index, Move, draw, swap_free, swap_taken, none_left,
  unregister, swap_false, System, pick, init, Reach, start, later,
}

-- Only the kernel is registered, the counter is at `n`, CPU 0 stands at `p`, CPU 1 is in no call.
record IsQuiet (n : ℕ) (p : Pc) (s : System) : Type 0 where
  kernel : (i : ℕ) → s.mem.valid i ≡ (i == 0)
  counter : s.mem.next_i ≡ n
  first : s.pc 0 ≡ p
  second : s.pc 1 ≡ idle

step_at :
    {c : Config} {s : System} (cpu : ℕ) {m : Shared} {p p' : Pc}
    → Reach c s
    → s.pc cpu ≡ p
    → Move c s.mem p m p'
    → Reach c (record { mem = m; pc = update s.pc cpu p' })
step_at {c} {s} cpu {m} {p' = p'} r at move =
    later r (pick cpu (subst (λ q. Move c s.mem q m p') (sym at) move))

module _ (c : Config) (p : Pc) where
  -- CPU 1 registers a process and unregisters it.
  one_call :
      (n : ℕ) (s : System)
      → Reach c s
      → IsQuiet n p s
      → 0 < n % c.process_num
      → n + 1 < 2 ^ 64
      → (t : System) × Reach c t × IsQuiet (n + 1) p t
  one_call n s r q free small =
      let index = next_index c s.mem in
      let at : index ≡ n % c.process_num = ap (λ (k : ℕ). k % c.process_num) q.counter in
      let has = step_at 1 r q.second draw in
      let got = step_at 1 has refl (swap_free (ground (arith, q.kernel index, at))) in
      let left = step_at 1 got refl (unregister index (ground arith)) in
      let freed = step_at 1 left refl swap_false in
      (
        _,
        freed,
        record {
          kernel = λ i. ground (arith, q.kernel i, at);
          counter = ground (arith, q.counter);
          first = q.first;
          second = refl;
        },
      )

  at_counter : {n n' : ℕ} {s : System} → n ≡ n' → IsQuiet n p s → IsQuiet n' p s
  at_counter {s} e q = subst (λ k. IsQuiet k p s) e q

  many_calls :
      (k : ℕ) (s : System)
      → Reach c s
      → IsQuiet (k * c.process_num + 1) p s
      → (m : ℕ) → m < c.process_num
      → k * c.process_num + c.process_num < 2 ^ 64
      → (t : System) × Reach c t × IsQuiet (k * c.process_num + (m + 1)) p t
  many_calls k s r q zero h small = (s, r, at_counter (omega arith) q)
  many_calls k s r q (suc m) h small =
      let (t, r', q') = many_calls k s r q m (omega arith) small in
      let (u, r'', q'') =
        one_call (k * c.process_num + (m + 1)) t r' q'
          (ground (arith, mod_of_mul_add k c.process_num (m + 1) (omega arith))) (omega arith) in
      (u, r'', at_counter (omega arith) q'')

-- CPU 0 draws 0, the number of the kernel, first.
kernel_first :
    (c : Config) (s : System)
    → Reach c s
    → IsQuiet (1 * c.process_num) idle s
    → 0 < c.process_num
    → 2 * c.process_num < 2 ^ 64
    → (t : System) × Reach c t × IsQuiet (1 * c.process_num + 1) (failed 0) t
kernel_first c s r q some_number small =
    let at : next_index c s.mem ≡ 0 = ground (arith, q.counter, mod_of_mul_add 1 c.process_num 0) in
    let has = step_at 0 r q.first draw in
    let index = next_index c s.mem in
    let tried =
      step_at 0 has refl
        (swap_taken {start = index} {index = index} (ground (arith, q.kernel index, at))) in
    (
      _,
      tried,
      record {
        kernel = q.kernel;
        counter = ground (arith, q.counter);
        first = ap failed at;
        second = q.second;
      },
    )

-- Where there are two processes at least, two CPUs come to this: CPU 0 is in `register_process`,
-- which drew 0 first, and the counter is at 0 again, so its next step is the last one and returns
-- `None`, but every number except 0 is free. CPU 1 registered and unregistered a process so often
-- that the counter went around.
pub none_early :
    (c : Config)
    → 1 < c.process_num
    → 2 * c.process_num < 2 ^ 64
    → (s : System) × Reach c s
      × (s.pc 0 ≡ failed 0)
      × Move c s.mem (failed 0) (bumped s.mem) idle
      × ((i : ℕ) → 0 < i → s.mem.valid i ≡ false)
none_early c many small =
    let first_round : IsQuiet (0 * c.process_num + 1) idle init = record {
      kernel = λ i. refl;
      counter = ground arith;
      first = refl;
      second = refl;
    } in
    let (s, r, q) =
      many_calls c idle 0 init start first_round (c.process_num - 1) (omega arith) (omega arith) in
    let (t, r', q') = kernel_first c s r (at_counter c idle (omega arith) q) (omega arith) small in
    let (u, r'', q'') =
      many_calls c (failed 0) 1 t r' q' (c.process_num - 1) (omega arith) (omega arith) in
    (
      u,
      r'',
      q''.first,
      none_left (ground (arith, q''.counter, mod_of_mul_add 2 c.process_num 0)),
      λ i h. ground (arith, q''.kernel i),
    )
