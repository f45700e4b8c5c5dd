-- ===== src/Process/Interleaved/Unique.antt =====
-- schedule/process_info.rs on several CPUs: no number is given out twice.
use vsched.Base.{ℕ, ◌≤◌, ◌<◌, ◌≡◌, refl, true, false, arith, update, Bool-cases}
use vsched.Config.{Config}
use vsched.Process.Interleaved.{
  Shared, Pc, dropping, Move, swap_free, unregister, swap_false, System, pick, Reach, start, later,
}

-- A number is given out once at most, and then valid; one that a CPU is about to free is valid and
-- given out to nobody else.
record IsUnique (m : Shared) (pc : ℕ → Pc) : Type 0 where
  once : (pid : ℕ) → m.given pid ≤ 1
  unused : (pid : ℕ) → m.valid pid ≡ false → m.given pid ≡ 0
  dropped : (cpu pid : ℕ) → pc cpu ≡ dropping pid → (m.valid pid ≡ true) × (m.given pid ≡ 0)
  alone : (i j pid : ℕ) → pc i ≡ dropping pid → pc j ≡ dropping pid → i ≡ j

abbrev Guard : {c : Config} {m m' : Shared} {p p' : Pc} → Move c m p m' p' → Type 0
Guard {m} (swap_free {index} e) = m.valid index ≡ false
Guard {m} (unregister pid h) = 0 < m.given pid
Guard _ = Unit

guard : {c : Config} {m m' : Shared} {p p' : Pc} (mv : Move c m p m' p') → Guard mv
guard (swap_free e) = e
guard (unregister pid h) = h
guard _ = tt

module _ (c : Config) {m : Shared} {pc : ℕ → Pc} (inv : IsUnique m pc) (cpu : ℕ) where
  open inv use {once, unused, dropped, alone}

  Move-once : {p p' : Pc} {m' : Shared} → Move c m p m' p' → (pid : ℕ) → m'.given pid ≤ 1
  Move-once (swap_free {index} e) pid = ground (arith, once pid, unused index e)
  Move-once (unregister k h) pid = ground (arith, once pid, once k)
  Move-once mv pid = ground (arith, once pid)

  Move-unused :
      {p p' : Pc} {m' : Shared}
      → Move c m p m' p'
      → pc cpu ≡ p
      → (pid : ℕ) → m'.valid pid ≡ false
      → m'.given pid ≡ 0
  Move-unused (swap_free {index} g) e pid h = ground (arith, unused pid)
  Move-unused (unregister k g) e pid h = ground (arith, unused pid, once k)
  Move-unused (swap_false {pid = k}) e pid h = ground (arith, unused pid, dropped cpu k e)
  Move-unused mv e pid h = ground (arith, unused pid)

  Move-dropped :
      {p p' : Pc} {m' : Shared}
      → Move c m p m' p'
      → pc cpu ≡ p
      → (i pid : ℕ) → update pc cpu p' i ≡ dropping pid
      → (m'.valid pid ≡ true) × (m'.given pid ≡ 0)
  Move-dropped (swap_free {index} g) e i pid q = ground (arith, dropped i pid)
  Move-dropped (unregister k g) e i pid q =
      ground (arith, dropped i pid, once k, unused k, Bool-cases (m.valid k))
  Move-dropped (swap_false {pid = k}) e i pid q = ground (arith, dropped i pid, alone i cpu pid)
  Move-dropped mv e i pid q = ground (arith, dropped i pid)

  Move-alone :
      {p p' : Pc} {m' : Shared}
      → Move c m p m' p'
      → pc cpu ≡ p
      → (i j pid : ℕ) → update pc cpu p' i ≡ dropping pid
      → update pc cpu p' j ≡ dropping pid
      → i ≡ j
  Move-alone (unregister k g) e i j pid qi qj =
      ground (arith, dropped i pid, dropped j pid, alone i j pid)
  Move-alone mv e i j pid qi qj = ground (arith, alone i j pid)

  Move-IsUnique : {p' : Pc} {m' : Shared} → Move c m (pc cpu) m' p' → IsUnique m' (update pc cpu p')
  Move-IsUnique mv = record {
    once = Move-once mv;
    unused = Move-unused mv refl;
    dropped = Move-dropped mv refl;
    alone = Move-alone mv refl;
  }

Reach-IsUnique : (c : Config) {s : System} → Reach c s → IsUnique s.mem s.pc
Reach-IsUnique c start = record {
  once = λ pid. ground arith;
  unused = λ pid e. ground arith;
  dropped = λ cpu pid e. ground arith;
  alone = λ i j pid e f. ground arith;
}
Reach-IsUnique c (later r (pick cpu mv)) = Move-IsUnique c (Reach-IsUnique c r) cpu mv

-- Whatever the order of the steps of any CPUs that register and unregister processes, where a
-- number is unregistered only by one it was given to: no number is given out a second time before
-- it is unregistered, and a number that is given out is valid.
pub given_once :
    (c : Config) (s : System)
    → Reach c s
    → (pid : ℕ) → (s.mem.given pid ≤ 1) × (0 < s.mem.given pid → s.mem.valid pid ≡ true)
given_once c s r pid =
    let inv = Reach-IsUnique c r in
    (inv.once pid, λ h. ground (arith, inv.unused pid, Bool-cases (s.mem.valid pid)))
