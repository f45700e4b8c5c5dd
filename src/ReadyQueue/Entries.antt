-- ===== src/ReadyQueue/Entries.antt =====
-- schedule/ready_queue.rs: the queues of all levels as one list of tasks with their levels, and the
-- bounded priority queue that this list is: a new task goes behind those of its level.
use vsched.Base.{
  ℕ, zero, suc, ◌+◌, ◌≤◌, ◌<◌, ◌≡◌, refl, ap, ◌⊎◌, inl, inr, List, [], ◌∷◌, ◌++◌, arith, ltb, ◌==◌,
  if◌then◌else◌, length, update, Bool-cases, List-cases,
}
use vsched.ReadyQueue.Contents.{first_ready}

abbrev pub tagged : ℕ → List ℕ → List (ℕ × ℕ)
tagged level [] = []
tagged level (task ∷ tasks) = (level, task) ∷ tagged level tasks

unfoldable pub entries_from : ℕ → ℕ → (ℕ → List ℕ) → List (ℕ × ℕ)
entries_from zero level f = []
entries_from (suc n) level f = tagged level (f level) ++ entries_from n (level + 1) f

unfoldable pub insert : ℕ → ℕ → List (ℕ × ℕ) → List (ℕ × ℕ)
insert level task [] = (level, task) ∷ []
insert level task ((k, t) ∷ es) =
    if ltb level k then (level, task) ∷ (k, t) ∷ es else (k, t) ∷ insert level task es

unfoldable pub waiting : ℕ → List (ℕ × ℕ) → ℕ
waiting level [] = 0
waiting level ((k, t) ∷ es) = (if k == level then 1 else 0) + waiting level es

insert-tagged :
    (i level task : ℕ) (tasks : List ℕ) (es : List (ℕ × ℕ))
    → level ≤ i
    → insert i task (tagged level tasks ++ es) ≡ tagged level tasks ++ insert i task es
unfolding insert
insert-tagged i level task [] es h = refl
insert-tagged i level task (x ∷ tasks) es h = ground (arith, insert-tagged i level task tasks es)

insert-above :
    (n level i task : ℕ) (f : ℕ → List ℕ)
    → i < level
    → insert i task (entries_from n level f) ≡ (i, task) ∷ entries_from n level f
unfolding insert entries_from
insert-above zero level i task f h = refl
insert-above (suc n) level i task f h = elim (List-cases (f level)) [
  | inl e ↦ ground (arith, insert-above n (level + 1) i task f)
  | inr (x, rest, e) ↦ ground arith
]

pub entries-update_below :
    (n level i : ℕ) (f : ℕ → List ℕ) (x : List ℕ)
    → i < level
    → entries_from n level (update f i x) ≡ entries_from n level f
unfolding entries_from
entries-update_below zero level i f x h = refl
entries-update_below (suc n) level i f x h =
    ground (arith, entries-update_below n (level + 1) i f x)

tagged-append :
    (level task : ℕ) (tasks : List ℕ) (es : List (ℕ × ℕ))
    → tagged level (tasks ++ task ∷ []) ++ es ≡ tagged level tasks ++ (level, task) ∷ es
tagged-append level task [] es = refl
tagged-append level task (x ∷ tasks) es =
    ap (λ l. (level, x) ∷ l) (tagged-append level task tasks es)

-- A task at the back of its level is one inserted behind those of its level.
pub entries-push :
    (n level i task : ℕ) (f : ℕ → List ℕ)
    → level ≤ i
    → i < level + n
    → entries_from n level (update f i (f i ++ task ∷ [])) ≡ insert i task (entries_from n level f)
unfolding entries_from
entries-push zero level i task f h k = absurd (omega arith)
entries-push (suc n) level i task f h k =
    let tail = entries_from n (level + 1) f in
    elim (Bool-cases (i == level)) [
      | inl here ↦
          let at : i ≡ level = ground arith in
          ground (
            arith,
            at,
            entries-update_below n (level + 1) i f (f i ++ task ∷ []),
            tagged-append level task (f level) tail,
            insert-tagged i level task (f level) tail,
            insert-above n (level + 1) i task f,
          )
      | inr there ↦
          ground
            (arith, entries-push n (level + 1) i task f, insert-tagged i level task (f level) tail)
    ]

waiting-tagged :
    (i level : ℕ) (tasks : List ℕ) (es : List (ℕ × ℕ))
    → waiting i (tagged level tasks ++ es) ≡ (if level == i then length tasks else 0) + waiting i es
unfolding waiting
waiting-tagged i level [] es = ground arith
waiting-tagged i level (x ∷ tasks) es = ground (arith, waiting-tagged i level tasks es)

waiting-above :
    (n level i : ℕ) (f : ℕ → List ℕ) → i < level → waiting i (entries_from n level f) ≡ 0
unfolding entries_from waiting
waiting-above zero level i f h = refl
waiting-above (suc n) level i f h = ground (
  arith,
  waiting-tagged i level (f level) (entries_from n (level + 1) f),
  waiting-above n (level + 1) i f,
)

pub waiting-entries :
    (n level i : ℕ) (f : ℕ → List ℕ)
    → level ≤ i
    → i < level + n
    → waiting i (entries_from n level f) ≡ length (f i)
unfolding entries_from
waiting-entries zero level i f h k = absurd (omega arith)
waiting-entries (suc n) level i f h k = ground (
  arith,
  waiting-tagged i level (f level) (entries_from n (level + 1) f),
  waiting-above n (level + 1) i f,
  waiting-entries n (level + 1) i f,
)

-- The first entry is one of the first level with a task.
pub entries-first_ready :
    (n level : ℕ) (f : ℕ → List ℕ)
    → ((entries_from n level f ≡ []) × (first_ready n level f ≡ level + n))
      ⊎ ((task : ℕ) × (es : List (ℕ × ℕ)) × (entries_from n level f
            ≡ (first_ready n level f, task) ∷ es))
unfolding entries_from first_ready
entries-first_ready zero level f = inl (refl, omega arith)
entries-first_ready (suc n) level f = elim (List-cases (f level)) [
  | inl e ↦ elim (entries-first_ready n (level + 1) f) [
    | inl (none_left, at) ↦ inl (ground arith, ground arith)
    | inr (task, es, front) ↦ inr (task, es, ground arith)
  ]
  | inr (x, rest, e) ↦ inr (x, tagged level rest ++ entries_from n (level + 1) f, ground arith)
]
