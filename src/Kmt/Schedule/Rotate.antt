-- ===== src/Kmt/Schedule/Rotate.antt =====
-- The loop of `kmt_schedule` finds the first running task and turns those before it to the back.
use projects_demonstration.Base.{
  ℕ, zero, suc, ◌<◌, ◌≡◌, refl, sym, true, false, Bool-cases, List, [], ◌∷◌, ◌++◌, ◌⊎◌, inl, inr,
  arith, Fresh, eq→==, ne→==, length,
}
use mathlib.Core.Path.{subst}
use mathlib.Core.List.{append-nil, append_assoc}
use projects_demonstration.Kmt.{Task, Kmt, ended}
use projects_demonstration.Kmt.Queue.{is_running, running_from, check_running_ulk}
use projects_demonstration.Kmt.Queue.Ring.{Links, IsQueue}
use projects_demonstration.Kmt.Queue.Enque.{Same, Same-trans, tasks_enque_ulk-IsQueue}
use projects_demonstration.Kmt.Queue.Deque.{tasks_deque_ulk-IsQueue}
use projects_demonstration.Kmt.Schedule.{rotate}

-- `r` is the first running task of a list, `before` are the tasks before it and `behind` those
-- behind.
pub data Picks (t : ℕ → Task) (r : ℕ) : (xs before behind : List ℕ) → Type 0 where
  pick : {behind : List ℕ} → is_running (t r).status ≡ true → Picks t r (r ∷ behind) [] behind
  skip :
      {y : ℕ} {xs before behind : List ℕ}
      → is_running (t y).status ≡ false
      → Picks t r xs before behind
      → Picks t r (y ∷ xs) (y ∷ before) behind

-- No task of the list is running.
abbrev pub Idles : (ℕ → Task) → List ℕ → Type 0
Idles t [] = Unit
Idles t (x ∷ xs) = (is_running (t x).status ≡ false) × Idles t xs

pub Picks-cases :
    (t : ℕ → Task) (xs : List ℕ)
    → Idles t xs ⊎ ((r : ℕ) × (before behind : List ℕ) × Picks t r xs before behind)
Picks-cases t [] = inl tt
Picks-cases t (x ∷ xs) = elim (Bool-cases (is_running (t x).status)) [
  | inl on ↦ inr (x, [], xs, pick on)
  | inr off ↦ elim (Picks-cases t xs) [
    | inl none_runs ↦ inl (off, none_runs)
    | inr (r, before, behind, p) ↦ inr (r, x ∷ before, behind, skip off p)
  ]
]

-- What `check_running_ulk` answers.
running_from-Idles :
    (fuel p : ℕ) (xs : List ℕ) (s : Kmt)
    → length xs < fuel
    → Fresh s.task_head xs
    → Links s.tasks s.task_head p xs
    → Idles s.tasks xs
    → running_from fuel (s.tasks p).next s ≡ ended false
unfolding running_from
running_from-Idles zero p xs s lt f l i = absurd (omega arith)
running_from-Idles (suc fuel) p [] s lt f (e, _) i = rw (e, eq→== s.task_head s.task_head refl) refl
running_from-Idles (suc fuel) p (x ∷ xs) s lt (ne, f) (e, e', l) (off, i) =
    rw (e, ne→== x s.task_head (λ q. ne (sym q)), off)
      (running_from-Idles fuel x xs s (omega arith) f l i)

running_from-Picks :
    (fuel p : ℕ) {r : ℕ} (xs : List ℕ) {before behind : List ℕ} (s : Kmt)
    → length xs < fuel
    → Fresh s.task_head xs
    → Links s.tasks s.task_head p xs
    → Picks s.tasks r xs before behind
    → running_from fuel (s.tasks p).next s ≡ ended true
unfolding running_from
running_from-Picks zero p xs s lt f l i = absurd (omega arith)
running_from-Picks (suc fuel) p [] s lt f l i = elim i [ ]
running_from-Picks (suc fuel) p (x ∷ xs) s lt (ne, f) (e, e', l) (pick on) =
    rw (e, ne→== x s.task_head (λ q. ne (sym q)), on) refl
running_from-Picks (suc fuel) p (x ∷ xs) s lt (ne, f) (e, e', l) (skip off i) =
    rw (e, ne→== x s.task_head (λ q. ne (sym q)), off)
      (running_from-Picks fuel x xs s (omega arith) f l i)

pub check_running_ulk-Idles :
    (fuel : ℕ) (xs : List ℕ) (s : Kmt)
    → length xs < fuel
    → IsQueue s.tasks s.task_head xs
    → Idles s.tasks xs
    → check_running_ulk fuel s ≡ ended false
unfolding check_running_ulk
check_running_ulk-Idles fuel xs s lt q i =
    running_from-Idles fuel s.task_head xs s lt q.distinct.0 q.links i

pub check_running_ulk-Picks :
    (fuel : ℕ) {r : ℕ} (xs : List ℕ) {before behind : List ℕ} (s : Kmt)
    → length xs < fuel
    → IsQueue s.tasks s.task_head xs
    → Picks s.tasks r xs before behind
    → check_running_ulk fuel s ≡ ended true
unfolding check_running_ulk
check_running_ulk-Picks fuel xs s lt q i =
    running_from-Picks fuel s.task_head xs s lt q.distinct.0 q.links i

pub Picks-nonempty :
    {t : ℕ → Task} {r : ℕ} {xs before behind : List ℕ}
    → Picks t r xs before behind
    → (y : ℕ) × (ys : List ℕ) × (xs ≡ y ∷ ys)
Picks-nonempty {r} {behind} (pick on) = (r, behind, refl)
Picks-nonempty (skip {y} {xs} off p) = (y, xs, refl)

-- The loop with `y` taken out: `ys` are still to come and `turned` stand behind them.
pub rotate-Picks :
    {t : ℕ → Task} {r : ℕ} {before behind : List ℕ} (fuel y : ℕ) (ys turned : List ℕ) (s : Kmt)
    → length before < fuel
    → Same t s.tasks
    → IsQueue s.tasks s.task_head (ys ++ turned)
    → Fresh y (s.task_head ∷ (ys ++ turned))
    → Picks t r (y ∷ ys) before behind
    → (t' : ℕ → Task) × (rotate fuel y s ≡ ended (r, record s { tasks = t' }))
      × IsQueue t' s.task_head (behind ++ (turned ++ before))
      × Same t t'
unfolding rotate
rotate-Picks zero y ys turned s lt same q f p = absurd (omega arith)
rotate-Picks (suc fuel) y ys turned s lt same q f (pick on) = (
  s.tasks,
  rw (same.status y, on) refl,
  subst (λ zs. IsQueue s.tasks s.task_head (ys ++ zs)) (sym (append-nil turned)) q,
  same,
)
rotate-Picks {behind} (suc fuel) y [] turned s lt same q f (skip off p) = elim p [ ]
rotate-Picks {behind} (suc fuel) y (z ∷ zs) turned s lt same q f (skip {before} off p) =
    let (t1, e1, q1, same1) = tasks_enque_ulk-IsQueue y s q f in
    let q1' : IsQueue t1 s.task_head (z ∷ (zs ++ (turned ++ (y ∷ [])))) =
      subst (λ ws. IsQueue t1 s.task_head (z ∷ ws)) (append_assoc zs turned (y ∷ [])) q1 in
    let (t2, e2, q2, same2) = tasks_deque_ulk-IsQueue (record s { tasks = t1 }) q1' in
    let f2 : Fresh z (s.task_head ∷ (zs ++ (turned ++ (y ∷ [])))) =
      (λ e. q1'.distinct.0.0 (sym e), q1'.distinct.1.0) in
    let (t3, e3, q3, same3) =
      rotate-Picks fuel z zs (turned ++ (y ∷ [])) (record s { tasks = t2 }) (omega arith)
        (Same-trans (Same-trans same same1) same2) q2 f2 p in
    (
      t3,
      rw (same.status y, off, e1, e2) e3,
      subst (λ ws. IsQueue t3 s.task_head (behind ++ ws)) (append_assoc turned (y ∷ []) before) q3,
      same3,
    )
