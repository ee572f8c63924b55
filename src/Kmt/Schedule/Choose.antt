-- ===== src/Kmt/Schedule/Choose.antt =====
-- The choice of the next task in `kmt_schedule` of OSkernel/kernel/src/kmt.c, under the lock.
use mathlib.Core.Path.{subst}
use mathlib.Core.List.{append-nil}
use projects_demonstration.Base.{
  ℕ, ◌<◌, ◌≡◌, refl, sym, List, [], ◌∷◌, ◌++◌, inl, inr, arith, length, Fresh,
}
use projects_demonstration.Kmt.{Task, Kmt, ended}
use projects_demonstration.Kmt.Queue.Ring.{IsQueue}
use projects_demonstration.Kmt.Queue.Enque.{Same}
use projects_demonstration.Kmt.Queue.Deque.{tasks_deque_ulk-IsQueue}
use projects_demonstration.Kmt.Schedule.{set_current, choose}
use projects_demonstration.Kmt.Schedule.Rotate.{
  Picks, pick, skip, Idles, Picks-cases, Picks-nonempty, check_running_ulk-Idles,
  check_running_ulk-Picks, rotate-Picks,
}

-- The current task after `kmt_schedule`, and the tasks: the first running task of the queue, those
-- before it now behind the others; or the idle task, and the queue as it was, where none is running.
pub data Chosen (t : ℕ → Task) (h : ℕ) (xs : List ℕ) (idle_task : ℕ) : ℕ → (ℕ → Task) → Type 0 where
  runs :
      {r : ℕ} {t' : ℕ → Task} (before rest : List ℕ)
      → Picks t r xs before rest
      → IsQueue t' h (rest ++ before)
      → Same t t'
      → Chosen t h xs idle_task r t'
  rests : Idles t xs → Chosen t h xs idle_task idle_task t

pub Picks-length :
    {t : ℕ → Task} {r : ℕ} {xs before rest : List ℕ}
    → Picks t r xs before rest
    → length before < length xs
Picks-length (pick on) = omega arith
Picks-length (skip off p) = omega (arith, Picks-length p)

pub choose-Picks :
    {r : ℕ} {xs before rest : List ℕ} (fuel c : ℕ) (s : Kmt)
    → length xs < fuel
    → IsQueue s.tasks s.task_head xs
    → Picks s.tasks r xs before rest
    → (t' : ℕ → Task) × (choose fuel c s ≡ ended (set_current c r (record s { tasks = t' })))
      × Chosen s.tasks s.task_head xs (s.idles c) r t'
unfolding choose
choose-Picks {r} {xs} {before} {rest} fuel c s lt q p =
    let (y, ys, e) = Picks-nonempty p in
    let q' = subst (λ zs. IsQueue s.tasks s.task_head zs) e q in
    let (t1, e1, q1, same1) = tasks_deque_ulk-IsQueue s q' in
    let (t2, e2, q2, same2) =
      rotate-Picks fuel y ys [] (record s { tasks = t1 }) (omega (arith, Picks-length p)) same1
        (subst (λ zs. IsQueue t1 s.task_head zs) (sym (append-nil ys)) q1)
        (subst (λ zs. Fresh y (s.task_head ∷ zs)) (sym (append-nil ys))
          (λ k. q'.distinct.0.0 (sym k), q'.distinct.1.0))
        (subst (λ zs. Picks s.tasks r zs before rest) e p) in
    (t2, rw (check_running_ulk-Picks fuel xs s lt q p, e1, e2) refl, runs before rest p q2 same2)

pub choose-Chosen :
    {xs : List ℕ} (fuel c : ℕ) (s : Kmt)
    → length xs < fuel
    → IsQueue s.tasks s.task_head xs
    → (x : ℕ) × (t' : ℕ → Task) × (choose fuel c s
        ≡ ended (set_current c x (record s { tasks = t' })))
      × Chosen s.tasks s.task_head xs (s.idles c) x t'
unfolding choose
choose-Chosen {xs} fuel c s lt q = elim (Picks-cases s.tasks xs) [
  | inl i ↦ (s.idles c, s.tasks, rw (check_running_ulk-Idles fuel xs s lt q i) refl, rests i)
  | inr (r, before, rest, p) ↦
      let (t', e, chosen) = choose-Picks fuel c s lt q p in (r, t', e, chosen)
]
