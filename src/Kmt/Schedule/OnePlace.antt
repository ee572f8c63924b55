-- ===== src/Kmt/Schedule/OnePlace.antt =====
-- A task is in at most one place: in the queue, current on one CPU, or the last one of one CPU.
use mathlib.Core.Path.{subst}
use projects_demonstration.Base.{
  ℕ, ◌≡◌, ◌≢◌, ap, sym, ◌∙◌, true, false, List, [], ◌∷◌, ◌++◌, inl, inr, ◌⊎◌, Fresh, Distinct,
  Fresh-append, eq-cases,
}
use projects_demonstration.Kmt.{Task, CpuLocal, Kmt}
use projects_demonstration.Kmt.Schedule.{is_idle}
use projects_demonstration.Kmt.Schedule.Rotate.{Picks, pick, skip}

-- A task of its own: not NULL and no idle task.
abbrev pub Busy : Kmt → ℕ → Type 0
Busy s k = (k ≢ 0) × (is_idle (s.tasks k).status ≡ false)

pub record OnePlace (s : Kmt) (xs : List ℕ) : Type 0 where
  pub off_current :
      (d : ℕ) → Busy s (s.cpu_local d).current → Fresh (s.cpu_local d).current (s.task_head ∷ xs)
  pub off_last :
      (d : ℕ) → Busy s (s.cpu_local d).last → Fresh (s.cpu_local d).last (s.task_head ∷ xs)
  pub currents :
      (d e : ℕ)
      → d ≢ e
      → Busy s (s.cpu_local d).current
      → (s.cpu_local d).current ≢ (s.cpu_local e).current
  pub lasts :
      (d e : ℕ) → d ≢ e → Busy s (s.cpu_local d).last → (s.cpu_local d).last ≢ (s.cpu_local e).last
  pub mixed :
      (d e : ℕ) → Busy s (s.cpu_local d).current → (s.cpu_local d).current ≢ (s.cpu_local e).last

-- The tasks of `idles` are idle tasks.
abbrev pub IdleTasks : Kmt → Type 0
IdleTasks s = (d : ℕ) → is_idle (s.tasks (s.idles d)).status ≡ true

-- What the choice of `r` does to the queue, for a task that is not in it.
pub record Clear (xs xs' : List ℕ) (h r : ℕ) : Type 0 where
  pub out : Fresh r (h ∷ xs')
  pub stays : (k : ℕ) → Fresh k (h ∷ xs) → Fresh k (h ∷ xs')
  pub apart : (k : ℕ) → Fresh k (h ∷ xs) → k ≢ r

Fresh-left : (x : ℕ) (xs ys : List ℕ) → Fresh x (xs ++ ys) → Fresh x xs
Fresh-left x [] ys f = tt
Fresh-left x (y ∷ xs) ys (ne, f) = (ne, Fresh-left x xs ys f)

Picks-stays :
    {t : ℕ → Task} {r : ℕ} {xs before behind : List ℕ} (k : ℕ)
    → Picks t r xs before behind
    → Fresh k xs
    → Fresh k behind × Fresh k before × (k ≢ r)
Picks-stays k (pick on) (ne, f) = (f, tt, ne)
Picks-stays k (skip off p) (ne, f) = let (f', g, ne') = Picks-stays k p f in (f', (ne, g), ne')

Picks-out :
    {t : ℕ → Task} {r : ℕ} {xs before behind : List ℕ}
    → Picks t r xs before behind
    → Distinct xs
    → Fresh r behind × Fresh r before
Picks-out (pick on) (f, d) = (f, tt)
Picks-out (skip off p) (f, d) =
    let (g, g') = Picks-out p d in let (a, b, ne) = Picks-stays _ p f in (g, (λ e. ne (sym e), g'))

pub Picks-Clear :
    {t : ℕ → Task} {h r : ℕ} {xs before behind : List ℕ}
    → Picks t r xs before behind
    → Distinct (h ∷ xs)
    → Clear xs (behind ++ before) h r
Picks-Clear {h} {r} {xs} {before} {behind} p (fh, d) =
    let (g, g') = Picks-out p d in
    let (a, b, ne) = Picks-stays h p fh in
    record {
      out = (λ e. ne (sym e), Fresh-append r behind before g g');
      stays =
          λ k f. (let (u, v, w) = Picks-stays k p f.1 in (f.0, Fresh-append k behind before u v));
      apart = λ k f. (Picks-stays k p f.1).2;
    }

-- A CPU passes from its current task to the task `x`; `xs` is the queue before, `ys` with the last
-- task put back, and `zs` after the choice.
module _ (s s' : Kmt) (xs ys zs : List ℕ) (c x : ℕ) (o : OnePlace s xs)
    (same_head : s'.task_head ≡ s.task_head) (busy : (k : ℕ) → Busy s' k → Busy s k)
    (current_c : (s'.cpu_local c).current ≡ x)
    (last_c : (s'.cpu_local c).last ≡ (s.cpu_local c).current)
    (others : (d : ℕ) → d ≢ c → s'.cpu_local d ≡ s.cpu_local d)
    (puts : (k : ℕ)
      → k ≢ (s.cpu_local c).last
      → Fresh k (s.task_head ∷ xs)
      → Fresh k (s.task_head ∷ ys))
    (keeps : (k : ℕ) → Busy s k → Fresh k (s.task_head ∷ ys) → Fresh k (s.task_head ∷ zs) × (k ≢ x))
    (leaves : Busy s x → Fresh x (s.task_head ∷ zs)) where
  current-cases :
      (d : ℕ)
      → ((d ≡ c) × ((s'.cpu_local d).current ≡ x))
        ⊎ ((d ≢ c) × ((s'.cpu_local d).current ≡ (s.cpu_local d).current))
  current-cases d = elim (eq-cases d c) [
    | inl e ↦ inl (e, ap (λ k. (s'.cpu_local k).current) e ∙ current_c)
    | inr ne ↦ inr (ne, ap (λ (l : CpuLocal). l.current) (others d ne))
  ]

  last-cases :
      (d : ℕ)
      → ((d ≡ c) × ((s'.cpu_local d).last ≡ (s.cpu_local c).current))
        ⊎ ((d ≢ c) × ((s'.cpu_local d).last ≡ (s.cpu_local d).last))
  last-cases d = elim (eq-cases d c) [
    | inl e ↦ inl (e, ap (λ k. (s'.cpu_local k).last) e ∙ last_c)
    | inr ne ↦ inr (ne, ap (λ (l : CpuLocal). l.last) (others d ne))
  ]

  current_kept :
      (d : ℕ)
      → Busy s (s.cpu_local d).current
      → Fresh (s.cpu_local d).current (s.task_head ∷ zs) × ((s.cpu_local d).current ≢ x)
  current_kept d b =
      keeps (s.cpu_local d).current b
        (puts (s.cpu_local d).current (o.mixed d c b) (o.off_current d b))

  last_kept :
      (d : ℕ)
      → d ≢ c
      → Busy s (s.cpu_local d).last
      → Fresh (s.cpu_local d).last (s.task_head ∷ zs) × ((s.cpu_local d).last ≢ x)
  last_kept d ne b =
      keeps (s.cpu_local d).last b (puts (s.cpu_local d).last (o.lasts d c ne b) (o.off_last d b))

  Busy-as : {k m : ℕ} → k ≡ m → Busy s' k → Busy s m
  Busy-as e b = subst (Busy s) e (busy _ b)

  Fresh-as : {k m : ℕ} → k ≡ m → Fresh m (s.task_head ∷ zs) → Fresh k (s'.task_head ∷ zs)
  Fresh-as {k} {m} e (ne, f) = (λ q. ne (sym e ∙ q ∙ same_head), subst (λ n. Fresh n zs) (sym e) f)

  ne_as : {k m a b : ℕ} → k ≡ a → m ≡ b → a ≢ b → k ≢ m
  ne_as e e' ne q = ne (sym e ∙ q ∙ e')

  pub moved-OnePlace : OnePlace s' zs
  moved-OnePlace = record {
    off_current = λ d b. elim (current-cases d) [
      | inl (e, p) ↦ Fresh-as p (leaves (Busy-as p b))
      | inr (ne, p) ↦ Fresh-as p (current_kept d (Busy-as p b)).0
    ];
    off_last = λ d b. elim (last-cases d) [
      | inl (e, p) ↦ Fresh-as p (current_kept c (Busy-as p b)).0
      | inr (ne, p) ↦ Fresh-as p (last_kept d ne (Busy-as p b)).0
    ];
    currents = λ d e de b. elim (current-cases d) [
      | inl (dc, p) ↦ elim (current-cases e) [
        | inl (ec, q) ↦ absurd (de (dc ∙ sym ec))
        | inr (ec, q) ↦
            ne_as p q (λ same. (current_kept e (subst (Busy s) same (Busy-as p b))).1 (sym same))
      ]
      | inr (dc, p) ↦ elim (current-cases e) [
        | inl (ec, q) ↦ ne_as p q (current_kept d (Busy-as p b)).1
        | inr (ec, q) ↦ ne_as p q (o.currents d e de (Busy-as p b))
      ]
    ];
    lasts = λ d e de b. elim (last-cases d) [
      | inl (dc, p) ↦ elim (last-cases e) [
        | inl (ec, q) ↦ absurd (de (dc ∙ sym ec))
        | inr (ec, q) ↦ ne_as p q (o.mixed c e (Busy-as p b))
      ]
      | inr (dc, p) ↦ elim (last-cases e) [
        | inl (ec, q) ↦
            ne_as p q (λ same. o.mixed c d (subst (Busy s) same (Busy-as p b)) (sym same))
        | inr (ec, q) ↦ ne_as p q (o.lasts d e de (Busy-as p b))
      ]
    ];
    mixed = λ d e b. elim (current-cases d) [
      | inl (dc, p) ↦ elim (last-cases e) [
        | inl (ec, q) ↦
            ne_as p q (λ same. (current_kept c (subst (Busy s) same (Busy-as p b))).1 (sym same))
        | inr (ec, q) ↦
            ne_as p q (λ same. (last_kept e ec (subst (Busy s) same (Busy-as p b))).1 (sym same))
      ]
      | inr (dc, p) ↦ elim (last-cases e) [
        | inl (ec, q) ↦ ne_as p q (o.currents d c dc (Busy-as p b))
        | inr (ec, q) ↦ ne_as p q (o.mixed d e (Busy-as p b))
      ]
    ];
  }
