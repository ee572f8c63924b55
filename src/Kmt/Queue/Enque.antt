-- ===== src/Kmt/Queue/Enque.antt =====
-- `tasks_enque_ulk` puts a task behind the last one.
use mathlib.Core.Path.{subst}
use projects_demonstration.Base.{
  ℕ, ◌≡◌, ◌≢◌, refl, ap, sym, ◌∙◌, true, ◌&&◌, List, [], ◌∷◌, ◌++◌, arith, Fresh, Distinct, In-ne,
  Fresh-append, Distinct-last, ◌==◌,
}
use projects_demonstration.Kmt.{Task, Kmt, ended}
use projects_demonstration.Kmt.Queue.{set_prev, set_next, link_last, tasks_enque_ulk}
use projects_demonstration.Kmt.Queue.Ring.{Links, IsQueue, last-In}

-- A change of the ring leaves what a task is.
pub record Same (t t' : ℕ → Task) : Type 0 where
  pub status : (k : ℕ) → (t' k).status ≡ (t k).status
  pub context : (k : ℕ) → (t' k).context ≡ (t k).context

pub Same-trans : {t t' t'' : ℕ → Task} → Same t t' → Same t' t'' → Same t t''
Same-trans a b = record {
  status = λ k. b.status k ∙ a.status k;
  context = λ k. b.context k ∙ a.context k;
}

module _ (t : ℕ → Task) (h x : ℕ) (off : x ≢ h) (not_last : x ≢ (t h).prev) where
  -- The task's own two links are written.
  abbrev own_links : ℕ → Task
  own_links = set_next (set_prev t x (t h).prev) x h

  own_prev : (own_links x).prev ≡ (t h).prev
  own_prev = ground arith

  own_next : (set_next own_links (t h).prev x x).next ≡ h
  own_next = ground arith

  abbrev linked : ℕ → Task
  linked = set_prev (set_next own_links (t h).prev x) h x

  pub link_last-linked : link_last h x t ≡ linked
  link_last-linked =
      ap (λ p. set_prev (set_next own_links p x) (set_next own_links p x x).next x) own_prev
      ∙ ap (λ n. set_prev (set_next own_links (t h).prev x) n x) own_next

  linked_last : (linked (t h).prev).next ≡ x
  linked_last = ground arith

  linked_next : (linked x).next ≡ h
  linked_next = ground arith

  linked_prev : (linked x).prev ≡ (t h).prev
  linked_prev = ground arith

  linked_head : (linked h).prev ≡ x
  linked_head = ground arith

  other_next : (k : ℕ) → k ≢ x → k ≢ (t h).prev → (linked k).next ≡ (t k).next
  other_next k a b = ground arith

  other_prev : (k : ℕ) → k ≢ x → k ≢ h → (linked k).prev ≡ (t k).prev
  other_prev k a b = ground arith

  linked-Same : Same t linked
  linked-Same = record { status = λ k. ground arith; context = λ k. ground arith }

  linked-Links :
      (p : ℕ) (xs : List ℕ)
      → Links t h p xs
      → Distinct (p ∷ xs)
      → Fresh x (p ∷ xs)
      → Fresh h xs
      → Links linked h p (xs ++ (x ∷ []))
  linked-Links p [] (e, e') d f off_h = (
    ap (λ q. (linked q).next) (sym e') ∙ linked_last,
    linked_prev ∙ e',
    (linked_next, linked_head),
  )
  linked-Links p (y ∷ ys) (e, e', l) (fp, d) (ne, f) (nh, g) = (
    other_next p (λ q. ne (sym q)) (λ q. In-ne (y ∷ ys) fp (last-In t h y ys l) (sym q)) ∙ e,
    other_prev y (λ q. f.0 (sym q)) (λ q. nh (sym q)) ∙ e',
    linked-Links y ys l d f g,
  )

  -- What the Asserts test.
  linked_checks : ((linked (linked x).prev).next == x && (linked (linked x).next).prev == x) ≡ true
  linked_checks = rw (linked_prev, linked_next) (ground arith)

module _ {t : ℕ → Task} {h : ℕ} {xs : List ℕ} (x : ℕ) (q : IsQueue t h xs)
    (f : Fresh x (h ∷ xs)) where
  last_ne : x ≢ (t h).prev
  last_ne e = In-ne (h ∷ xs) f (last-In t h h xs q.links) (sym e)

  link_last-IsQueue : IsQueue (link_last h x t) h (xs ++ (x ∷ []))
  link_last-IsQueue = rw (link_last-linked t h x f.0 last_ne) (record {
    links = linked-Links t h x f.0 last_ne h xs q.links q.distinct f q.distinct.0;
    distinct = (
      Fresh-append h xs (x ∷ []) q.distinct.0 (λ e. f.0 (sym e), tt),
      Distinct-last x xs q.distinct.1 f.1,
    );
  })

-- A task that is not in the queue is put behind its last task; the other tasks keep their places,
-- and every task its status and context.
pub tasks_enque_ulk-IsQueue :
    {xs : List ℕ} (x : ℕ) (s : Kmt)
    → IsQueue s.tasks s.task_head xs
    → Fresh x (s.task_head ∷ xs)
    → (t : ℕ → Task) × (tasks_enque_ulk x s ≡ ended (record s { tasks = t }))
      × IsQueue t s.task_head (xs ++ (x ∷ []))
      × Same s.tasks t
unfolding tasks_enque_ulk
tasks_enque_ulk-IsQueue x s q f =
    let e = link_last-linked s.tasks s.task_head x f.0 (last_ne x q f) in
    let checks =
      subst (λ (m : ℕ → Task). ((m (m x).prev).next == x && (m (m x).next).prev == x) ≡ true)
        (sym e) (linked_checks s.tasks s.task_head x f.0 (last_ne x q f)) in
    (
      link_last s.task_head x s.tasks,
      rw checks refl,
      link_last-IsQueue x q f,
      rw e (linked-Same s.tasks s.task_head x f.0 (last_ne x q f)),
    )
