-- ===== src/Kmt/Queue/Deque.antt =====
-- `tasks_deque_ulk` takes the first task from the queue.
use mathlib.Core.Path.{subst}
use projects_demonstration.Base.{
  ℕ, ◌≡◌, ◌≢◌, refl, ap, sym, ◌∙◌, true, false, ◌&&◌, List, [], ◌∷◌, inl, inr, arith, Distinct, In,
  In-ne, ◌==◌, eq→==, ne→==, second_branch,
}
use projects_demonstration.Kmt.{Task, Kmt, ended, panics}
use projects_demonstration.Kmt.Queue.{
  set_prev, set_next, unlink_first, clear_links, tasks_deque_ulk,
}
use projects_demonstration.Kmt.Queue.Ring.{Links, IsQueue, Links-same}
use projects_demonstration.Kmt.Queue.Enque.{Same}

abbrev cut : (ℕ → Task) → (h n : ℕ) → ℕ → Task
cut t h n = set_prev (set_next t h n) n h

module _ (t : ℕ → Task) (h n : ℕ) where
  cut_next : (cut t h n h).next ≡ n
  cut_next = ground arith

  cut_prev : (cut t h n n).prev ≡ h
  cut_prev = ground arith

  cut_next_other : (k : ℕ) → k ≢ h → (cut t h n k).next ≡ (t k).next
  cut_next_other k ne = ground arith

  cut_prev_other : (k : ℕ) → k ≢ n → (cut t h n k).prev ≡ (t k).prev
  cut_prev_other k ne = ground arith

  module _ (x : ℕ) where
    cleared_next : (k : ℕ) → k ≢ x → (clear_links x (cut t h n) k).next ≡ (cut t h n k).next
    cleared_next k ne = ground arith

    cleared_prev : (k : ℕ) → k ≢ x → (clear_links x (cut t h n) k).prev ≡ (cut t h n k).prev
    cleared_prev k ne = ground arith

    cleared-Same : Same t (clear_links x (cut t h n))
    cleared-Same = record { status = λ k. ground arith; context = λ k. ground arith }

    module _ (off : x ≢ h) (e : (t h).next ≡ x) (e' : (t x).next ≡ n) where
      skipped : (set_next t h n x).next ≡ n
      skipped = ground arith

      unlink_first-cut : unlink_first h t ≡ cut t h n
      unlink_first-cut =
          ap (λ k. set_prev (set_next t h (t k).next) (set_next t h (t k).next k).next h) e
          ∙ ap (λ m. set_prev (set_next t h m) (set_next t h m x).next h) e'
          ∙ ap (λ m. set_prev (set_next t h n) m h) skipped

-- The queue without its first task, before that task's links are cleared.
record Cut (t : ℕ → Task) (h x : ℕ) (xs : List ℕ) : Type 0 where
  second : ℕ
  next : (t x).next ≡ second
  links : Links (cut t h second) h h xs

cut-Cut :
    (t : ℕ → Task) (h x : ℕ) (xs : List ℕ)
    → Links t h h (x ∷ xs)
    → Distinct (h ∷ x ∷ xs)
    → Cut t h x xs
cut-Cut t h x [] (e, e', (l, l')) d = record {
  second = h;
  next = l;
  links = (cut_next t h h, cut_prev t h h);
}
cut-Cut t h x (y ∷ ys) (e, e', (l, l', m)) ((nx, (ny, fh)), ((xy, fx), (fy, d))) = record {
  second = y;
  next = l;
  links = (
    cut_next t h y,
    cut_prev t h y,
    Links-same t (cut t h y) h y ys (λ k i. cut_next_other t h y k (In-ne (y ∷ ys) (ny, fh) i))
        (λ k i. cut_prev_other t h y k (In-ne ys fy i)) (cut_prev_other t h y h ny) m,
  );
}

module _ {t : ℕ → Task} {h x : ℕ} {xs : List ℕ} (q : IsQueue t h (x ∷ xs)) where
  first_cut : Cut t h x xs
  first_cut = cut-Cut t h x xs q.links q.distinct

  abbrev rest : ℕ → Task
  rest = clear_links x (cut t h first_cut.second)

  rest-IsQueue : IsQueue rest h xs
  rest-IsQueue =
      let n = first_cut.second in
      record {
        links =
            Links-same (cut t h n) rest h h xs (λ k i. cleared_next t h n x k (off k i))
              (λ k i. cleared_prev t h n x k (off k (inr i)))
              (cleared_prev t h n x h q.distinct.0.0) first_cut.links;
        distinct = (q.distinct.0.1, q.distinct.1.1);
      }
    where
      off : (k : ℕ) → In k (h ∷ xs) → k ≢ x
      off k (inl e) = λ p. q.distinct.0.0 (sym e ∙ p)
      off k (inr i) = In-ne xs q.distinct.1.0 i

  first_off : x ≢ h
  first_off e = q.distinct.0.0 (sym e)

  first_lem : unlink_first h t ≡ cut t h first_cut.second
  first_lem = unlink_first-cut t h first_cut.second x first_off q.links.0 first_cut.next

-- The Asserts hold for any queue.
checks-Links :
    (t : ℕ → Task) (h : ℕ) (xs : List ℕ)
    → Links t h h xs
    → ((t (t h).next).prev == h && (t (t h).prev).next == h) ≡ true
checks-Links t h xs l =
    rw (eq→== (t (t h).next).prev h (fore xs l)) (eq→== (t (t h).prev).next h (back h xs l))
  where
    fore : (ys : List ℕ) → Links t h h ys → (t (t h).next).prev ≡ h
    fore [] (e, e') = ap (λ k. (t k).prev) e ∙ e'
    fore (y ∷ ys) (e, e', m) = ap (λ k. (t k).prev) e ∙ e'

    back : (p : ℕ) (ys : List ℕ) → Links t h p ys → (t (t h).prev).next ≡ h
    back p [] (e, e') = ap (λ k. (t k).next) e' ∙ e
    back p (y ∷ ys) (e, e', m) = back y ys m

-- The first task of a queue is taken out and the rest stay in their order, and every task keeps its
-- status and context.
pub tasks_deque_ulk-IsQueue :
    {x : ℕ} {xs : List ℕ} (s : Kmt)
    → IsQueue s.tasks s.task_head (x ∷ xs)
    → (t : ℕ → Task) × (tasks_deque_ulk s ≡ ended (x, record s { tasks = t }))
      × IsQueue t s.task_head xs
      × Same s.tasks t
unfolding tasks_deque_ulk
tasks_deque_ulk-IsQueue {x} {xs} s q =
    let n = (first_cut q).second in
    let off : ((s.tasks s.task_head).next == s.task_head) ≡ false =
      rw q.links.0 (ne→== x s.task_head (first_off q)) in
    let checks =
      subst
        (λ (m : ℕ → Task).
          ((m (m s.task_head).next).prev == s.task_head
            && (m (m s.task_head).prev).next == s.task_head)
          ≡ true)
        (sym (first_lem q))
        (checks-Links (cut s.tasks s.task_head n) s.task_head xs (first_cut q).links) in
    (
      rest q,
      second_branch ((s.tasks s.task_head).next == s.task_head)
            ((unlink_first s.task_head s.tasks
                  (unlink_first s.task_head s.tasks s.task_head).next).prev
                == s.task_head
              && (unlink_first s.task_head s.tasks
                  (unlink_first s.task_head s.tasks s.task_head).prev).next
                == s.task_head)
            (ended (0, s))
            (ended (
              (s.tasks s.task_head).next,
              record s {
                tasks = clear_links (s.tasks s.task_head).next (unlink_first s.task_head s.tasks);
              },
            ))
            panics off checks
          ∙ (ap
                (λ k.
                  ended (k, record s { tasks = clear_links k (unlink_first s.task_head s.tasks) }))
                q.links.0
              ∙ ap (λ (m : ℕ → Task). ended (x, record s { tasks = clear_links x m }))
                  (first_lem q)),
      rest-IsQueue q,
      cleared-Same s.tasks s.task_head n x,
    )

pub tasks_deque_ulk-empty :
    (s : Kmt) → IsQueue s.tasks s.task_head [] → tasks_deque_ulk s ≡ ended (0, s)
unfolding tasks_deque_ulk
tasks_deque_ulk-empty s q = rw (eq→== (s.tasks s.task_head).next s.task_head q.links.0) refl
