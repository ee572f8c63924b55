-- ===== src/Kmt/Schedule/Interrupt.antt =====
-- An interrupt, that is `kmt_context_save` and then `kmt_schedule`, keeps every task in one place.
use mathlib.Core.Path.{subst}
use projects_demonstration.Base.{
  ℕ, ◌+◌, ◌<◌, ◌≡◌, ◌≢◌, refl, ap, sym, ◌∙◌, true, false, Bool, Bool-cases, List, [], ◌∷◌, ◌++◌,
  inl, inr, arith, length, length-append, not, ◌&&◌, ◌==◌, Fresh, Fresh-append,
}
use projects_demonstration.Kmt.{Task, Kmt, ended}
use projects_demonstration.Kmt.Brackets.{Masked}
use projects_demonstration.Kmt.Queue.Ring.{IsQueue}
use projects_demonstration.Kmt.Schedule.{is_idle, may_save, interrupt}
use projects_demonstration.Kmt.Schedule.Switch.{Scheduled, kmt_schedule-Scheduled}
use projects_demonstration.Kmt.Schedule.Choose.{Chosen, runs, rests}
use projects_demonstration.Kmt.Schedule.Save.{puts_back, saved_queue, Saves, kmt_context_save-Saves}
use projects_demonstration.Kmt.Schedule.OnePlace.{
  Busy, OnePlace, IdleTasks, Picks-Clear, moved-OnePlace,
}

-- The queue after a choice.
record Chose (s : Kmt) (ys : List ℕ) (idle_task x : ℕ) (t : ℕ → Task) : Type 0 where
  zs : List ℕ
  queue : IsQueue t s.task_head zs
  status : (k : ℕ) → (t k).status ≡ (s.tasks k).status
  keeps : (k : ℕ) → Busy s k → Fresh k (s.task_head ∷ ys) → Fresh k (s.task_head ∷ zs) × (k ≢ x)
  leaves : Busy s x → Fresh x (s.task_head ∷ zs)

Chosen-Chose :
    (s : Kmt) {ys : List ℕ} {idle_task x : ℕ} {t : ℕ → Task}
    → is_idle (s.tasks idle_task).status ≡ true
    → IsQueue s.tasks s.task_head ys
    → Chosen s.tasks s.task_head ys idle_task x t
    → Chose s ys idle_task x t
Chosen-Chose s i q (runs before rest p q' same) =
    let clear = Picks-Clear p q.distinct in
    record {
      zs = rest ++ before;
      queue = q';
      status = same.status;
      keeps = λ k b f. (clear.stays k f, clear.apart k f);
      leaves = λ b. clear.out;
    }
Chosen-Chose s {ys} i q (rests idles) = record {
  zs = ys;
  queue = q;
  status = λ k. refl;
  keeps = λ k b f. (f, λ e. differ (sym b.1 ∙ ap (λ m. is_idle (s.tasks m).status) e ∙ i));
  leaves = λ b. absurd (differ (sym b.1 ∙ i));
}
  where
    differ : false ≡ true → ⊥
    differ e = ground (arith, e)

saved_queue-Fresh :
    (c : ℕ) (s : Kmt) (xs : List ℕ) (k : ℕ)
    → k ≢ (s.cpu_local c).last
    → Fresh k (s.task_head ∷ xs)
    → Fresh k (s.task_head ∷ saved_queue c s xs)
saved_queue-Fresh c s xs k ne (off, f) = elim (Bool-cases (puts_back c s)) [
  | inl puts ↦ rw puts (off, Fresh-append k xs ((s.cpu_local c).last ∷ []) f (ne, tt))
  | inr keeps ↦ rw keeps (off, f)
]

puts_back-Busy : (c : ℕ) (s : Kmt) → puts_back c s ≡ true → Busy s (s.cpu_local c).last
puts_back-Busy c s e =
    let (null, idle_last) =
      both ((s.cpu_local c).last == 0) (is_idle (s.tasks (s.cpu_local c).last).status) e in
    (λ z. ground (arith, null, z), idle_last)
  where
    both : (a b : Bool) → (not a && not b) ≡ true → (a ≡ false) × (b ≡ false)
    both true b e = ground (arith, e)
    both false true e = ground (arith, e)
    both false false e = (refl, refl)

saved_queue-length : (c : ℕ) (s : Kmt) (xs : List ℕ) → length (saved_queue c s xs) < length xs + 2
saved_queue-length c s xs = elim (Bool-cases (puts_back c s)) [
  | inl puts ↦ rw puts (omega (arith, length-append xs ((s.cpu_local c).last ∷ [])))
  | inr keeps ↦ rw keeps (omega arith)
]

-- The two handlers one after the other, from one queue to the next.
module _ (c context : ℕ) (xs : List ℕ) (s s1 s2 : Kmt) (ret : ℕ) (o : OnePlace s xs)
    (i : IdleTasks s) (a : Saves c context xs s s1)
    (b : Scheduled c (saved_queue c s xs) s1 s2 ret) where
  chose : Chose s1 (saved_queue c s xs) (s1.idles c) (s2.cpu_local c).current s2.tasks
  chose =
      Chosen-Chose s1
        (ap (λ (f : ℕ → ℕ). is_idle (s1.tasks (f c)).status) a.same_head.2
          ∙ ap is_idle (a.statuses (s.idles c))
          ∙ i c)
        (subst (λ h. IsQueue s1.tasks h (saved_queue c s xs)) (sym a.same_head.0) a.queue) b.chosen

  to_saved : (k : ℕ) → Busy s k → Busy s1 k
  to_saved k (ne, e) = (ne, ap is_idle (a.statuses k) ∙ e)

  from_saved : (k : ℕ) → Busy s2 k → Busy s k
  from_saved k (ne, e) = (ne, ap is_idle (sym (chose.status k ∙ a.statuses k)) ∙ e)

  head_to : (k : ℕ) (zs : List ℕ) → Fresh k (s.task_head ∷ zs) → Fresh k (s1.task_head ∷ zs)
  head_to k zs (ne, f) = (λ e. ne (e ∙ a.same_head.0), f)

  head_from : (k : ℕ) (zs : List ℕ) → Fresh k (s1.task_head ∷ zs) → Fresh k (s.task_head ∷ zs)
  head_from k zs (ne, f) = (λ e. ne (e ∙ sym a.same_head.0), f)

  kept-OnePlace : OnePlace s2 chose.zs
  kept-OnePlace =
      moved-OnePlace s s2 xs (saved_queue c s xs) chose.zs c (s2.cpu_local c).current o
        (b.same_head.0 ∙ a.same_head.0) from_saved refl (b.last ∙ a.current)
        (λ d ne. b.others d ne ∙ a.others d ne) (saved_queue-Fresh c s xs)
        (λ k busy f.
          (let (g, ne) = chose.keeps k (to_saved k busy) (head_to k (saved_queue c s xs) f) in
            (head_from k chose.zs g, ne)))
        (λ busy.
          head_from (s2.cpu_local c).current chose.zs
            (chose.leaves (to_saved (s2.cpu_local c).current busy)))

  kept-IsQueue : IsQueue s2.tasks s2.task_head chose.zs
  kept-IsQueue = subst (λ h. IsQueue s2.tasks h chose.zs) (sym b.same_head.0) chose.queue

  kept-IdleTasks : IdleTasks s2
  kept-IdleTasks d =
      ap (λ (f : ℕ → ℕ). is_idle (s2.tasks (f d)).status) (b.same_head.2 ∙ a.same_head.2)
      ∙ ap is_idle (chose.status (s.idles d) ∙ a.statuses (s.idles d))
      ∙ i d

-- Where the asserts of `kmt_context_save` hold and the queue's lock is free, an interrupt on CPU `c`
-- returns, given fuel for the queue; if every task that is not an idle task was in at most one place,
-- the queue, the current task of one CPU or the last task of one CPU, then it is so afterwards. The
-- queue stays a doubly linked ring, the lock is free and interrupts are as they were.
pub interrupt-OnePlace :
    {xs : List ℕ} (fuel c context : ℕ) (s : Kmt)
    → length xs + 1 < fuel
    → may_save c s ≡ true
    → IsQueue s.tasks s.task_head xs
    → Masked c s
    → (s.locks s.queue_lk).locked ≡ 0
    → IdleTasks s
    → OnePlace s xs
    → (ret : ℕ) × (s' : Kmt) × (zs : List ℕ) × (interrupt fuel c context s ≡ ended (ret, s'))
      × IsQueue s'.tasks s'.task_head zs
      × OnePlace s' zs
      × IdleTasks s'
      × ((s'.locks s'.queue_lk).locked ≡ 0)
      × (s'.intr ≡ s.intr)
unfolding interrupt
interrupt-OnePlace {xs} fuel c context s lt may q masked free i o =
    let (s1, e1, a) =
      kmt_context_save-Saves c context s may q (λ puts. o.off_last c (puts_back-Busy c s puts))
        masked free in
    let (ret, s2, e2, b) =
      kmt_schedule-Scheduled fuel c s1 (omega (arith, saved_queue-length c s xs))
        (subst (λ h. IsQueue s1.tasks h (saved_queue c s xs)) (sym a.same_head.0) a.queue)
        (λ pos. ap (λ (f : ℕ → Bool). f c) a.same_intr ∙ masked (subst (λ n. 0 < n) a.nesting pos))
        (ap (λ k. (s1.locks k).locked) a.same_head.1 ∙ a.lock_free) in
    (
      ret,
      s2,
      (chose c context xs s s1 s2 ret o i a b).zs,
      rw e1 e2,
      kept-IsQueue c context xs s s1 s2 ret o i a b,
      kept-OnePlace c context xs s s1 s2 ret o i a b,
      kept-IdleTasks c context xs s s1 s2 ret o i a b,
      ap (λ k. (s2.locks k).locked) b.same_head.1 ∙ b.lock_free,
      b.same_intr ∙ a.same_intr,
    )
