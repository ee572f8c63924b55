-- ===== src/Kmt/Schedule/Save.antt =====
-- `kmt_context_save` puts the task that the CPU left before the current one back into the queue, and
-- saves the context of the current one.
use projects_demonstration.Base.{
  ℕ, ◌≡◌, ◌≢◌, refl, ap, ◌∙◌, true, Bool, Bool-cases, List, [], ◌∷◌, ◌++◌, inl, inr, arith,
  if◌then◌else◌, ◌==◌, update, update-eq, ◌&&◌, not, Fresh,
}
use projects_demonstration.Kmt.{Task, CpuLocal, SpinLock, Kmt, ended}
use projects_demonstration.Kmt.Locks.{released, unlock-behind, noted_ncli}
use projects_demonstration.Kmt.Brackets.{Masked, noted, freed_lock, taken_lock, spin_lock-taken}
use projects_demonstration.Kmt.Queue.{tasks_enque_lk}
use projects_demonstration.Kmt.Queue.Ring.{IsQueue, Links-same}
use projects_demonstration.Kmt.Queue.Enque.{Same, tasks_enque_ulk-IsQueue}
use projects_demonstration.Kmt.Schedule.{is_idle, may_save, kmt_context_save}

-- `kmt_context_save` puts the last task into the queue.
abbrev pub puts_back : ℕ → Kmt → Bool
puts_back c s =
    let last = (s.cpu_local c).last in not (last == 0) && not (is_idle (s.tasks last).status)

abbrev pub saved_queue : ℕ → Kmt → List ℕ → List ℕ
saved_queue c s xs = if puts_back c s then xs ++ ((s.cpu_local c).last ∷ []) else xs

noted_current : (c : ℕ) (s : Kmt) → (noted c s).current ≡ (s.cpu_local c).current
noted_current c s = elim (Bool-cases ((s.cpu_local c).ncli == 0)) [
  | inl outer ↦ rw outer refl
  | inr inner ↦ rw inner refl
]

noted_last : (c : ℕ) (s : Kmt) → (noted c s).last ≡ (s.cpu_local c).last
noted_last c s = elim (Bool-cases ((s.cpu_local c).ncli == 0)) [
  | inl outer ↦ rw outer refl
  | inr inner ↦ rw inner refl
]

-- Saving a context leaves the ring.
abbrev with_context : (ℕ → Task) → ℕ → ℕ → ℕ → Task
with_context t k context = update t k (record (t k) { context = context })

context-IsQueue :
    (t : ℕ → Task) (h k context : ℕ) {xs : List ℕ}
    → IsQueue t h xs
    → IsQueue (with_context t k context) h xs
context-IsQueue t h k context {xs} q = record {
  links =
      Links-same t (with_context t k context) h h xs (λ m i. ground arith) (λ m i. ground arith)
        (ground arith) q.links;
  distinct = q.distinct;
}

-- `tasks_enque_lk` is `tasks_enque_ulk` in a critical section.
pub tasks_enque_lk-behind :
    {xs : List ℕ} (c x : ℕ) (s : Kmt)
    → IsQueue s.tasks s.task_head xs
    → Fresh x (s.task_head ∷ xs)
    → Masked c s
    → (s.locks s.queue_lk).locked ≡ 0
    → (t : ℕ → Task) × (tasks_enque_lk c x s
        ≡ ended (record (released c s.queue_lk s) { tasks = t }))
      × IsQueue t s.task_head (xs ++ (x ∷ []))
      × Same s.tasks t
unfolding tasks_enque_lk
tasks_enque_lk-behind c x s q f masked free =
    let (t, e, q', same) = tasks_enque_ulk-IsQueue x (taken_lock c s.queue_lk s) q f in
    (
      t,
      rw (spin_lock-taken c s.queue_lk s free, e) (unlock-behind c s.queue_lk s t masked),
      q',
      same,
    )

-- What a call of `kmt_context_save` does on CPU `c`, for the queue `xs`.
pub record Saves (c context : ℕ) (xs : List ℕ) (s s' : Kmt) : Type 0 where
  pub queue : IsQueue s'.tasks s.task_head (saved_queue c s xs)
  pub saved : (s'.tasks (s.cpu_local c).current).context ≡ context
  pub other_contexts :
      (k : ℕ) → k ≢ (s.cpu_local c).current → (s'.tasks k).context ≡ (s.tasks k).context
  pub statuses : (k : ℕ) → (s'.tasks k).status ≡ (s.tasks k).status
  pub current : (s'.cpu_local c).current ≡ (s.cpu_local c).current
  pub last : (s'.cpu_local c).last ≡ (s.cpu_local c).last
  pub nesting : (s'.cpu_local c).ncli ≡ (s.cpu_local c).ncli
  pub others : (d : ℕ) → d ≢ c → s'.cpu_local d ≡ s.cpu_local d
  pub same_intr : s'.intr ≡ s.intr
  pub lock_free : (s'.locks s.queue_lk).locked ≡ 0
  pub same_head : (s'.task_head ≡ s.task_head) × (s'.queue_lk ≡ s.queue_lk) × (s'.idles ≡ s.idles)

-- Where the asserts of `kmt_context_save` hold, the queue's lock is free and a task to be put back is
-- not in the queue, the call returns: the task that ran before the current one is the last of the
-- queue if it is no idle task, and the current task has the context. Every other task keeps its
-- context and every task its status; the current and last task of the CPU, its nesting and the
-- interrupt flags are as before, the other CPUs too, and the lock is free.
pub kmt_context_save-Saves :
    {xs : List ℕ} (c context : ℕ) (s : Kmt)
    → may_save c s ≡ true
    → IsQueue s.tasks s.task_head xs
    → (puts_back c s ≡ true → Fresh (s.cpu_local c).last (s.task_head ∷ xs))
    → Masked c s
    → (s.locks s.queue_lk).locked ≡ 0
    → (s' : Kmt) × (kmt_context_save c context s ≡ ended s') × Saves c context xs s s'
unfolding kmt_context_save
kmt_context_save-Saves {xs} c context s may q fresh masked free =
    elim (Bool-cases (puts_back c s)) [
      | inl puts ↦ enqued puts
      | inr keeps ↦ (
        record s { tasks = with_context s.tasks (s.cpu_local c).current context },
        rw (may, keeps) refl,
        record {
          queue = rw keeps (context-IsQueue s.tasks s.task_head (s.cpu_local c).current context q);
          saved = ground arith;
          other_contexts = λ k ne. ground arith;
          statuses = λ k. ground arith;
          current = refl;
          last = refl;
          nesting = refl;
          others = λ d ne. refl;
          same_intr = refl;
          lock_free = free;
          same_head = (refl, refl, refl);
        },
      )
    ]
  where
    enqued :
        puts_back c s ≡ true
        → (s' : Kmt) × (kmt_context_save c context s ≡ ended s') × Saves c context xs s s'
    enqued puts =
        let (t, e, q', same) =
          tasks_enque_lk-behind c (s.cpu_local c).last s q (fresh puts) masked free in
        let x = (s.cpu_local c).current in
        let cpu = update-eq s.cpu_local c (noted c s) in
        let named = ap (λ (l : CpuLocal). l.current) cpu ∙ noted_current c s in
        (
          record (released c s.queue_lk s) { tasks = with_context t x context },
          rw (may, puts, e)
              (ap
                (λ k. ended (record (released c s.queue_lk s) { tasks = with_context t k context }))
                named),
          record {
            queue = rw puts (context-IsQueue t s.task_head x context q');
            saved = ground arith;
            other_contexts = λ k ne. ground (arith, same.context k);
            statuses = λ k. ground (arith, same.status k, same.status x);
            current = named;
            last = ap (λ (l : CpuLocal). l.last) cpu ∙ noted_last c s;
            nesting = ap (λ (l : CpuLocal). l.ncli) cpu ∙ noted_ncli c s.queue_lk s s.tasks masked;
            others = λ d ne. ground arith;
            same_intr = refl;
            lock_free =
                ap (λ (l : SpinLock). l.locked)
                  (update-eq s.locks s.queue_lk (freed_lock s.queue_lk s));
            same_head = (refl, refl, refl);
          },
        )
