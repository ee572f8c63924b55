-- ===== src/Kmt/Tests.antt =====
-- The scheduler with two tasks, of which the second is running.
use projects_demonstration.Base.{ℕ, ◌+◌, ◌≡◌, refl, true, false, [], ◌∷◌, arith, none, update}
use projects_demonstration.Kmt.{
  running, waiting, header, idle, Task, Kmt, Ended, ended, panics, spins, deadlocks, spin_lock,
  spin_unlock, owned_by, pushcli, popcli, holding,
}
use projects_demonstration.Kmt.Locks.{released, spin_unlock-spin_lock}
use projects_demonstration.Kmt.Exclusion.{spin_lock-Excludes}
use projects_demonstration.Kmt.Brackets.{Inside, taken_lock, spin_lock-taken}
use projects_demonstration.Kmt.Queue.{
  tasks_enque_ulk, tasks_deque_ulk, check_running_ulk, running_from,
}
use projects_demonstration.Kmt.Queue.Ring.{IsQueue}
use projects_demonstration.Kmt.Queue.Enque.{Same, tasks_enque_ulk-IsQueue}
use projects_demonstration.Kmt.Queue.Deque.{tasks_deque_ulk-IsQueue}
use projects_demonstration.Kmt.Schedule.{kmt_schedule, choose, rotate}
use projects_demonstration.Kmt.Schedule.Switch.{Scheduled, kmt_schedule-Scheduled}

abbrev no_task : Task
no_task = record {
  name = 0;
  context = 0;
  stack_start = 0;
  stack_end = 0;
  prev = 0;
  next = 0;
  status = idle;
}

abbrev two_tasks : ℕ → Task
two_tasks =
    update
      (update (update (λ k. no_task) 100 (record no_task { prev = 2; next = 1; status = header })) 1
        (record no_task { prev = 100; next = 2; status = waiting; context = 11 }))
      2 (record no_task { prev = 1; next = 100; status = running; context = 12 })

abbrev machine : Kmt
machine = record {
  task_head = 100;
  queue_lk = 200;
  idles = λ c. 300 + c;
  tasks = two_tasks;
  cpu_local = λ c. record { current = 300 + c; last = 0; ncli = 0; intena = true; id = c };
  locks = λ k. record { locked = 0; name = 0; cpu = none };
  intr = λ c. false;
}

two-IsQueue : IsQueue two_tasks 100 (1 ∷ 2 ∷ [])
two-IsQueue = record {
  links = (refl, refl, (refl, refl, (refl, refl)));
  distinct = ((omega arith, (omega arith, tt)), ((omega arith, tt), (tt, tt)));
}

kmt_schedule-Scheduled_example :
    (context : ℕ) × (s' : Kmt) × (kmt_schedule 5 0 machine ≡ ended (context, s'))
    × Scheduled 0 (1 ∷ 2 ∷ []) machine s' context
kmt_schedule-Scheduled_example =
    kmt_schedule-Scheduled 5 0 machine (omega arith) two-IsQueue (λ pos. refl) refl

ran : Ended (ℕ × Kmt) → ℕ × ℕ × ℕ
ran (ended (context, s)) = (context, (s.cpu_local 0).current, (s.tasks 100).next)
ran _ = (0, 0, 0)

-- Task 2 runs, and task 1 waits in the queue.
scheduled_two : ran (kmt_schedule 5 0 machine) ≡ (12, 2, 1)
unfolding ran kmt_schedule choose rotate check_running_ulk running_from tasks_enque_ulk
    tasks_deque_ulk spin_lock spin_unlock holding pushcli popcli
scheduled_two = refl

spin_unlock-spin_lock_example :
    (s' : Kmt) × (spin_lock 0 200 machine ≡ ended s')
    × Inside 0 s'
    × (owned_by 0 (s'.locks 200) ≡ true)
    × (spin_unlock 0 200 (record s' { tasks = s'.tasks })
        ≡ ended (record (released 0 200 machine) { tasks = two_tasks }))
spin_unlock-spin_lock_example = spin_unlock-spin_lock 0 200 machine (λ t. t) (λ pos. refl) refl

-- CPU 0 has the lock, and CPU 1 works on.
abbrev locked_machine : Kmt
locked_machine = taken_lock 0 200 machine

abbrev later : Kmt
later = record locked_machine { tasks = λ k. no_task }

spin_lock-Excludes_example :
    (spin_lock 0 200 later ≡ deadlocks)
    × (spin_lock 1 200 later ≡ spins)
    × (spin_unlock 1 200 later ≡ panics)
spin_lock-Excludes_example =
    spin_lock-Excludes 0 1 200 machine locked_machine later (spin_lock-taken 0 200 machine refl)
      refl (λ e. omega arith)

tasks_enque_ulk-IsQueue_example :
    (t : ℕ → Task) × (tasks_enque_ulk 3 machine ≡ ended (record machine { tasks = t }))
    × IsQueue t 100 (1 ∷ 2 ∷ 3 ∷ [])
    × Same two_tasks t
tasks_enque_ulk-IsQueue_example =
    tasks_enque_ulk-IsQueue 3 machine two-IsQueue (omega arith, (omega arith, (omega arith, tt)))

tasks_deque_ulk-IsQueue_example :
    (t : ℕ → Task) × (tasks_deque_ulk machine ≡ ended (1, record machine { tasks = t }))
    × IsQueue t 100 (2 ∷ [])
    × Same two_tasks t
tasks_deque_ulk-IsQueue_example = tasks_deque_ulk-IsQueue machine two-IsQueue
