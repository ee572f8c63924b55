-- ===== src/Kmt/Schedule/Tests.antt =====
-- An interrupt on a CPU that runs task 3 and ran task 4 before, with two more tasks in the queue.
use projects_demonstration.Base.{
  ℕ, zero, suc, ◌+◌, ◌<◌, ◌≡◌, ◌≢◌, refl, true, false, List, [], ◌∷◌, arith, none, update, Fresh,
}
use projects_demonstration.Kmt.{running, waiting, header, idle, Task, CpuLocal, Kmt, ended}
use projects_demonstration.Kmt.Queue.Ring.{IsQueue}
use projects_demonstration.Kmt.Schedule.{is_idle, kmt_context_save, interrupt}
use projects_demonstration.Kmt.Schedule.Save.{Saves, kmt_context_save-Saves}
use projects_demonstration.Kmt.Schedule.OnePlace.{Busy, OnePlace, IdleTasks}
use projects_demonstration.Kmt.Schedule.Interrupt.{interrupt-OnePlace}

abbrev no_task : Task
no_task = record {
  name = 0;
  context = 0;
  stack_start = 0;
  stack_end = 0;
  prev = 0;
  next = 0;
  status = idle;
}

abbrev four_tasks : ℕ → Task
four_tasks =
    update
      (update
        (update
          (update
            (update (λ k. no_task) 100 (record no_task { prev = 2; next = 1; status = header })) 1
            (record no_task { prev = 100; next = 2; status = waiting; context = 11 }))
          2 (record no_task { prev = 1; next = 100; status = running; context = 12 }))
        3 (record no_task { status = running; context = 13 }))
      4 (record no_task { status = running; context = 14 })

cpus : ℕ → CpuLocal
cpus zero = record { current = 3; last = 4; ncli = 0; intena = true; id = 0 }
cpus (suc d) = record { current = 301 + d; last = 0; ncli = 0; intena = true; id = suc d }

abbrev machine : Kmt
machine = record {
  task_head = 100;
  queue_lk = 200;
  idles = λ c. 300 + c;
  tasks = four_tasks;
  cpu_local = cpus;
  locks = λ k. record { locked = 0; name = 0; cpu = none };
  intr = λ c. false;
}

four-IsQueue : IsQueue four_tasks 100 (1 ∷ 2 ∷ [])
four-IsQueue = record {
  links = (refl, refl, (refl, refl, (refl, refl)));
  distinct = ((omega arith, (omega arith, tt)), ((omega arith, tt), (tt, tt)));
}

idle_lem : (k : ℕ) → 300 < k + 1 → is_idle (four_tasks k).status ≡ true
idle_lem k lt = ground arith

not-Busy : (k : ℕ) → 300 < k + 1 → ¬ Busy machine k
not-Busy k lt (ne, e) = ground (arith, idle_lem k lt, e)

machine-OnePlace : OnePlace machine (1 ∷ 2 ∷ [])
unfolding cpus
machine-OnePlace = record {
  off_current = off_current;
  off_last = off_last;
  currents = currents;
  lasts = lasts;
  mixed = mixed;
}
  where
    off_current :
        (d : ℕ) → Busy machine (cpus d).current → Fresh (cpus d).current (100 ∷ 1 ∷ 2 ∷ [])
    off_current zero b = (omega arith, (omega arith, (omega arith, tt)))
    off_current (suc d) b = absurd (not-Busy (301 + d) (omega arith) b)

    off_last : (d : ℕ) → Busy machine (cpus d).last → Fresh (cpus d).last (100 ∷ 1 ∷ 2 ∷ [])
    off_last zero b = (omega arith, (omega arith, (omega arith, tt)))
    off_last (suc d) b = absurd (b.0 refl)

    currents :
        (d e : ℕ) → d ≢ e → Busy machine (cpus d).current → (cpus d).current ≢ (cpus e).current
    currents zero zero ne b = absurd (ne refl)
    currents zero (suc e) ne b = omega arith
    currents (suc d) e ne b = absurd (not-Busy (301 + d) (omega arith) b)

    lasts : (d e : ℕ) → d ≢ e → Busy machine (cpus d).last → (cpus d).last ≢ (cpus e).last
    lasts zero zero ne b = absurd (ne refl)
    lasts zero (suc e) ne b = omega arith
    lasts (suc d) e ne b = absurd (b.0 refl)

    mixed : (d e : ℕ) → Busy machine (cpus d).current → (cpus d).current ≢ (cpus e).last
    mixed zero zero b = omega arith
    mixed zero (suc e) b = omega arith
    mixed (suc d) e b = absurd (not-Busy (301 + d) (omega arith) b)

interrupt-OnePlace_example :
    (ret : ℕ) × (s' : Kmt) × (zs : List ℕ) × (interrupt 5 0 77 machine ≡ ended (ret, s'))
    × IsQueue s'.tasks s'.task_head zs
    × OnePlace s' zs
    × IdleTasks s'
    × ((s'.locks s'.queue_lk).locked ≡ 0)
    × (s'.intr ≡ machine.intr)
unfolding cpus
interrupt-OnePlace_example =
    interrupt-OnePlace 5 0 77 machine (omega arith) refl four-IsQueue (λ pos. refl) refl
      (λ d. idle_lem (300 + d) (omega arith)) machine-OnePlace

kmt_context_save-Saves_example :
    (s' : Kmt) × (kmt_context_save 0 77 machine ≡ ended s') × Saves 0 77 (1 ∷ 2 ∷ []) machine s'
unfolding cpus
kmt_context_save-Saves_example =
    kmt_context_save-Saves 0 77 machine refl four-IsQueue
      (λ puts. (omega arith, (omega arith, (omega arith, tt)))) (λ pos. refl) refl
