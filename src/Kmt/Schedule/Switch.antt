-- ===== src/Kmt/Schedule/Switch.antt =====
-- `kmt_schedule` makes the first running task of the queue the current one, or the idle task.
use mathlib.Core.Path.{subst}
use projects_demonstration.Base.{
  ℕ, suc, ◌<◌, ◌≡◌, ◌≢◌, refl, ap, sym, ◌∙◌, true, false, Bool, Bool-cases, List, inl, inr, arith,
  if◌then◌else◌, ◌==◌, length, update, update-eq, ◌&&◌,
}
use projects_demonstration.Kmt.{
  Task, CpuLocal, SpinLock, Kmt, ended, set_cpu, set_lock, set_intr, spin_unlock,
}
use projects_demonstration.Kmt.Locks.{
  section, section-owned_by, section_cpu, noted_ncli, behind, left-behind,
}
use projects_demonstration.Kmt.Brackets.{
  Masked, left, noted, taken_lock, freed_lock, update_twice, spin_lock-taken, spin_unlock-left,
}
use projects_demonstration.Kmt.Queue.Ring.{IsQueue}
use projects_demonstration.Kmt.Schedule.{set_current, choose, kmt_schedule}
use projects_demonstration.Kmt.Schedule.Choose.{Chosen, choose-Chosen}

-- Giving back the lock and naming the current task commute.
module _ (c n x : ℕ) (s : Kmt) where
  abbrev named : CpuLocal
  named = record (s.cpu_local c) { current = x }

  named_lem : (set_current c x s).cpu_local c ≡ named
  named_lem = update-eq s.cpu_local c named

  both :
      update (set_current c x s).cpu_local c (record ((set_current c x s).cpu_local c) { ncli = n })
      ≡ update
          (update s.cpu_local c (record (s.cpu_local c) { ncli = n }))
          c
          (record (update s.cpu_local c (record (s.cpu_local c) { ncli = n }) c) { current = x })
  both =
      rw (named_lem, update-eq s.cpu_local c (record (s.cpu_local c) { ncli = n }))
        (update_twice s.cpu_local c named (record named { ncli = n })
          ∙ sym (
              update_twice s.cpu_local c (record (s.cpu_local c) { ncli = n })
                (record named { ncli = n })))

  ending_named : Bool → Kmt
  ending_named b =
      let s' =
        set_cpu c (record ((set_current c x s).cpu_local c) { ncli = n }) (set_current c x s) in
      if b then set_intr c true s' else s'

  left-set_current : left c n (set_current c x s) ≡ set_current c x (left c n s)
  unfolding ending_named
  left-set_current =
      ap (λ (l : CpuLocal). ending_named (n == 0 && l.intena)) named_lem
      ∙ go (n == 0 && (s.cpu_local c).intena)
    where
      go :
          (b : Bool)
          → ending_named b
            ≡ set_current c x (
                let s' = set_cpu c (record (s.cpu_local c) { ncli = n }) s in
                if b then set_intr c true s' else s')
      go true = λ i. record s { cpu_local = both i; intr = update s.intr c true }
      go false = λ i. record s { cpu_local = both i }

-- What a call of `kmt_schedule` does on CPU `c`, for the queue `xs`.
pub record Scheduled (c : ℕ) (xs : List ℕ) (s s' : Kmt) (context : ℕ) : Type 0 where
  pub chosen : Chosen s.tasks s.task_head xs (s.idles c) (s'.cpu_local c).current s'.tasks
  pub last : (s'.cpu_local c).last ≡ (s.cpu_local c).current
  pub returned : context ≡ (s'.tasks (s'.cpu_local c).current).context
  pub nesting : (s'.cpu_local c).ncli ≡ (s.cpu_local c).ncli
  pub same_intr : s'.intr ≡ s.intr
  pub lock_free : (s'.locks s.queue_lk).locked ≡ 0
  pub others : (d : ℕ) → d ≢ c → s'.cpu_local d ≡ s.cpu_local d
  pub same_head : (s'.task_head ≡ s.task_head) × (s'.queue_lk ≡ s.queue_lk) × (s'.idles ≡ s.idles)

noted_last : (c : ℕ) (s : Kmt) → (noted c s).last ≡ (s.cpu_local c).last
noted_last c s = elim (Bool-cases ((s.cpu_local c).ncli == 0)) [
  | inl outer ↦ rw outer refl
  | inr inner ↦ rw inner refl
]

module _ (c : ℕ) (s : Kmt) (masked : Masked c s) where
  -- `mycpu()->last = mycpu()->current`
  abbrev turned : Kmt
  turned = set_cpu c (record (s.cpu_local c) { last = (s.cpu_local c).current }) s

  turned_cpu : turned.cpu_local c ≡ record (s.cpu_local c) { last = (s.cpu_local c).current }
  turned_cpu = update-eq s.cpu_local c (record (s.cpu_local c) { last = (s.cpu_local c).current })

  turned-Masked : Masked c turned
  turned-Masked pos = masked (subst (λ (l : CpuLocal). 0 < l.ncli) turned_cpu pos)

  module _ (x : ℕ) (t : ℕ → Task) where
    abbrev held : Kmt
    held = section c s.queue_lk turned t turned-Masked

    abbrev chosen_in : Kmt
    chosen_in = set_current c x held

    abbrev scheduled : Kmt
    scheduled = set_current c x (behind c s.queue_lk turned t turned-Masked)

    chosen_ncli : (chosen_in.cpu_local c).ncli ≡ suc (turned.cpu_local c).ncli
    chosen_ncli =
        ap (λ (l : CpuLocal). l.ncli) (named_lem c (turned.cpu_local c).ncli x held)
        ∙ ap (λ (l : CpuLocal). l.ncli) (section_cpu c s.queue_lk turned t turned-Masked)
        ∙ omega arith

    unlock-scheduled : spin_unlock c s.queue_lk chosen_in ≡ ended scheduled
    unlock-scheduled =
        spin_unlock-left c s.queue_lk (turned.cpu_local c).ncli chosen_in
          (omega (arith, chosen_ncli), update-eq turned.intr c false) chosen_ncli
          (section-owned_by c s.queue_lk turned t turned-Masked)
        ∙ ap ended (
            left-set_current c (turned.cpu_local c).ncli x
              (set_lock s.queue_lk (freed_lock s.queue_lk held) held))
        ∙ ap (λ (s' : Kmt). ended (set_current c x s'))
            (left-behind c s.queue_lk turned t turned-Masked)

    scheduled_cpu : scheduled.cpu_local c ≡ record (noted c turned) { current = x }
    scheduled_cpu =
        update-eq (behind c s.queue_lk turned t turned-Masked).cpu_local c
          (record ((behind c s.queue_lk turned t turned-Masked).cpu_local c) { current = x })
        ∙ ap (λ (l : CpuLocal). record l { current = x })
            (update-eq turned.cpu_local c (noted c turned))

  kmt_schedule_lem :
      (fuel x : ℕ) (t : ℕ → Task)
      → (s.locks s.queue_lk).locked ≡ 0
      → choose fuel c (taken_lock c s.queue_lk turned) ≡ ended (chosen_in x t)
      → kmt_schedule fuel c s
        ≡ ended ((t ((scheduled x t).cpu_local c).current).context, scheduled x t)
  unfolding kmt_schedule
  kmt_schedule_lem fuel x t free e =
      rw (spin_lock-taken c s.queue_lk turned free, e, unlock-scheduled x t) refl

  scheduled-Scheduled :
      (x : ℕ) (t : ℕ → Task) (xs : List ℕ)
      → Chosen s.tasks s.task_head xs (s.idles c) x t
      → Scheduled c xs s (scheduled x t) (t ((scheduled x t).cpu_local c).current).context
  scheduled-Scheduled x t xs chosen = record {
    chosen =
        subst (λ (l : CpuLocal). Chosen s.tasks s.task_head xs (s.idles c) l.current t)
          (sym (scheduled_cpu x t)) chosen;
    last =
        ap (λ (l : CpuLocal). l.last) (scheduled_cpu x t)
        ∙ noted_last c turned
        ∙ ap (λ (l : CpuLocal). l.last) turned_cpu;
    returned = refl;
    nesting =
        ap (λ (l : CpuLocal). l.ncli) (scheduled_cpu x t)
        ∙ noted_ncli c s.queue_lk turned t turned-Masked
        ∙ ap (λ (l : CpuLocal). l.ncli) turned_cpu;
    same_intr = refl;
    lock_free =
        ap (λ (l : SpinLock). l.locked)
          (update-eq s.locks s.queue_lk (freed_lock s.queue_lk turned));
    others = λ d ne. ground arith;
    same_head = (refl, refl, refl);
  }

-- With the queue's lock free and interrupts off in brackets, `kmt_schedule` returns, given fuel for
-- the length of the queue: the first running task of the queue is current and out of it, those before
-- it stand behind the others, or the idle task is current where none is running; `last` is the task
-- that was current, the context is the new task's, the lock is free and interrupts are as they were.
pub kmt_schedule-Scheduled :
    {xs : List ℕ} (fuel c : ℕ) (s : Kmt)
    → length xs < fuel
    → IsQueue s.tasks s.task_head xs
    → Masked c s
    → (s.locks s.queue_lk).locked ≡ 0
    → (context : ℕ) × (s' : Kmt) × (kmt_schedule fuel c s ≡ ended (context, s'))
      × Scheduled c xs s s' context
kmt_schedule-Scheduled {xs} fuel c s lt q masked free =
    let (x, t, e, chosen) =
      choose-Chosen fuel c (taken_lock c s.queue_lk (turned c s masked)) lt q in
    (
      (t ((scheduled c s masked x t).cpu_local c).current).context,
      scheduled c s masked x t,
      kmt_schedule_lem c s masked fuel x t free e,
      scheduled-Scheduled c s masked x t xs chosen,
    )
