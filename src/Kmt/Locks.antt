-- ===== src/Kmt/Locks.antt =====
-- `kmt_spin_lock` and `kmt_spin_unlock` bracket a critical section: interrupts are off within it and
-- as before behind it, however deep the brackets are nested.
use projects_demonstration.Base.{
  ℕ, ◌+◌, ◌≡◌, refl, ap, sym, ◌∙◌, true, false, ◌&&◌, if◌then◌else◌, ◌==◌, update, update-eq, arith,
  some, inl, inr, Bool-cases, Bool, eq→==,
}
use projects_demonstration.Kmt.{
  Kmt, Task, CpuLocal, ended, set_cpu, set_intr, set_lock, owned_by, spin_lock, spin_unlock,
}
use projects_demonstration.Kmt.Brackets.{
  Masked, Inside, update_twice, update_same, noted, left, taken_lock, freed_lock, pushed-Inside,
  spin_lock-taken, spin_unlock-left,
}

-- The state behind the brackets: the lock is free, and nothing else has changed but what the CPU
-- noted.
abbrev pub released : ℕ → ℕ → Kmt → Kmt
released c lk s = record s {
  locks = update s.locks lk (freed_lock lk s);
  cpu_local = update s.cpu_local c (noted c s);
}

module _ (c lk : ℕ) (s : Kmt) (t : ℕ → Task) (masked : Masked c s) where
  abbrev pub section : Kmt
  section = record (taken_lock c lk s) { tasks = t }

  pub noted_ncli : (noted c s).ncli ≡ (s.cpu_local c).ncli
  noted_ncli = elim (Bool-cases ((s.cpu_local c).ncli == 0)) [
    | inl outer ↦ rw outer refl
    | inr inner ↦ rw inner refl
  ]

  pub section_cpu : section.cpu_local c ≡ record (noted c s) { ncli = (s.cpu_local c).ncli + 1 }
  section_cpu = update-eq s.cpu_local c (record (noted c s) { ncli = (s.cpu_local c).ncli + 1 })

  section_lock : section.locks lk ≡ record (s.locks lk) { locked = 1; cpu = some c }
  section_lock = update-eq s.locks lk (record (s.locks lk) { locked = 1; cpu = some c })

  pub section-owned_by : owned_by c (section.locks lk) ≡ true
  section-owned_by = rw section_lock (eq→== c c refl)

  left_locks : update section.locks lk (freed_lock lk section) ≡ update s.locks lk (freed_lock lk s)
  left_locks =
      rw section_lock (
        update_twice s.locks lk (record (s.locks lk) { locked = 1; cpu = some c })
          (freed_lock lk s))

  left_cpu :
      update section.cpu_local c (record (section.cpu_local c) { ncli = (s.cpu_local c).ncli })
      ≡ update s.cpu_local c (noted c s)
  left_cpu = rw section_cpu (
      update_twice s.cpu_local c (record (noted c s) { ncli = (s.cpu_local c).ncli + 1 })
        (record (noted c s) { ncli = (s.cpu_local c).ncli })
      ∙ ap (λ n. update s.cpu_local c (record (noted c s) { ncli = n })) (sym noted_ncli))

  left_intr :
      (b : Bool)
      → ((s.cpu_local c).ncli == 0 && (noted c s).intena) ≡ b
      → (if b then update section.intr c true else section.intr) ≡ s.intr
  left_intr true e =
      update_twice s.intr c false true
      ∙ update_same s.intr c true (flag ((s.cpu_local c).ncli == 0) refl)
    where
      flag : (d : Bool) → ((s.cpu_local c).ncli == 0) ≡ d → s.intr c ≡ true
      flag true q = ground (arith, e, q)
      flag false q = ground (arith, e, q)
  left_intr false e = update_same s.intr c false (flag ((s.cpu_local c).ncli == 0) refl)
    where
      flag : (d : Bool) → ((s.cpu_local c).ncli == 0) ≡ d → s.intr c ≡ false
      flag true q = ground (arith, e, q)
      flag false q = masked (ground arith)

  abbrev pub behind : Kmt
  behind = record (released c lk s) { tasks = t }

  abbrev ending : Bool → Kmt
  ending b =
      let s' =
        set_cpu c (record (section.cpu_local c) { ncli = (s.cpu_local c).ncli })
          (set_lock lk (freed_lock lk section) section) in
      if b then set_intr c true s' else s'

  ending-behind :
      (b : Bool) → ((s.cpu_local c).ncli == 0 && (noted c s).intena) ≡ b → ending b ≡ behind
  ending-behind true e = λ i. record s {
    tasks = t;
    locks = left_locks i;
    cpu_local = left_cpu i;
    intr = left_intr true e i;
  }
  ending-behind false e = λ i. record s {
    tasks = t;
    locks = left_locks i;
    cpu_local = left_cpu i;
    intr = left_intr false e i;
  }

  pub left-behind :
      left c (s.cpu_local c).ncli (set_lock lk (freed_lock lk section) section) ≡ behind
  left-behind =
      ap (λ (l : CpuLocal). ending ((s.cpu_local c).ncli == 0 && l.intena)) section_cpu
      ∙ ending-behind ((s.cpu_local c).ncli == 0 && (noted c s).intena) refl

  pub unlock-behind : spin_unlock c lk section ≡ ended behind
  unlock-behind =
      spin_unlock-left c lk (s.cpu_local c).ncli section
        (rw section_cpu (omega arith), update-eq s.intr c false)
        (ap (λ (l : CpuLocal). l.ncli) section_cpu ∙ omega arith) section-owned_by
      ∙ ap ended left-behind

-- With the lock free, a critical section that changes the tasks ends behind `spin_unlock`: the lock is
-- free again, interrupts are as before, on or off, at every depth of nesting, and the rest is as the
-- section left it, but for the interrupt flag that the CPU notes in the outermost bracket. At the
-- start of the section interrupts are off and the CPU owns the lock.
pub spin_unlock-spin_lock :
    (c lk : ℕ) (s : Kmt) (work : (ℕ → Task) → ℕ → Task)
    → Masked c s
    → (s.locks lk).locked ≡ 0
    → (s' : Kmt) × (spin_lock c lk s ≡ ended s')
      × Inside c s'
      × (owned_by c (s'.locks lk) ≡ true)
      × (spin_unlock c lk (record s' { tasks = work s'.tasks })
          ≡ ended (record (released c lk s) { tasks = work s.tasks }))
spin_unlock-spin_lock c lk s work masked e = (
  taken_lock c lk s,
  spin_lock-taken c lk s e,
  pushed-Inside c s,
  section-owned_by c lk s s.tasks masked,
  unlock-behind c lk s (work s.tasks) masked,
)
