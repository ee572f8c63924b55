-- ===== src/Kmt/Exclusion.antt =====
-- A lock that one CPU took with `kmt_spin_lock` keeps every CPU out, of OSkernel/kernel/src/kmt.c.
use mathlib.Core.Path.{subst}
use projects_demonstration.Base.{
  ℕ, ◌+◌, ◌≡◌, ◌≢◌, refl, ap, sym, ◌∙◌, true, false, Bool, arith, update-eq, some, eq→==, ne→==,
  if◌then◌else◌, ◌==◌,
}
use projects_demonstration.Kmt.{
  Kmt, CpuLocal, SpinLock, Ended, ended, panics, spins, deadlocks, out_of_fuel, owned_by, holding,
  take_lock, spin_lock, spin_unlock,
}
use projects_demonstration.Kmt.Brackets.{
  noted, left, pushed, pushcli-pushed, popcli-left, holding-Inside, pushed-Inside,
}

-- The CPU holds the lock.
pub record IsHeld (c : ℕ) (l : SpinLock) : Type 0 where
  pub locked : l.locked ≡ 1
  pub owner : l.cpu ≡ some c

abbrev pub by_owner : Bool → ℕ → (lk : ℕ) → Kmt → Ended Kmt
by_owner b c lk s = if b then deadlocks else take_lock c lk s

spin_lock-owned_by :
    (c lk : ℕ) (s : Kmt) → spin_lock c lk s ≡ by_owner (owned_by c (s.locks lk)) c lk (pushed c s)
unfolding spin_lock
spin_lock-owned_by c lk s =
    rw (pushcli-pushed c s, holding-Inside c lk (pushed c s) (pushed-Inside c s)) refl

abbrev Acquires : ℕ → (lk : ℕ) → Ended Kmt → Type 0
Acquires c lk (ended s) = IsHeld c (s.locks lk)
Acquires c lk panics = Unit
Acquires c lk spins = Unit
Acquires c lk deadlocks = Unit
Acquires c lk out_of_fuel = Unit

take_lock-Acquires :
    (c lk : ℕ) (s : Kmt) (b : Bool)
    → ((s.locks lk).locked == 0) ≡ b
    → Acquires c lk (take_lock c lk s)
take_lock-Acquires c lk s true e =
    let now = update-eq s.locks lk (record (s.locks lk) { locked = 1; cpu = some c }) in
    rw e (record {
      locked = ap (λ (l : SpinLock). l.locked) now;
      owner = ap (λ (l : SpinLock). l.cpu) now;
    })
take_lock-Acquires c lk s false e = rw e tt

spin_lock-Acquires : (c lk : ℕ) (s : Kmt) → Acquires c lk (spin_lock c lk s)
spin_lock-Acquires c lk s =
    subst (Acquires c lk) (sym (spin_lock-owned_by c lk s)) (by_test (owned_by c (s.locks lk)))
  where
    by_test : (b : Bool) → Acquires c lk (by_owner b c lk (pushed c s))
    by_test true = tt
    by_test false = take_lock-Acquires c lk (pushed c s) ((s.locks lk).locked == 0) refl

-- Whoever asks, `holding` answers, also outside every bracket.
holding-owned_by :
    (c lk : ℕ) (s : Kmt)
    → holding c lk s ≡ ended (owned_by c (s.locks lk), left c (s.cpu_local c).ncli (pushed c s))
unfolding holding
holding-owned_by c lk s =
    let cl = update-eq s.cpu_local c (record (noted c s) { ncli = (s.cpu_local c).ncli + 1 }) in
    rw
      (
        pushcli-pushed c s,
        popcli-left c (s.cpu_local c).ncli (pushed c s) (update-eq s.intr c false)
            (ap (λ (l : CpuLocal). l.ncli) cl ∙ omega arith),
      )
      refl

module _ (c lk : ℕ) (s : Kmt) (held : IsHeld c (s.locks lk)) where
  held-owned_by : owned_by c (s.locks lk) ≡ true
  held-owned_by = rw (held.owner, held.locked) (eq→== c c refl)

  module _ (d : ℕ) (other : d ≢ c) where
    other-owned_by : owned_by d (s.locks lk) ≡ false
    other-owned_by = rw (held.owner, held.locked) (ne→== c d (λ e. other (sym e)))

    other_spins : spin_lock d lk s ≡ spins
    other_spins = spin_lock-owned_by d lk s ∙ rw (other-owned_by, held.locked) refl

    other_panics : spin_unlock d lk s ≡ panics
    unfolding spin_unlock
    other_panics = rw (holding-owned_by d lk s, other-owned_by) refl

-- When spin_lock has returned to a CPU, then in every state in which the lock is as spin_lock left it:
-- the CPU loops for ever if it asks for the lock again, and any other CPU waits if it asks for the lock
-- and panics if it gives it back, whether or not it is inside a bracket.
pub spin_lock-Excludes :
    (c d lk : ℕ) (s s' s'' : Kmt)
    → spin_lock c lk s ≡ ended s'
    → s''.locks lk ≡ s'.locks lk
    → d ≢ c
    → (spin_lock c lk s'' ≡ deadlocks)
      × (spin_lock d lk s'' ≡ spins)
      × (spin_unlock d lk s'' ≡ panics)
spin_lock-Excludes c d lk s s' s'' e same other =
    let held : IsHeld c (s''.locks lk) =
      subst (IsHeld c) (sym same) (subst (Acquires c lk) e (spin_lock-Acquires c lk s)) in
    (
      spin_lock-owned_by c lk s'' ∙ rw (held-owned_by c lk s'' held) refl,
      other_spins c lk s'' held d other,
      other_panics c lk s'' held d other,
    )
