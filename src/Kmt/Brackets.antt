-- ===== src/Kmt/Brackets.antt =====
-- The nested brackets `pushcli` and `popcli` of OSkernel/kernel/src/kmt.c, and a lock within them.
use mathlib.Core.Path.{fun_ext, ap₂}
use projects_demonstration.Base.{
  ℕ, suc, ◌+◌, ◌-◌, ◌<◌, ◌≡◌, refl, ap, sym, ◌∙◌, true, false, ◌&&◌, not, if◌then◌else◌, ◌==◌,
  update, update-eq, update_self, arith, some, none, Option, inl, inr, Bool-cases, Bool, ne→==,
}
use projects_demonstration.Kmt.{
  Kmt, CpuLocal, SpinLock, ended, set_cpu, set_intr, set_lock, pushcli, popcli, owned_by, holding,
  spin_lock, spin_unlock,
}

-- Inside a bracket, interrupts are off.
abbrev pub Masked : ℕ → Kmt → Type 0
Masked c s = 0 < (s.cpu_local c).ncli → s.intr c ≡ false

abbrev pub Inside : ℕ → Kmt → Type 0
Inside c s = (0 < (s.cpu_local c).ncli) × (s.intr c ≡ false)

pub update_twice :
    {A : Type 0} (f : ℕ → A) (k : ℕ) (v w : A) → update (update f k v) k w ≡ update f k w
update_twice f k v w = fun_ext (λ i. ground arith)

pub update_same : {A : Type 0} (f : ℕ → A) (k : ℕ) (v : A) → f k ≡ v → update f k v ≡ f
update_same f k v e = ap (update f k) (sym e) ∙ update_self f k

-- The state of the CPU in the outermost bracket notes the interrupt flag.
abbrev pub noted : ℕ → Kmt → CpuLocal
noted c s = let l = s.cpu_local c in if l.ncli == 0 then record l { intena = s.intr c } else l

pub pushcli-Inside : (c : ℕ) (s : Kmt) → Inside c (pushcli c s)
unfolding pushcli
pushcli-Inside c s = (ground arith, ground arith)

abbrev pub left : ℕ → ℕ → Kmt → Kmt
left c n s =
    let l = s.cpu_local c in
    let s' = set_cpu c (record l { ncli = n }) s in
    if n == 0 && l.intena then set_intr c true s' else s'

pub popcli-left :
    (c n : ℕ) (s : Kmt)
    → s.intr c ≡ false
    → (s.cpu_local c).ncli ≡ suc n
    → popcli c s ≡ ended (left c n s)
unfolding popcli
popcli-left c n s off e =
    let deep : ((s.cpu_local c).ncli == 0) ≡ false = ground arith in
    let m : (s.cpu_local c).ncli - 1 ≡ n = omega arith in
    rw (off, deep, m) (by_last (n == 0 && (s.cpu_local c).intena))
  where
    by_last :
        (b : Bool)
        → (if b
            then ended (set_intr c true (set_cpu c (record (s.cpu_local c) { ncli = n }) s))
            else ended (set_cpu c (record (s.cpu_local c) { ncli = n }) s))
          ≡ ended (
              if b
              then set_intr c true (set_cpu c (record (s.cpu_local c) { ncli = n }) s)
              else set_cpu c (record (s.cpu_local c) { ncli = n }) s)
    by_last true = refl
    by_last false = refl

abbrev pub pushed : ℕ → Kmt → Kmt
pushed c s = set_cpu c (record (noted c s) { ncli = (s.cpu_local c).ncli + 1 }) (set_intr c false s)

pub pushcli-pushed : (c : ℕ) (s : Kmt) → pushcli c s ≡ pushed c s
unfolding pushcli
pushcli-pushed c s = elim (Bool-cases ((s.cpu_local c).ncli == 0)) [
  | inl outer ↦ rw outer refl
  | inr inner ↦ rw inner refl
]

-- Inside a bracket, one more and its end change nothing.
pub push_pop : (c : ℕ) (s : Kmt) → Inside c s → left c (s.cpu_local c).ncli (pushed c s) ≡ s
push_pop c s (pos, off) =
    let ne : ((s.cpu_local c).ncli == 0) ≡ false = ne→== (s.cpu_local c).ncli 0 (omega arith) in
    rw (ne, update-eq s.cpu_local c (record (s.cpu_local c) { ncli = (s.cpu_local c).ncli + 1 }))
      (ap₂ (λ f g. record s { cpu_local = f; intr = g })
        (update_twice s.cpu_local c (record (s.cpu_local c) { ncli = (s.cpu_local c).ncli + 1 })
            (s.cpu_local c)
          ∙ update_self s.cpu_local c)
        (update_same s.intr c false off))

pub holding-Inside :
    (c lk : ℕ) (s : Kmt) → Inside c s → holding c lk s ≡ ended (owned_by c (s.locks lk), s)
unfolding holding
holding-Inside c lk s (pos, off) =
    let cl = update-eq s.cpu_local c (record (noted c s) { ncli = (s.cpu_local c).ncli + 1 }) in
    rw
      (
        pushcli-pushed c s,
        popcli-left c (s.cpu_local c).ncli (pushed c s) (update-eq s.intr c false)
            (ap (λ (l : CpuLocal). l.ncli) cl ∙ omega arith),
        push_pop c s (pos, off),
      )
      refl

-- A lock that is free, taken by a CPU, and free again.
abbrev pub taken_lock : ℕ → ℕ → Kmt → Kmt
taken_lock c lk s = set_lock lk (record (s.locks lk) { locked = 1; cpu = some c }) (pushed c s)

abbrev pub freed_lock : ℕ → Kmt → SpinLock
freed_lock lk s = record (s.locks lk) { locked = 0; cpu = none }

pub pushed-Inside : (c : ℕ) (s : Kmt) → Inside c (pushed c s)
pushed-Inside c s = (
  rw (update-eq s.cpu_local c (record (noted c s) { ncli = (s.cpu_local c).ncli + 1 }))
      (omega arith),
  update-eq s.intr c false,
)

pub free-owned_by : (c : ℕ) (l : SpinLock) → l.locked ≡ 0 → owned_by c l ≡ false
free-owned_by c l e = go l.cpu
  where
    go : (o : Option ℕ) → (elim o [ none ↦ false | some d ↦ not (l.locked == 0) && d == c ]) ≡ false
    go none = refl
    go (some d) = rw e refl

pub spin_lock-taken :
    (c lk : ℕ) (s : Kmt) → (s.locks lk).locked ≡ 0 → spin_lock c lk s ≡ ended (taken_lock c lk s)
unfolding spin_lock
spin_lock-taken c lk s e =
    rw
      (
        pushcli-pushed c s,
        holding-Inside c lk (pushed c s) (pushed-Inside c s),
        free-owned_by c (s.locks lk) e,
        e,
      )
      refl

pub spin_unlock-left :
    (c lk n : ℕ) (s : Kmt)
    → Inside c s
    → (s.cpu_local c).ncli ≡ suc n
    → owned_by c (s.locks lk) ≡ true
    → spin_unlock c lk s ≡ ended (left c n (set_lock lk (freed_lock lk s) s))
unfolding spin_unlock
spin_unlock-left c lk n s (pos, off) e own =
    rw (holding-Inside c lk s (pos, off), own)
      (popcli-left c n (set_lock lk (freed_lock lk s) s) off e)
