-- ===== src/Kmt.antt =====
-- The state of OSkernel/kernel/src/kmt.c with OSkernel/kernel/include/common.h, and its spinlocks:
-- `pushcli`, `popcli`, `holding`, `kmt_spin_init`, `kmt_spin_lock` and `kmt_spin_unlock`. Every
-- operation takes the number `c` of the CPU that runs it, `_cpu()`. Addresses are numbers and 0 is
-- NULL; a pointer into `cpu_local` is the index.
pub mod Brackets
pub mod Locks
pub mod Exclusion
pub mod Queue
pub mod Schedule
mod Tests
use projects_demonstration.Base.{
  ℕ, zero, suc, ◌+◌, ◌-◌, Bool, true, false, ◌&&◌, not, Option, none, some, if◌then◌else◌, ◌==◌,
  update,
}

pub data TaskStatus : Type 0 where
  running waiting header dead idle : TaskStatus

pub record Task : Type 0 where
  pub name : ℕ
  pub context : ℕ
  pub stack_start : ℕ
  pub stack_end : ℕ
  pub prev : ℕ
  pub next : ℕ
  pub status : TaskStatus

pub record CpuLocal : Type 0 where
  pub current : ℕ
  pub last : ℕ
  pub ncli : ℕ
  pub intena : Bool
  pub id : ℕ

pub record SpinLock : Type 0 where
  pub locked : ℕ
  pub name : ℕ
  pub cpu : Option ℕ

-- `intr` is the interrupt flag of each CPU, `idles` the addresses of the array of that name.
pub record Kmt : Type 0 where
  pub task_head : ℕ
  pub queue_lk : ℕ
  pub idles : ℕ → ℕ
  pub tasks : ℕ → Task
  pub cpu_local : ℕ → CpuLocal
  pub locks : ℕ → SpinLock
  pub intr : ℕ → Bool

-- A call ends; or it panics, waits for a lock of another CPU, loops for ever on a lock of its own
-- CPU, or its fuel runs out.
pub data Ended (A : Type 0) : Type 0 where
  ended : A → Ended A
  panics spins deadlocks out_of_fuel : Ended A

abbrev pub bind : {A B : Type 0} → Ended A → (A → Ended B) → Ended B
bind (ended x) f = f x
bind panics f = panics
bind spins f = spins
bind deadlocks f = deadlocks
bind out_of_fuel f = out_of_fuel

abbrev pub set_cpu : ℕ → CpuLocal → Kmt → Kmt
set_cpu c l s = record s { cpu_local = update s.cpu_local c l }

abbrev pub set_intr : ℕ → Bool → Kmt → Kmt
set_intr c b s = record s { intr = update s.intr c b }

abbrev pub set_lock : ℕ → SpinLock → Kmt → Kmt
set_lock lk l s = record s { locks = update s.locks lk l }

unfoldable pub pushcli : ℕ → Kmt → Kmt
pushcli c s =
    let l = s.cpu_local c in
    let l' = if l.ncli == 0 then record l { intena = s.intr c } else l in
    set_cpu c (record l' { ncli = l'.ncli + 1 }) (set_intr c false s)

-- `--ncli < 0` holds where `ncli` was 0.
unfoldable pub popcli : ℕ → Kmt → Ended Kmt
popcli c s =
    let l = s.cpu_local c in
    let s' = set_cpu c (record l { ncli = l.ncli - 1 }) s in
    if s.intr c
    then panics
    else if l.ncli == 0
    then panics
    else if l.ncli - 1 == 0 && l.intena
    then ended (set_intr c true s')
    else ended s'

abbrev pub owned_by : ℕ → SpinLock → Bool
owned_by c l = elim l.cpu [ none ↦ false | some d ↦ not (l.locked == 0) && d == c ]

unfoldable pub holding : ℕ → (lock : ℕ) → Kmt → Ended (Bool × Kmt)
holding c lock s =
    let s' = pushcli c s in bind (popcli c s') (λ s''. ended (owned_by c (s'.locks lock), s''))

abbrev pub spin_init : (lk name : ℕ) → Kmt → Kmt
spin_init lk name s = set_lock lk (record { locked = 0; name = name; cpu = none }) s

-- `while(_atomic_xchg(&lk->locked, 1));` and the note of the owner.
abbrev pub take_lock : ℕ → (lk : ℕ) → Kmt → Ended Kmt
take_lock c lk s =
    if (s.locks lk).locked == 0
    then ended (set_lock lk (record (s.locks lk) { locked = 1; cpu = some c }) s)
    else spins

unfoldable pub spin_lock : ℕ → (lk : ℕ) → Kmt → Ended Kmt
spin_lock c lk s =
    bind (holding c lk (pushcli c s))
      (λ (r : Bool × Kmt). if r.0 then deadlocks else take_lock c lk r.1)

unfoldable pub spin_unlock : ℕ → (lk : ℕ) → Kmt → Ended Kmt
spin_unlock c lk s = bind (holding c lk s) (λ (r : Bool × Kmt).
    if r.0
    then popcli c (set_lock lk (record (r.1.locks lk) { locked = 0; cpu = none }) r.1)
    else panics)
