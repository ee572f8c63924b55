-- ===== src/Kmt/Schedule.antt =====
-- The two interrupt handlers of OSkernel/kernel/src/kmt.c, `kmt_context_save` and `kmt_schedule`,
-- and `init_cpu_local` and `init_idles`. Asserts and `assert` fail as `panics`.
pub mod Rotate
pub mod Choose
pub mod Switch
pub mod Save
pub mod OnePlace
pub mod Interrupt
mod Tests
use projects_demonstration.Base.{
  ℕ, zero, suc, ◌+◌, Bool, true, false, ◌&&◌, ◌||◌, not, if◌then◌else◌, ◌==◌, update,
}
use projects_demonstration.Kmt.{
  TaskStatus, idle, Task, CpuLocal, Kmt, Ended, ended, panics, out_of_fuel, bind, set_cpu,
  spin_lock, spin_unlock,
}
use projects_demonstration.Kmt.Queue.{
  is_running, tasks_enque_ulk, tasks_enque_lk, tasks_deque_ulk, check_running_ulk,
}

abbrev pub is_idle : TaskStatus → Bool
is_idle idle = true
is_idle _ = false

-- The while loop of `kmt_schedule`.
unfoldable pub rotate : ℕ → (transfer : ℕ) → Kmt → Ended (ℕ × Kmt)
rotate zero transfer s = out_of_fuel
rotate (suc fuel) transfer s =
    let again =
      bind (tasks_enque_ulk transfer s)
        (λ (s' : Kmt). bind (tasks_deque_ulk s') (λ (r : ℕ × Kmt). rotate fuel r.0 r.1)) in
    if is_running (s.tasks transfer).status then ended (transfer, s) else again

abbrev pub set_current : ℕ → ℕ → Kmt → Kmt
set_current c task s = set_cpu c (record (s.cpu_local c) { current = task }) s

-- The choice of the next task, under the lock.
unfoldable pub choose : ℕ → (c : ℕ) → Kmt → Ended Kmt
choose fuel c s = bind (check_running_ulk fuel s) (λ (some_running : Bool).
    if some_running
    then bind (tasks_deque_ulk s) (λ (r : ℕ × Kmt).
      bind (rotate fuel r.0 r.1) (λ (r' : ℕ × Kmt). ended (set_current c r'.0 r'.1)))
    else ended (set_current c (s.idles c) s))

-- `kmt_schedule`: the context that it returns, and the state.
unfoldable pub kmt_schedule : ℕ → (c : ℕ) → Kmt → Ended (ℕ × Kmt)
kmt_schedule fuel c s =
    let s1 = set_cpu c (record (s.cpu_local c) { last = (s.cpu_local c).current }) s in
    bind (spin_lock c s.queue_lk s1) (λ (s2 : Kmt). bind (choose fuel c s2) (λ (s3 : Kmt).
      bind (spin_unlock c s.queue_lk s3)
        (λ (s4 : Kmt). ended ((s4.tasks (s4.cpu_local c).current).context, s4))))

-- The asserts at the start of `kmt_context_save`.
abbrev pub may_save : (c : ℕ) → Kmt → Bool
may_save c s =
    let l = s.cpu_local c in
    not (l.current == 0)
    && (if (s.tasks l.current).context == 0
        then l.current == s.idles c && (l.last == 0 && is_idle (s.tasks l.current).status)
        else not (l.last == 0))

unfoldable pub kmt_context_save : (c context : ℕ) → Kmt → Ended Kmt
kmt_context_save c context s =
    let l = s.cpu_local c in
    let enqued =
      if not (l.last == 0) && not (is_idle (s.tasks l.last).status)
      then tasks_enque_lk c l.last s
      else ended s in
    if may_save c s
    then bind enqued (λ (s' : Kmt).
      let current = (s'.cpu_local c).current in
      ended (record s' {
        tasks = update s'.tasks current (record (s'.tasks current) { context = context });
      }))
    else panics

-- What `os_trap` runs for a timer or yield event: the two handlers that `kmt_init` registers, at
-- INT_MIN and INT_MAX.
unfoldable pub interrupt : ℕ → (c context : ℕ) → Kmt → Ended (ℕ × Kmt)
interrupt fuel c context s =
    bind (kmt_context_save c context s) (λ (s' : Kmt). kmt_schedule fuel c s')

-- `init_cpu_local` for the CPUs from `i` on, with `left` to go.
unfoldable pub init_cpu_local : (left i : ℕ) → Kmt → Kmt
init_cpu_local zero i s = s
init_cpu_local (suc left) i s =
    init_cpu_local left (i + 1)
      (set_cpu i (record { current = s.idles i; last = 0; ncli = 0; intena = true; id = i }) s)

-- `init_idles`, in the same way; `prev` is left as it is.
unfoldable pub init_idles : (name left i : ℕ) → Kmt → Kmt
init_idles name zero i s = s
init_idles name (suc left) i s = init_idles name left (i + 1) (record s {
  tasks =
      update s.tasks (s.idles i)
        (record (s.tasks (s.idles i)) { status = idle; context = 0; name = name; next = 0 });
})
