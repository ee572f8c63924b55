-- ===== src/Kmt/Queue.antt =====
-- The queue of tasks in OSkernel/kernel/src/kmt.c, a doubly linked ring from and to `task_head`.
-- DEBUG is defined there, so the Asserts are part of the code.
pub mod Ring
pub mod Enque
pub mod Deque
use projects_demonstration.Base.{ℕ, zero, suc, Bool, true, false, ◌&&◌, if◌then◌else◌, ◌==◌, update}
use projects_demonstration.Kmt.{
  TaskStatus, running, dead, Task, Kmt, Ended, ended, panics, out_of_fuel, bind, spin_lock,
  spin_unlock,
}

abbrev pub set_prev : (ℕ → Task) → ℕ → ℕ → ℕ → Task
set_prev t k p = update t k (record (t k) { prev = p })

abbrev pub set_next : (ℕ → Task) → ℕ → ℕ → ℕ → Task
set_next t k n = update t k (record (t k) { next = n })

-- The four writes of `tasks_enque_ulk`.
abbrev pub link_last : (task_head task : ℕ) → (ℕ → Task) → ℕ → Task
link_last task_head task t =
    let t1 = set_prev t task (t task_head).prev in
    let t2 = set_next t1 task task_head in
    let t3 = set_next t2 (t2 task).prev task in set_prev t3 (t3 task).next task

unfoldable pub tasks_enque_ulk : (task : ℕ) → Kmt → Ended Kmt
tasks_enque_ulk task s =
    let t = link_last s.task_head task s.tasks in
    if (t (t task).prev).next == task && (t (t task).next).prev == task
    then ended (record s { tasks = t })
    else panics

unfoldable pub tasks_enque_lk : (c task : ℕ) → Kmt → Ended Kmt
tasks_enque_lk c task s =
    bind (spin_lock c s.queue_lk s)
      (λ (s' : Kmt). bind (tasks_enque_ulk task s') (λ (s'' : Kmt). spin_unlock c s.queue_lk s''))

-- The two writes of `tasks_deque_ulk` to the ring.
abbrev pub unlink_first : (task_head : ℕ) → (ℕ → Task) → ℕ → Task
unlink_first task_head t =
    let res = (t task_head).next in
    let t1 = set_next t task_head (t res).next in set_prev t1 (t1 res).next task_head

-- `res->prev=res->next=NULL`
abbrev pub clear_links : ℕ → (ℕ → Task) → ℕ → Task
clear_links res t = set_prev (set_next t res 0) res 0

unfoldable pub tasks_deque_ulk : Kmt → Ended (ℕ × Kmt)
tasks_deque_ulk s =
    let h = s.task_head in
    let res = (s.tasks h).next in
    let t = unlink_first h s.tasks in
    if res == h
    then ended (0, s)
    else if (t (t h).next).prev == h && (t (t h).prev).next == h
    then ended (res, record s { tasks = clear_links res t })
    else panics

unfoldable pub tasks_deque_lk : (c : ℕ) → Kmt → Ended (ℕ × Kmt)
tasks_deque_lk c s = bind (spin_lock c s.queue_lk s) (λ (s1 : Kmt).
    let h = s1.task_head in
    let res = (s1.tasks h).next in
    let t = unlink_first h s1.tasks in
    if res == h
    then bind (spin_unlock c s.queue_lk s1) (λ (s2 : Kmt). ended (0, s2))
    else if (t (t h).next).prev == h && (t (t h).prev).next == h
    then bind (spin_unlock c s.queue_lk (record s1 { tasks = t }))
        (λ (s2 : Kmt). ended (res, record s2 { tasks = clear_links res s2.tasks }))
    else panics)

-- The loop of `tasks_check_ulk`.
unfoldable pub check_from : ℕ → (task cur : ℕ) → Kmt → Ended Bool
check_from zero task cur s = out_of_fuel
check_from (suc fuel) task cur s =
    let rest = check_from fuel task (s.tasks cur).next s in
    if cur == s.task_head then ended false else if cur == task then ended true else rest

unfoldable pub tasks_check_ulk : ℕ → (task : ℕ) → Kmt → Ended Bool
tasks_check_ulk fuel task s = check_from fuel task (s.tasks s.task_head).next s

abbrev pub is_dead : TaskStatus → Bool
is_dead dead = true
is_dead _ = false

abbrev pub unlink : (task : ℕ) → (ℕ → Task) → ℕ → Task
unlink task t =
    let prev = (t task).prev in
    let next = (t task).next in set_prev (set_next t prev next) next prev

unfoldable pub tasks_throw_ulk : ℕ → (task : ℕ) → Kmt → Ended Kmt
tasks_throw_ulk fuel task s = bind (tasks_check_ulk fuel task s) (λ (found : Bool).
    if found && is_dead (s.tasks task).status
    then ended (record s { tasks = unlink task s.tasks })
    else panics)

unfoldable pub tasks_throw_lk : ℕ → (c task : ℕ) → Kmt → Ended Kmt
tasks_throw_lk fuel c task s = bind (spin_lock c s.queue_lk s) (λ (s' : Kmt).
    bind (tasks_throw_ulk fuel task s') (λ (s'' : Kmt). spin_unlock c s.queue_lk s''))

abbrev pub is_running : TaskStatus → Bool
is_running running = true
is_running _ = false

-- The loop of `check_running_ulk`.
unfoldable pub running_from : ℕ → (cur : ℕ) → Kmt → Ended Bool
running_from zero cur s = out_of_fuel
running_from (suc fuel) cur s =
    let rest = running_from fuel (s.tasks cur).next s in
    if cur == s.task_head
    then ended false
    else if is_running (s.tasks cur).status
    then ended true
    else rest

unfoldable pub check_running_ulk : ℕ → Kmt → Ended Bool
check_running_ulk fuel s = running_from fuel (s.tasks s.task_head).next s
