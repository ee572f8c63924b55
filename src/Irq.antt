-- ===== src/Irq.antt =====
-- The interrupt handlers of OSkernel/kernel/src/os.c: the ring of `handler_wrapper_t` that starts
-- and ends at the static `wrapper_head`, `check_seq`, `os_on_irq` and `os_trap`. An `int` that is
-- only compared stands as its distance from INT_MIN, so 0 is INT_MIN. A handler is a function on a
-- state `S` of the rest of the kernel and a context of type `C`; `none` is NULL.
pub mod Ring
pub mod Place
pub mod Register
pub mod Trap
mod Tests
use projects_demonstration.Base.{
  ℕ, zero, suc, ◌+◌, Bool, true, false, ◌&&◌, ◌||◌, not, Option, none, some, if◌then◌else◌, ◌==◌,
  leb, update,
}

-- The events of `_Event` that the kernel tells apart.
abbrev pub event_null : ℕ
event_null = 0

abbrev pub event_irq_timer : ℕ
event_irq_timer = 2

abbrev pub event_yield : ℕ
event_yield = 6

pub record Wrapper (S C : Type 0) : Type 0 where
  pub handler : ℕ → Option C → S → Option C × S
  pub seq : ℕ
  pub event : ℕ
  pub next : ℕ

-- `head` is the address of `wrapper_head`.
pub record Irq (S C : Type 0) : Type 0 where
  pub head : ℕ
  pub mem : ℕ → Wrapper S C

-- A call returns, or it fails an assertion or panics, or its fuel runs out.
pub data Result (A : Type 0) : Type 0 where
  returns : A → Result A
  halts no_fuel : Result A

abbrev pub and_then : {A B : Type 0} → Result A → (A → Result B) → Result B
and_then (returns x) f = f x
and_then halts f = halts
and_then no_fuel f = no_fuel

-- `if(r) next=r;` under the check that not both are contexts.
abbrev pub keep_context : {C : Type 0} → Option C → Option C → Result (Option C)
keep_context none next = returns next
keep_context (some r) none = returns (some r)
keep_context (some r) (some next) = halts

module _ {S C : Type 0} where
  -- `check_seq` from a wrapper on.
  unfoldable pub check_from : ℕ → (last_seq cur : ℕ) → Irq S C → Result Unit
  check_from zero last_seq cur s = no_fuel
  check_from (suc fuel) last_seq cur s =
      let rest = check_from fuel (s.mem cur).seq (s.mem cur).next s in
      if cur == s.head then returns tt else if leb last_seq (s.mem cur).seq then rest else halts

  unfoldable pub check_seq : ℕ → Irq S C → Result Unit
  unfolding check_from
  check_seq fuel s = check_from fuel 0 (s.mem s.head).next s

  -- The test of the loop of `os_on_irq` at the wrapper `cur`.
  unfoldable pub belongs_after : (seq cur : ℕ) → Irq S C → Bool
  belongs_after seq cur s =
      let next = (s.mem cur).next in
      (leb (s.mem cur).seq seq && leb seq (s.mem next).seq)
      || (leb (s.mem cur).seq seq && next == s.head)

  -- `new_wrapper->next = cur->next; cur->next = new_wrapper;`
  abbrev pub link_after : (new_wrapper cur : ℕ) → Irq S C → Irq S C
  link_after new_wrapper cur s =
      let mem' =
        update s.mem new_wrapper (record (s.mem new_wrapper) { next = (s.mem cur).next }) in
      record s { mem = update mem' cur (record (mem' cur) { next = new_wrapper }) }

  -- The loop of `os_on_irq`.
  unfoldable pub insert_from : ℕ → (new_wrapper seq cur : ℕ) → Irq S C → Result (Irq S C)
  unfolding belongs_after
  insert_from zero new_wrapper seq cur s = no_fuel
  insert_from (suc fuel) new_wrapper seq cur s =
      let rest = insert_from fuel new_wrapper seq (s.mem cur).next s in
      if cur == s.head
      then returns s
      else if belongs_after seq cur s
      then returns (link_after new_wrapper cur s)
      else rest

  -- `os_on_irq` after the check; `new_wrapper` is what `pmm->alloc` returned.
  unfoldable pub register :
      ℕ
      → (new_wrapper seq event : ℕ) → (ℕ → Option C → S → Option C × S)
      → Irq S C
      → Result (Irq S C)
  unfolding insert_from
  register fuel new_wrapper seq event handler s =
      let made = record (s.mem new_wrapper) { event = event; handler = handler; seq = seq } in
      let s' = record s { mem = update s.mem new_wrapper made } in
      if (s'.mem s.head).next == s.head
      then returns (link_after new_wrapper s.head s')
      else insert_from fuel new_wrapper seq (s'.mem s.head).next s'

  -- `os_on_irq`; DEBUG is defined in os.c, so the check is compiled.
  unfoldable pub os_on_irq :
      ℕ
      → (new_wrapper seq event : ℕ) → (ℕ → Option C → S → Option C × S)
      → Irq S C
      → Result (Irq S C)
  unfolding check_seq register
  os_on_irq fuel new_wrapper seq event handler s =
      and_then (check_seq fuel s) (λ u. register fuel new_wrapper seq event handler s)

  -- The loop of `os_trap`.
  unfoldable pub trap_from :
      ℕ → (ev : ℕ) → Option C → (next : Option C) → (cur : ℕ) → Irq S C → S → Result (Option C × S)
  trap_from zero ev context next cur s st = no_fuel
  trap_from (suc fuel) ev context next cur s st =
      let w = s.mem cur in
      let (r, st') = w.handler ev context st in
      let skipped = trap_from fuel ev context next w.next s st in
      let called =
        and_then (keep_context r next) (λ next'. trap_from fuel ev context next' w.next s st') in
      if cur == s.head
      then returns (next, st)
      else if w.event == event_null || w.event == ev
      then called
      else skipped

  abbrev pub after_handlers : Result (Option C × S) → Result (C × S)
  after_handlers (returns (none, st)) = halts
  after_handlers (returns (some next, st)) = returns (next, st)
  after_handlers halts = halts
  after_handlers no_fuel = no_fuel

  -- `os_trap`
  unfoldable pub os_trap : ℕ → (ev : ℕ) → Option C → Irq S C → S → Result (C × S)
  unfolding trap_from
  os_trap fuel ev context s st =
      if not (ev == event_irq_timer) && not (ev == event_yield)
      then halts
      else after_handlers (trap_from fuel ev context none (s.mem s.head).next s st)
