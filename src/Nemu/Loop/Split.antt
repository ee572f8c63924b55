-- ===== src/Nemu/Loop/Split.antt =====
-- A run of the loop in two parts.
use projects_demonstration.Base.{
  ℕ, zero, suc, ◌+◌, ◌≡◌, refl, sym, ap, ◌∙◌, Bool, true, false, none, some, ◌⊎◌, inl, inr, arith,
  Bool-cases, Option-cases, if◌then◌else◌,
}
use projects_demonstration.Nemu.{
  Machine, NemuState, nemu_stop, nemu_running, nemu_end, nemu_abort, Run, ◌>>◌, pure,
}
use projects_demonstration.Nemu.Decode.{when}
use projects_demonstration.Nemu.Exec.{exec_once}
use projects_demonstration.Nemu.Steps.{after, after_bind, fails, fails_bind, go_on, regroup}
use projects_demonstration.Nemu.Loop.{
  is_over, still_running, set_state, exec_loop, stop_running, cpu_exec,
}

-- After an instruction of a running machine the devices leave it running or end it.
unfoldable pub NeverStops : Run (Unit {0}) → (fuel : ℕ) → Type 0
NeverStops d fuel =
    (pc : ℕ) (m m1 m2 : Machine)
    → m.state ≡ nemu_running
    → exec_once fuel m ≡ some (pc, m1)
    → d m1 ≡ some (tt, m2)
    → (still_running m2.state ≡ true) ⊎ (is_over m2.state ≡ true)

running_state : (s : NemuState) → still_running s ≡ true → s ≡ nemu_running
running_state nemu_running e = refl
running_state nemu_stop e = absurd (ground arith)
running_state nemu_end e = absurd (ground arith)
running_state nemu_abort e = absurd (ground arith)

over_state : (s : NemuState) → is_over s ≡ true → still_running s ≡ false
over_state nemu_running e = absurd (ground arith)
over_state nemu_stop e = refl
over_state nemu_end e = refl
over_state nemu_abort e = refl

abbrev started : Machine → Machine
started m = record m { state = nemu_running }

module _ (d : Run (Unit {0})) (fuel : ℕ) where
  -- The rest of two runs, the first of which has `a` instructions left, and of one.
  abbrev two_runs : (a b : ℕ) → Run (Unit {0})
  two_runs a b = exec_loop d fuel a >> (stop_running d fuel >> cpu_exec d fuel b)

  abbrev one_run : (n : ℕ) → Run (Unit {0})
  one_run n = exec_loop d fuel n >> stop_running d fuel

  running_again : (b : ℕ) (m : Machine) → m.state ≡ nemu_running → two_runs 0 b m ≡ one_run b m
  unfolding exec_loop cpu_exec
  running_again b m e =
      ap (two_runs 0 b) (λ i. record m { state = e i })
      ∙ ap (one_run b) (λ i. record m { state = sym e i })

  over_stays :
      (b : ℕ) (m : Machine)
      → is_over m.state ≡ true
      → still_running m.state ≡ false
      → (stop_running d fuel m ≡ some (tt, m)) × (cpu_exec d fuel b m ≡ some (tt, m))
  unfolding cpu_exec
  over_stays b m o r = (
    ap (λ t. when t (set_state nemu_stop) m) r,
    ap
        (λ t.
          (if t
              then pure tt
              else (set_state nemu_running >> (exec_loop d fuel b >> stop_running d fuel)))
            m)
        o,
  )

  begins :
      (n : ℕ) (m : Machine) → is_over m.state ≡ false → cpu_exec d fuel n m ≡ one_run n (started m)
  unfolding cpu_exec
  begins n m o =
      ap
        (λ t.
          (if t
              then pure tt
              else (set_state nemu_running >> (exec_loop d fuel n >> stop_running d fuel)))
            m)
        o

  step_on :
      (a pc : ℕ) (m m1 m2 : Machine) (running : Bool)
      → exec_once fuel m ≡ some (pc, m1)
      → d m1 ≡ some (tt, m2)
      → still_running m2.state ≡ running
      → exec_loop d fuel (suc a) m ≡ when running (exec_loop d fuel a) m2
  unfolding exec_loop
  step_on a pc m m1 m2 running e f r =
      after_bind (exec_once fuel) _ m e
      ∙ after d _ m1 f
      ∙ ap (λ t. when t (exec_loop d fuel a) m2) r

  step_fails : (a : ℕ) (m : Machine) → exec_once fuel m ≡ none → exec_loop d fuel (suc a) m ≡ none
  unfolding exec_loop
  step_fails a m e = fails_bind (exec_once fuel) _ m e

  device_fails :
      (a pc : ℕ) (m m1 : Machine)
      → exec_once fuel m ≡ some (pc, m1)
      → d m1 ≡ none
      → exec_loop d fuel (suc a) m ≡ none
  unfolding exec_loop
  device_fails a pc m m1 e f = after_bind (exec_once fuel) _ m e ∙ fails d _ m1 f

  -- The induction step, by what the instruction and the devices do.
  split_step :
      (a b : ℕ) (m : Machine)
      → NeverStops d fuel
      → m.state ≡ nemu_running
      → ((m2 : Machine) → m2.state ≡ nemu_running → two_runs a b m2 ≡ one_run (a + b) m2)
      → two_runs (suc a) b m ≡ one_run (suc (a + b)) m
  unfolding NeverStops
  split_step a b m never e rec = elim (Option-cases (exec_once fuel m)) [
    | inl f ↦
        fails (exec_loop d fuel (suc a)) (stop_running d fuel >> cpu_exec d fuel b) m
          (step_fails a m f)
        ∙ sym (
            fails (exec_loop d fuel (suc (a + b))) (stop_running d fuel) m (step_fails (a + b) m f))
    | inr ((pc, m1), f) ↦ elim (Option-cases (d m1)) [
      | inl g ↦
          fails (exec_loop d fuel (suc a)) (stop_running d fuel >> cpu_exec d fuel b) m
            (device_fails a pc m m1 f g)
          ∙ sym (
              fails (exec_loop d fuel (suc (a + b))) (stop_running d fuel) m
                (device_fails (a + b) pc m m1 f g))
      | inr ((u, m2), g) ↦ elim (never pc m m1 m2 e f g) [
        | inl r ↦
            go_on (exec_loop d fuel (suc a)) (exec_loop d fuel a) _ m m2
              (step_on a pc m m1 m2 true f g r)
            ∙ rec m2 (running_state m2.state r)
            ∙ sym (
                go_on (exec_loop d fuel (suc (a + b))) (exec_loop d fuel (a + b))
                  (stop_running d fuel) m m2 (step_on (a + b) pc m m1 m2 true f g r))
        | inr o ↦
            after (exec_loop d fuel (suc a)) _ m
              (step_on a pc m m1 m2 false f g (over_state m2.state o))
            ∙ after (stop_running d fuel) (cpu_exec d fuel b) m2
                ((over_stays b m2 o (over_state m2.state o)).0)
            ∙ (over_stays b m2 o (over_state m2.state o)).1
            ∙ sym (
                after (exec_loop d fuel (suc (a + b))) (stop_running d fuel) m
                  (step_on (a + b) pc m m1 m2 false f g (over_state m2.state o))
                ∙ (over_stays b m2 o (over_state m2.state o)).0)
      ]
    ]
  ]

  split_run :
      (a b : ℕ) (m : Machine)
      → NeverStops d fuel
      → m.state ≡ nemu_running
      → two_runs a b m ≡ one_run (a + b) m
  split_run zero b m never e =
      running_again b m e ∙ ap (λ n. one_run n m) {x = b} {y = 0 + b} (omega arith)
  split_run (suc a) b m never e =
      split_step a b m never e (λ m2 e2. split_run a b m2 never e2)
      ∙ ap (λ n. one_run n m) {x = suc (a + b)} {y = suc a + b} (omega arith)

-- If the devices leave a running machine running or end it, executing `a` instructions and then `b` is executing
-- `a + b`: the same failure, or the same machine, also where the program ends on the way or had
-- ended before.
pub cpu_exec_add :
    (d : Run (Unit {0})) (fuel a b : ℕ) (m : Machine)
    → NeverStops d fuel
    → (cpu_exec d fuel a >> cpu_exec d fuel b) m ≡ cpu_exec d fuel (a + b) m
cpu_exec_add d fuel a b m never = elim (Bool-cases (is_over m.state)) [
  | inl o ↦
      after (cpu_exec d fuel a) (cpu_exec d fuel b) m
        ((over_stays d fuel a m o (over_state m.state o)).1)
      ∙ (over_stays d fuel b m o (over_state m.state o)).1
      ∙ sym ((over_stays d fuel (a + b) m o (over_state m.state o)).1)
  | inr o ↦
      go_on (cpu_exec d fuel a) (one_run d fuel a) (cpu_exec d fuel b) m (started m)
        (begins d fuel a m o)
      ∙ regroup (exec_loop d fuel a) (stop_running d fuel) (cpu_exec d fuel b) (started m)
      ∙ split_run d fuel a b (started m) never refl
      ∙ sym (begins d fuel (a + b) m o)
]
