-- ===== src/Nemu/Loop/Tests.antt =====
-- The theorem on the loop at a program of two instructions.
use projects_demonstration.Base.{
  ◌+◌, ◌≡◌, refl, sym, ap, ◌∙◌, true, Option, some, none, ◌⊎◌, inl, inr, [], ◌∷◌, arith,
}
use projects_demonstration.Nemu.{
  Machine, NemuState, nemu_stop, nemu_running, nemu_end, nemu_abort, Run, ◌>>◌,
}
use projects_demonstration.Nemu.Example.{machine_with}
use projects_demonstration.Nemu.Loop.{still_running, is_over, cpu_exec}
use projects_demonstration.Nemu.Loop.Split.{NeverStops, cpu_exec_add}

-- Devices that do nothing, and are not run on a machine that was stopped.
abbrev idle_at : NemuState → Run (Unit {0})
idle_at nemu_stop m = none
idle_at nemu_running m = some (tt, m)
idle_at nemu_end m = some (tt, m)
idle_at nemu_abort m = some (tt, m)

abbrev idle_devices : Run (Unit {0})
idle_devices m = idle_at m.state m

-- An `inc` of register 0 and a `nop`.
abbrev two_instructions : Machine
two_instructions = machine_with (0x40 ∷ 0x90 ∷ [])

abbrev kept : Option (Unit {0} × Machine) → Machine → NemuState
kept none m = m.state
kept (some (u, m2)) m = m2.state

idle_ends :
    (s : NemuState) (m m2 : Machine)
    → idle_at s m ≡ some (tt, m2)
    → m.state ≡ s
    → (still_running m2.state ≡ true) ⊎ (is_over m2.state ≡ true)
idle_ends nemu_stop m m2 e f = absurd (ground arith)
idle_ends nemu_running m m2 e f =
    inl (ap (λ o. still_running (kept o m)) (sym e) ∙ ap still_running f)
idle_ends nemu_end m m2 e f = inr (ap (λ o. is_over (kept o m)) (sym e) ∙ ap is_over f)
idle_ends nemu_abort m m2 e f = inr (ap (λ o. is_over (kept o m)) (sym e) ∙ ap is_over f)

idle_devices-NeverStops : NeverStops idle_devices 2
unfolding NeverStops
idle_devices-NeverStops pc m m1 m2 e f g = idle_ends m1.state m1 m2 g refl

cpu_exec_add_example :
    (cpu_exec idle_devices 2 1 >> cpu_exec idle_devices 2 1) two_instructions
    ≡ cpu_exec idle_devices 2 (1 + 1) two_instructions
cpu_exec_add_example = cpu_exec_add idle_devices 2 1 1 two_instructions idle_devices-NeverStops
