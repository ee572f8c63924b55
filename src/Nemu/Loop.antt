-- ===== src/Nemu/Loop.antt =====
-- The execution loop: `cpu_exec` of Emulator/nemu/src/monitor/cpu-exec.c as it is compiled, without
-- DEBUG and DIFF_TEST. The devices are a parameter, and the number of instructions for the log is left out.
pub mod Split
mod Tests
use projects_demonstration.Base.{ℕ, zero, suc, Bool, true, false, if◌then◌else◌}
use projects_demonstration.Nemu.{
  Machine, NemuState, nemu_stop, nemu_running, nemu_end, nemu_abort, Run, ◌>>=◌, ◌>>◌, pure, get,
  modify,
}
use projects_demonstration.Nemu.Decode.{when}
use projects_demonstration.Nemu.Exec.{exec_once}

abbrev pub is_over : NemuState → Bool
is_over nemu_stop = false
is_over nemu_running = false
is_over nemu_end = true
is_over nemu_abort = true

abbrev pub still_running : NemuState → Bool
still_running nemu_stop = false
still_running nemu_running = true
still_running nemu_end = false
still_running nemu_abort = false

abbrev pub set_state : NemuState → Run (Unit {0})
set_state s = modify (λ m. record m { state = s })

module _ (device_update : Run (Unit {0})) (fuel : ℕ) where
  -- `n` instructions, or fewer when one of them or a device changes the state.
  unfoldable pub exec_loop : (n : ℕ) → Run (Unit {0})
  exec_loop zero = pure tt
  exec_loop (suc n) = do
    seq_pc ← exec_once fuel
    device_update
    s ← get (λ m. m.state)
    when (still_running s) (exec_loop n)

  -- What a run of the loop leaves in place of `nemu_running`.
  abbrev pub stop_running : Run (Unit {0})
  stop_running = get (λ m. m.state) >>= λ s. when (still_running s) (set_state nemu_stop)

  unfoldable pub cpu_exec : (n : ℕ) → Run (Unit {0})
  cpu_exec n = do
    s ← get (λ m. m.state)
    (if is_over s then pure tt else (do set_state nemu_running; exec_loop n; stop_running))
