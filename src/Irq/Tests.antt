-- ===== src/Irq/Tests.antt =====
-- The handlers that `kmt_init` registers, at concrete addresses.
use projects_demonstration.Base.{
  ℕ, ◌+◌, ◌≡◌, refl, List, [], ◌∷◌, arith, Option, none, some, inr, update,
}
use projects_demonstration.Irq.{
  Irq, Result, returns, event_null, event_yield, event_irq_timer, os_on_irq, os_trap, trap_from,
}
use projects_demonstration.Irq.Ring.{IsRing}
use projects_demonstration.Irq.Register.{Registers, os_on_irq-Registers, os_on_irq_dropped}
use projects_demonstration.Irq.Trap.{run_all, served, verdict, contexts, os_trap-verdict}

-- A state that counts the calls, and contexts that are numbers.
abbrev save : ℕ → Option ℕ → ℕ → Option ℕ × ℕ
save ev context st = (none, st + 1)

abbrev schedule : ℕ → Option ℕ → ℕ → Option ℕ × ℕ
schedule ev context st = (some 7, st + 10)

abbrev empty_ring : Irq ℕ ℕ
empty_ring = record {
  head = 100;
  mem = λ k. record { handler = save; seq = 0; event = event_null; next = 100 };
}

empty-IsRing : IsRing empty_ring []
empty-IsRing = record { linked = refl; ordered = tt; head_seq = refl }

abbrev one_handler : Irq ℕ ℕ
one_handler = record {
  head = 100;
  mem =
      update (λ k. record { handler = save; seq = 0; event = event_null; next = 1 }) 1
        (record { handler = schedule; seq = 50; event = event_null; next = 100 });
}

one-IsRing : IsRing one_handler (1 ∷ [])
one-IsRing = record {
  linked = (refl, omega arith, tt, refl);
  ordered = (omega arith, tt);
  head_seq = refl;
}

os_on_irq-Registers_example :
    (s' : Irq ℕ ℕ) × (ys : List ℕ) × (os_on_irq 5 2 70 event_yield save one_handler ≡ returns s')
    × Registers one_handler s' (1 ∷ []) ys 2 70 event_yield save
os_on_irq-Registers_example =
    os_on_irq-Registers one_handler 2 70 event_yield save 5 (omega arith) (omega arith)
      (omega arith, tt) one-IsRing (omega arith)

os_on_irq_dropped_example :
    (s' : Irq ℕ ℕ) × (os_on_irq 5 2 20 event_yield save one_handler ≡ returns s')
    × IsRing s' (1 ∷ [])
    × (s'.head ≡ 100)
os_on_irq_dropped_example =
    os_on_irq_dropped one_handler 2 20 event_yield save 5 1 (omega arith) (omega arith)
      (omega arith, tt) one-IsRing (omega arith)

os_trap-verdict_example : os_trap 5 event_yield (some 3) one_handler 0 ≡ (
    let (rs, st') =
      run_all one_handler event_yield (some 3) (served one_handler event_yield (1 ∷ [])) 0 in
    verdict (contexts rs) st')
os_trap-verdict_example =
    os_trap-verdict one_handler event_yield (some 3) 5 0 (omega arith) one-IsRing (inr refl)

booted : Result (ℕ × ℕ) → ℕ
booted (returns (c, st)) = st
booted _ = 0

trap_once : booted (os_trap 5 event_irq_timer none one_handler 0) ≡ 10
unfolding booted os_trap trap_from
trap_once = refl
