-- ===== src/Irq/Trap.antt =====
-- `os_trap` calls the handlers of its event in the order of the ring.
use projects_demonstration.Base.{
  ℕ, zero, suc, ◌<◌, ◌≡◌, refl, ◌∙◌, false, not, List, [], ◌∷◌, if◌then◌else◌, ◌==◌, ◌&&◌, ◌||◌,
  length, eq→==, ne→==, arith, Option, none, some, inl, inr, ◌⊎◌, Bool, Bool-cases,
}
use projects_demonstration.Irq.{
  Irq, Result, returns, halts, keep_context, and_then, after_handlers, trap_from, os_trap,
  event_null, event_irq_timer, event_yield,
}
use projects_demonstration.Irq.Ring.{Seg, IsRing}

module _ {C : Type 0} where
  -- The contexts among the answers of handlers.
  abbrev pub contexts : List (Option C) → List C
  contexts [] = []
  contexts (none ∷ rs) = contexts rs
  contexts (some c ∷ rs) = c ∷ contexts rs

module _ {S C : Type 0} where
  -- One context is the result; none, or more than one, is a failure.
  abbrev pub verdict : List C → S → Result (C × S)
  verdict [] st = halts
  verdict (c ∷ []) st = returns (c, st)
  verdict (c ∷ d ∷ cs) st = halts

  answer : Option C → List C → S → Result (Option C × S)
  answer next [] st = returns (next, st)
  answer none (c ∷ []) st = returns (some c, st)
  answer none (c ∷ d ∷ cs) st = halts
  answer (some n) (c ∷ cs) st = halts

  answer-verdict : (cs : List C) (st : S) → after_handlers (answer none cs st) ≡ verdict cs st
  unfolding answer
  answer-verdict [] st = refl
  answer-verdict (c ∷ []) st = refl
  answer-verdict (c ∷ d ∷ cs) st = refl

  answer-some : (c : C) (cs : List C) (st : S) → answer (some c) cs st ≡ answer none (c ∷ cs) st
  unfolding answer
  answer-some c [] st = refl
  answer-some c (d ∷ cs) st = refl

  called_step :
      (next r : Option C) (rs : List (Option C)) (st : S) (k : Option C → Result (Option C × S))
      → ((n : Option C) → k n ≡ answer n (contexts rs) st)
      → and_then (keep_context r next) k ≡ answer next (contexts (r ∷ rs)) st
  unfolding answer
  called_step next none rs st k e = e next
  called_step none (some c) rs st k e = e (some c) ∙ answer-some c (contexts rs) st
  called_step (some n) (some c) rs st k e = refl

module _ {S C : Type 0} where
  -- The wrappers that are called for an event.
  abbrev pub serves : Irq S C → ℕ → ℕ → Bool
  serves s ev x = (s.mem x).event == event_null || (s.mem x).event == ev

  abbrev pub served : Irq S C → ℕ → List ℕ → List ℕ
  served s ev [] = []
  served s ev (x ∷ xs) = if serves s ev x then x ∷ served s ev xs else served s ev xs

  -- Calling handlers one after the other: the kernel's state and what each returned.
  abbrev pub run_all : Irq S C → ℕ → Option C → List ℕ → S → List (Option C) × S
  run_all s ev context [] st = ([], st)
  run_all s ev context (x ∷ xs) st =
      let (r, st') = (s.mem x).handler ev context st in
      let (rs, st'') = run_all s ev context xs st' in (r ∷ rs, st'')

  trap_from-served :
      (s : Irq S C) (ev : ℕ) (context next : Option C) (fuel cur : ℕ) (xs : List ℕ) (st : S)
      → length xs < fuel
      → Seg s.mem s.head cur xs
      → trap_from fuel ev context next cur s st ≡ (
          let (rs, st') = run_all s ev context (served s ev xs) st in answer next (contexts rs) st')
  unfolding trap_from answer
  trap_from-served s ev context next zero cur xs st lt seg = absurd (omega arith)
  trap_from-served s ev context next (suc fuel) cur [] st lt seg = rw (eq→== cur s.head seg) refl
  trap_from-served s ev context next (suc fuel) cur (x ∷ xs) st lt (e, off, f, seg) =
      let ne : (x == s.head) ≡ false = ne→== x s.head off in
      let (r, st') = (s.mem x).handler ev context st in
      elim (Bool-cases (serves s ev x)) [
        | inl calls ↦
            rw (e, ne, calls)
              (called_step next r (run_all s ev context (served s ev xs) st').0
                (run_all s ev context (served s ev xs) st').1
                (λ n. trap_from fuel ev context n (s.mem x).next s st')
                (λ n. trap_from-served s ev context n fuel (s.mem x).next xs st' (omega arith) seg))
        | inr passes ↦
            rw (e, ne, passes)
              (trap_from-served s ev context next fuel (s.mem x).next xs st (omega arith) seg)
      ]

  -- On a ring in order, with enough fuel to pass it, a timer or yield event calls the handlers that
  -- are registered for it or for every event, in the order of the ring, each on the state that the one
  -- before left; `os_trap` returns the one context they answer, and fails if they answer none or more
  -- than one.
  pub os_trap-verdict :
      (s : Irq S C) (ev : ℕ) (context : Option C) (fuel : ℕ) {xs : List ℕ} (st : S)
      → length xs < fuel
      → IsRing s xs
      → (ev ≡ event_irq_timer) ⊎ (ev ≡ event_yield)
      → os_trap fuel ev context s st
        ≡ (let (rs, st') = run_all s ev context (served s ev xs) st in verdict (contexts rs) st')
  unfolding os_trap
  os_trap-verdict s ev context fuel {xs} st lt r known =
      let e : (not (ev == event_irq_timer) && not (ev == event_yield)) ≡ false = ground arith in
      rw (e, trap_from-served s ev context none fuel (s.mem s.head).next xs st lt r.linked)
        (answer-verdict (contexts (run_all s ev context (served s ev xs) st).0)
          (run_all s ev context (served s ev xs) st).1)
