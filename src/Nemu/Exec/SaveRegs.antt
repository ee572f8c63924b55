-- ===== src/Nemu/Exec/SaveRegs.antt =====
-- All registers on the stack and back, with paging off: `pusha` and `popa` of
-- Emulator/nemu/src/isa/x86/exec/data-mov.c.
use projects_demonstration.Base.{ℕ, suc, refl, List, [], ◌∷◌, arith}
use projects_demonstration.Nemu.{Machine}
use projects_demonstration.Nemu.Exec.Move.{exec_pusha, exec_popa, pusha_with}
use projects_demonstration.Nemu.Exec.StackSteps.{
  Known, Known-nothing, IsLongs, IsLongs-lt, push_value_step, push_step, push_last, pop_step,
  pop_last, pop_away,
}
use projects_demonstration.Nemu.Reg.Stack.{IsStack}
use projects_demonstration.Nemu.Steps.{Ends}

-- The stack after `pusha`, the last pushed first.
abbrev pub saved : (ℕ → ℕ) → List ℕ → List ℕ
saved g vs = g 7 ∷ g 6 ∷ g 5 ∷ g 4 ∷ g 3 ∷ g 2 ∷ g 1 ∷ g 0 ∷ vs

pusha_with_lem :
    (m : Machine) (n : ℕ) (vs : List ℕ)
    → IsLongs m.gpr
    → IsStack m (suc (suc (suc (suc (suc (suc (suc (suc n)))))))) vs
    → Ends (pusha_with (m.gpr 4)) m (λ u m1. IsStack m1 n (saved m.gpr vs))
pusha_with_lem m n vs h s0 =
    push_step m.gpr 0 _ m _ _ _ (λ i ne. refl) (omega arith) h s0
      λ m1 r1 s1. push_step m.gpr 1 _ m1 _ _ _ r1 (omega arith) h s1 λ m2 r2 s2.
        push_step m.gpr 2 _ m2 _ _ _ r2 (omega arith) h s2 λ m3 r3 s3.
          push_step m.gpr 3 _ m3 _ _ _ r3 (omega arith) h s3 λ m4 r4 s4.
            push_value_step m.gpr (m.gpr 4) _ m4 _ _ _ r4 (IsLongs-lt m.gpr h 4) s4 λ m5 r5 s5.
              push_step m.gpr 5 _ m5 _ _ _ r5 (omega arith) h s5 λ m6 r6 s6.
                push_step m.gpr 6 _ m6 _ _ _ r6 (omega arith) h s6
                  λ m7 r7 s7. push_last m.gpr 7 m7 _ _ r7 (omega arith) h s7

-- The registers but `esp`.
abbrev pub restored : (ℕ → ℕ) → List (ℕ × ℕ)
restored g = (0, g 0) ∷ (1, g 1) ∷ (2, g 2) ∷ (3, g 3) ∷ (5, g 5) ∷ (6, g 6) ∷ (7, g 7) ∷ []

popa_lem :
    (g : ℕ → ℕ) (m : Machine) (n : ℕ) (vs : List ℕ)
    → IsStack m n (saved g vs)
    → Ends exec_popa m (λ u m1.
      IsStack m1 (suc (suc (suc (suc (suc (suc (suc (suc n)))))))) vs × Known m1 (restored g))
unfolding exec_popa
popa_lem g m n vs s0 =
    pop_step 7 _ m _ (g 7) _ [] _ (omega arith) refl refl s0 (Known-nothing m) λ m1 s1 k1.
      pop_step 6 _ m1 _ (g 6) _ _ _ (omega arith) refl refl s1 k1 λ m2 s2 k2.
        pop_step 5 _ m2 _ (g 5) _ _ _ (omega arith) refl refl s2 k2 λ m3 s3 k3.
          pop_away _ m3 _ (g 4) _ _ _ refl s3 k3 λ m4 s4 k4.
            pop_step 3 _ m4 _ (g 3) _ _ _ (omega arith) refl refl s4 k4 λ m5 s5 k5.
              pop_step 2 _ m5 _ (g 2) _ _ _ (omega arith) refl refl s5 k5 λ m6 s6 k6.
                pop_step 1 _ m6 _ (g 1) _ _ _ (omega arith) refl refl s6 k6
                  λ m7 s7 k7. pop_last 0 m7 _ (g 0) _ _ (omega arith) refl refl s7 k7

-- With paging off, `pusha` on a stack with room for eight values returns and leaves the eight registers on the
-- stack, with the stack pointer before the first push among them; `popa` on any machine with
-- these values on its stack returns, takes them off and leaves every register but the stack
-- pointer as it was when `pusha` ran.
pub pusha_then_popa :
    (m m' : Machine) (n : ℕ) (vs : List ℕ)
    → IsLongs m.gpr
    → IsStack m (suc (suc (suc (suc (suc (suc (suc (suc n)))))))) vs
    → IsStack m' n (saved m.gpr vs)
    → Ends exec_pusha m (λ u m1. IsStack m1 n (saved m.gpr vs))
      × Ends exec_popa m' (λ u m1.
        IsStack m1 (suc (suc (suc (suc (suc (suc (suc (suc n)))))))) vs × Known m1 (restored m.gpr))
unfolding exec_pusha Ends
pusha_then_popa m m' n vs h s s' = (pusha_with_lem m n vs h s, popa_lem m.gpr m' n vs s')
