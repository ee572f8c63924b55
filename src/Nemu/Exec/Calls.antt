-- ===== src/Nemu/Exec/Calls.antt =====
-- Calls and returns, and all registers on the stack, with paging off: `call` and `ret` of
-- Emulator/nemu/src/isa/x86/exec/control.c, `pusha` and `popa` of data-mov.c there.
use projects_demonstration.Base.{ℕ, suc, ◌^◌, ◌<◌, ◌≡◌, refl, true, List, ◌∷◌}
use projects_demonstration.Nemu.{Machine}
use projects_demonstration.Nemu.Exec.Control.{exec_call, exec_ret}
use projects_demonstration.Nemu.Reg.{rtl_push, rtl_pop, rtl_j}
use projects_demonstration.Nemu.Reg.Stack.{
  IsStack, pushed, push_lem, pop_lem, push-IsStack, pop-IsStack, same_reg, esp_back, top,
}
use projects_demonstration.Nemu.Steps.{after, after_bind, Ends, ends}

-- A machine that has just jumped.
abbrev jumped_to : ℕ → Machine → Machine
jumped_to target m = record m { pc = target; is_jmp = true }

-- With paging off and room on the stack, `call` returns with `pc` at the target and the address of the next
-- instruction pushed; `ret` on the machine it leaves jumps to that address, and leaves the stack and
-- every register as they were.
pub call_then_ret :
    (r : ℕ) (m : Machine) (n : ℕ) (vs : List ℕ)
    → m.seq_pc < 2 ^ 32
    → IsStack m (suc n) vs
    → Ends exec_call m (λ u m1.
      (m1.pc ≡ m.jmp_pc)
      × (m1.is_jmp ≡ true)
      × IsStack m1 n (m.seq_pc ∷ vs)
      × Ends exec_ret m1 (λ u' m2.
        (m2.pc ≡ m.seq_pc) × (m2.is_jmp ≡ true) × IsStack m2 (suc n) vs × (m2.gpr r ≡ m.gpr r)))
unfolding exec_call exec_ret
call_then_ret r m n vs lt s =
    ends exec_call m _ (after (rtl_push m.seq_pc) _ m (push_lem m.seq_pc m n vs s)) (
      refl,
      refl,
      s1,
      ends exec_ret (jumped_to m.jmp_pc (pushed m.seq_pc m)) _
          (after_bind rtl_pop rtl_j (jumped_to m.jmp_pc (pushed m.seq_pc m))
            (pop_lem (jumped_to m.jmp_pc (pushed m.seq_pc m)) n m.seq_pc vs s1))
          (
            refl,
            refl,
            pop-IsStack (jumped_to m.jmp_pc (pushed m.seq_pc m)) n m.seq_pc vs s1,
            same_reg m.gpr (top m) _ r (esp_back m n vs s),
          ),
    )
  where
    s1 : IsStack (jumped_to m.jmp_pc (pushed m.seq_pc m)) n (m.seq_pc ∷ vs)
    s1 = push-IsStack m.seq_pc m n vs lt s
