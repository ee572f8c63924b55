-- ===== src/Nemu/Exec/Tests.antt =====
-- The theorems of Exec at concrete machines.
use projects_demonstration.Base.{
  ℕ, ◌-◌, ◌<◌, ◌≡◌, refl, true, false, some, List, [], ◌∷◌, inl, update, get_or, if◌then◌else◌, ltb,
  arith,
}
use projects_demonstration.Nemu.{Machine, op_reg, ◌>>◌}
use projects_demonstration.Nemu.Example.{machine_with}
use projects_demonstration.Nemu.Exec.{update_pc}
use projects_demonstration.Nemu.Exec.Arith.{exec_cmp, exec_add, exec_inc, exec_adc}
use projects_demonstration.Nemu.Exec.Calls.{call_then_ret}
use projects_demonstration.Nemu.Exec.Compare.{after_cmp, jump_ends, cmp_then_jcc}
use projects_demonstration.Nemu.Exec.Conditions.{less}
use projects_demonstration.Nemu.Exec.Control.{exec_jcc, exec_call, exec_ret}
use projects_demonstration.Nemu.Exec.Entry.{entry_target}
use projects_demonstration.Nemu.Exec.Flags.{add_long, inc_stale, adc_long}
use projects_demonstration.Nemu.Exec.Interrupt.{raise_then_iret}
use projects_demonstration.Nemu.Exec.Move.{exec_pusha, exec_popa}
use projects_demonstration.Nemu.Exec.SaveRegs.{saved, restored, pusha_then_popa}
use projects_demonstration.Nemu.Exec.StackSteps.{Known, IsLongs}
use projects_demonstration.Nemu.Exec.System.{raise_intr, exec_iret}
use projects_demonstration.Nemu.Reg.Stack.{Holds, IsStack}
use projects_demonstration.Nemu.Rtl.Flags.{HasFlags}
use projects_demonstration.Nemu.Steps.{Ends}

-- -1 in ECX and 1 in the source, of four bytes.
abbrev operands : (dest src : ℕ) → Machine
operands dest src = record (machine_with []) {
  dest = record { type = op_reg; width = 4; slot = 1; val = dest };
  src = record { type = op_reg; width = 4; slot = 3; val = src };
}

abbrev compared : Machine
compared = operands 0xffffffff 1

abbrev at_jl : Machine
at_jl = record (after_cmp compared) { opcode = 0x7c; jmp_pc = 0x200 }

cmp_then_jcc_example :
    (exec_cmp compared ≡ some (tt, after_cmp compared))
    × ((exec_jcc >> update_pc) at_jl ≡ some (tt, jump_ends true at_jl))
cmp_then_jcc_example =
    cmp_then_jcc less false compared at_jl
      (record { width = refl; dest-lt = omega arith; src-lt = omega arith }) refl refl

add_long_example : Ends exec_add (operands 0x7fffffff 1) (λ u m'.
    (m'.gpr ≡ update (operands 0x7fffffff 1).gpr 1 0x80000000) × HasFlags false true true false m')
add_long_example = add_long (operands 0x7fffffff 1) (record {
  long = record { width = refl; dest-lt = omega arith; src-lt = omega arith };
  type = refl;
  reg-lt = omega arith;
})

inc_stale_example : Ends exec_inc (operands 0x7fffffff 0x80000000) (λ u m'.
    (m'.gpr ≡ update (operands 0x7fffffff 0x80000000).gpr 1 0x80000000)
    × HasFlags false true false false m')
inc_stale_example =
    inc_stale (operands 0x7fffffff 0x80000000)
      (record {
        long = record { width = refl; dest-lt = omega arith; src-lt = omega arith };
        type = refl;
        reg-lt = omega arith;
      })
      (omega arith)

adc_long_example : Ends exec_adc (operands 0x7fffffff 1) (λ u m'.
    (m'.gpr ≡ update (operands 0x7fffffff 1).gpr 1 0x80000000) × HasFlags false true false false m')
adc_long_example = adc_long (operands 0x7fffffff 1) (record {
  long = record { width = refl; dest-lt = omega arith; src-lt = omega arith };
  type = refl;
  reg-lt = omega arith;
})

-- No values on the stack and room for eight.
abbrev empty_stack : Machine
empty_stack = record (machine_with []) { jmp_pc = 0x200 }

empty_stack-IsStack : (n : ℕ) → n < 9 → IsStack empty_stack n []
unfolding Holds
empty_stack-IsStack n lt = record {
  flat = omega arith;
  aligned = refl;
  low = omega arith;
  high = omega arith;
  space = omega arith;
  values = tt;
}

call_then_ret_example : Ends exec_call empty_stack (λ u m1.
    (m1.pc ≡ 0x200)
    × (m1.is_jmp ≡ true)
    × IsStack m1 0 (0x100000 ∷ [])
    × Ends exec_ret m1
        (λ u' m2. (m2.pc ≡ 0x100000) × (m2.is_jmp ≡ true) × IsStack m2 1 [] × (m2.gpr 3 ≡ 3)))
call_then_ret_example =
    call_then_ret 3 empty_stack 0 [] (omega arith) (empty_stack-IsStack 1 (omega arith))

-- Memory that holds the bytes from 0x8000 on.
abbrev stack_of : List ℕ → Machine
stack_of bytes = record (machine_with []) {
  host = λ a. if ltb a 0x8000 then 0 else get_or bytes (a - 0x8000) 0;
}

abbrev all_regs : Machine
all_regs = stack_of (
    0 ∷ 0x80 ∷ 0 ∷ 0 ∷ 0 ∷ 0x80 ∷ 0 ∷ 0 ∷ 0 ∷ 0x80 ∷ 0 ∷ 0 ∷ 0 ∷ 0x80 ∷ 0 ∷ 0 ∷ 3 ∷ 0 ∷ 0 ∷ 0 ∷ 2
    ∷ 0 ∷ 0 ∷ 0 ∷ 1 ∷ [])

all_regs-IsStack : IsStack all_regs 0 (saved empty_stack.gpr [])
unfolding Holds
all_regs-IsStack = record {
  flat = omega arith;
  aligned = refl;
  low = omega arith;
  high = omega arith;
  space = omega arith;
  values = (refl, (refl, (refl, (refl, (refl, (refl, (refl, (refl, tt))))))));
}

empty_stack-IsLongs : IsLongs empty_stack.gpr
unfolding IsLongs
empty_stack-IsLongs r = ground arith

pusha_then_popa_example :
    Ends exec_pusha empty_stack (λ u m1. IsStack m1 0 (saved empty_stack.gpr []))
    × Ends exec_popa all_regs (λ u m1. IsStack m1 8 [] × Known m1 (restored empty_stack.gpr))
pusha_then_popa_example =
    pusha_then_popa empty_stack all_regs 0 [] empty_stack-IsLongs
      (empty_stack-IsStack 8 (omega arith)) all_regs-IsStack

abbrev interrupted : Machine
interrupted = stack_of (5 ∷ 0 ∷ 0x10 ∷ [])

interrupted-IsStack : IsStack interrupted 0 (0x100005 ∷ 0 ∷ 0 ∷ [])
unfolding Holds
interrupted-IsStack = record {
  flat = omega arith;
  aligned = refl;
  low = omega arith;
  high = omega arith;
  space = omega arith;
  values = (refl, (refl, (refl, tt)));
}

raise_then_iret_example :
    Ends (raise_intr 1 0x100005) empty_stack (λ u m1.
      (m1.pc ≡ entry_target empty_stack 8)
      × (m1.is_jmp ≡ true)
      × IsStack m1 0 (0x100005 ∷ 0 ∷ 0 ∷ []))
    × Ends exec_iret interrupted (λ u m1.
      (m1.pc ≡ 0x100005) × (m1.is_jmp ≡ true) × (m1.cs ≡ 0) × (m1.eflags ≡ 0) × IsStack m1 3 [])
raise_then_iret_example =
    raise_then_iret 1 0x100005 empty_stack interrupted 0 [] (omega arith) (omega arith)
      (omega arith) (empty_stack-IsStack 3 (omega arith))
      (record {
        aligned = refl;
        low = omega arith;
        high = omega arith;
        space = omega arith;
        apart = inl (omega arith);
      })
      interrupted-IsStack
