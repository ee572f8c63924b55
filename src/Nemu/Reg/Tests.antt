-- ===== src/Nemu/Reg/Tests.antt =====
-- The theorems of Reg at concrete registers.
use projects_demonstration.Base.{ℕ, ◌≡◌, refl, some, [], ◌∷◌, ◌>>=◌, arith}
use projects_demonstration.Nemu.Example.{machine_with}
use projects_demonstration.Nemu.Reg.{read_reg, write_reg, rtl_push, rtl_pop}
use projects_demonstration.Nemu.Reg.Access.{byte, write_then_read}
use projects_demonstration.Nemu.Reg.Stack.{Holds, IsStack, push_then_pop}
use projects_demonstration.Nemu.Steps.{Ends}

abbrev registers : ℕ → ℕ
registers = (machine_with []).gpr

-- AH and AL.
write_then_read_example :
    ((write_reg registers 4 0x1ff 1 >>= λ g. read_reg g 4 1) ≡ some 0xff)
    × ((write_reg registers 4 0x1ff 1 >>= λ g. read_reg g 0 1) ≡ read_reg registers 0 1)
write_then_read_example =
    write_then_read 1 1 byte byte registers 4 0 0x1ff (omega arith) (omega arith) (omega arith) refl

no_values : IsStack (machine_with []) 1 []
unfolding Holds
no_values = record {
  flat = omega arith;
  aligned = refl;
  low = omega arith;
  high = omega arith;
  space = omega arith;
  values = tt;
}

push_then_pop_example : Ends (rtl_push 7) (machine_with []) (λ u m1.
    IsStack m1 0 (7 ∷ []) × Ends rtl_pop m1 (λ x m2. (x ≡ 7) × IsStack m2 1 [] × (m2.gpr 3 ≡ 3)))
push_then_pop_example = push_then_pop 7 3 (machine_with []) 0 [] (omega arith) no_values
