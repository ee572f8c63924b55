-- ===== src/Nemu/Exec/Flags.antt =====
-- The results and flags of the additions and subtractions of four bytes into a register:
-- Emulator/nemu/src/isa/x86/exec/arith.c.
use mathlib.Core.Path.{subst}
use projects_demonstration.Base.{
  ℕ, ◌+◌, ◌-◌, ◌/◌, ◌%◌, ◌^◌, ◌<◌, ◌≤◌, ◌≡◌, refl, ap, ◌∙◌, not, ◌&&◌, some, ◌==◌, ltb, arith,
  update,
}
use projects_demonstration.Nemu.{
  Machine, op_reg, Run, ◌>>◌, cf, zf, sf, of_flag, get_flag, set_flag,
}
use projects_demonstration.Nemu.Exec.Arith.{exec_add, exec_inc, exec_adc, cut_to}
use projects_demonstration.Nemu.Reg.{operand_write, set_flag_to, rtl_update_zfsf}
use projects_demonstration.Nemu.Reg.Laws.{update_zfsf_lem, operand_write_reg}
use projects_demonstration.Nemu.Rtl.{rtl_add, rtl_or, rtl_is_add_overflow, rtl_is_add_carry}
use projects_demonstration.Nemu.Rtl.Flags.{
  HasFlags, IsLong, or_bits, set_flag_swap, negative, as_bit, write_flags, write_flags-HasFlags,
  signed_sum_overflows, add_carry_lem, add_overflow_lem,
}
use projects_demonstration.Nemu.Steps.{after, Ends, ends}

-- An instruction of four bytes into a register.
pub record IsLongReg (m : Machine) : Type 0 where
  pub long : IsLong m
  pub type : m.dest.type ≡ op_reg
  pub reg-lt : m.dest.slot < 8

-- The machine after an instruction that puts `x` into its register.
abbrev with_result : ℕ → Machine → Machine
with_result x m = record m { gpr = update m.gpr m.dest.slot x }

-- The result in the register, then ZF and SF of `y`, which has the bits of the result.
result_then :
    (x y : ℕ) (k : Run (Unit {0})) (m : Machine)
    → IsLongReg m
    → y < 2 ^ 32
    → (operand_write m.dest x >> (rtl_update_zfsf y m.dest.width >> k)) m
      ≡ k (set_flag sf (y / 2 ^ 31) (set_flag zf (as_bit (y == 0)) (with_result x m)))
result_then x y k m h lt =
    after (operand_write m.dest x) _ m (operand_write_reg m.dest x m h.type h.reg-lt h.long.width)
    ∙ after (rtl_update_zfsf y m.dest.width) k (with_result x m)
        (update_zfsf_lem y m.dest.width (with_result x m) h.long.width lt)

abbrev sum : Machine → ℕ
sum m = rtl_add m.dest.val m.src.val

-- Adding two operands of four bytes into a register returns: the register holds the sum modulo
-- 2 ^ 32, no other changes, ZF and SF tell of the result, OF that the signed sum is out of range and
-- CF that the sum is not below 2 ^ 32.
pub add_long :
    (m : Machine)
    → IsLongReg m
    → Ends exec_add m (λ u m'.
      (m'.gpr ≡ update m.gpr m.dest.slot ((m.dest.val + m.src.val) % 2 ^ 32))
      × HasFlags
          ((m.dest.val + m.src.val) % 2 ^ 32 == 0)
          (negative ((m.dest.val + m.src.val) % 2 ^ 32))
          (signed_sum_overflows m.dest.val m.src.val)
          (not (ltb (m.dest.val + m.src.val) (2 ^ 32)))
          m')
unfolding exec_add
add_long m h = ends exec_add m _ (result_then (sum m) (sum m) _ m h (omega arith)) (
  refl,
  write_flags-HasFlags (sum m) _ _ _ _ _ (with_result (sum m) m) (omega arith) refl
      (ap (rtl_is_add_overflow (sum m) m.dest.val m.src.val) h.long.width
        ∙ add_overflow_lem _ _ h.long.dest-lt h.long.src-lt)
      (add_carry_lem _ _ h.long.dest-lt h.long.src-lt),
)

stale_overflow :
    (a b : ℕ)
    → a < 2 ^ 32
    → b < 2 ^ 32
    → 2 ^ 31 ≤ b
    → rtl_is_add_overflow (rtl_add a 1) a b 4 ≡ as_bit (a == 2 ^ 32 - 1)
unfolding rtl_is_add_overflow
stale_overflow a b p q r = ground arith

inc_carry : (a : ℕ) → a < 2 ^ 32 → rtl_is_add_carry (rtl_add a 1) a ≡ as_bit (a == 2 ^ 32 - 1)
inc_carry a lt = ground arith

-- `inc` of a register of four bytes computes OF from the source operand that an earlier instruction
-- left: if that is 2 ^ 31 or more, the register is incremented, ZF and SF tell of the result, and both OF
-- and CF tell that the register held 2 ^ 32 - 1, so OF is 0 where 2 ^ 31 - 1 overflows and 1
-- where -1 becomes 0.
pub inc_stale :
    (m : Machine)
    → IsLongReg m
    → 2 ^ 31 ≤ m.src.val
    → Ends exec_inc m (λ u m'.
      (m'.gpr ≡ update m.gpr m.dest.slot ((m.dest.val + 1) % 2 ^ 32))
      × HasFlags
          ((m.dest.val + 1) % 2 ^ 32 == 0)
          (negative ((m.dest.val + 1) % 2 ^ 32))
          (m.dest.val == 2 ^ 32 - 1)
          (m.dest.val == 2 ^ 32 - 1)
          m')
unfolding exec_inc
inc_stale m h stale =
    let x = rtl_add m.dest.val 1 in
    ends exec_inc m _ (result_then x x _ m h (omega arith)) (
      refl,
      write_flags-HasFlags x _ _ _ _ _ (with_result x m) (omega arith) refl
          (ap (rtl_is_add_overflow x m.dest.val m.src.val) h.long.width
            ∙ stale_overflow _ _ h.long.dest-lt h.long.src-lt stale)
          (inc_carry _ h.long.dest-lt),
    )

adc_overflow :
    (a b c : ℕ)
    → a < 2 ^ 32
    → b < 2 ^ 32
    → c < 2
    → rtl_is_add_overflow (rtl_is_add_carry (rtl_add (rtl_add a b) c) (rtl_add a b)) a b 4
      ≡ as_bit (negative a && negative b)
unfolding rtl_is_add_overflow
adc_overflow a b c p q r = ground arith

second_carry :
    (a b c : ℕ)
    → c < 2
    → rtl_is_add_carry (rtl_add (rtl_add a b) c) (rtl_add a b)
      ≡ as_bit (not (ltb ((a + b) % 2 ^ 32 + c) (2 ^ 32)))
second_carry a b c r = ground arith

or_carries :
    (a b c : ℕ)
    → a < 2 ^ 32
    → b < 2 ^ 32
    → c < 2
    → rtl_or
        (rtl_is_add_carry (rtl_add a b) a)
        (rtl_is_add_carry (rtl_add (rtl_add a b) c) (rtl_add a b))
      ≡ as_bit (not (ltb (a + b + c) (2 ^ 32)))
or_carries a b c p q r =
    cong_or (add_carry_lem a b p q) (second_carry a b c r)
    ∙ or_bits (not (ltb (a + b) (2 ^ 32))) (not (ltb ((a + b) % 2 ^ 32 + c) (2 ^ 32)))
    ∙ ground arith
  where
    cong_or : {x x' y y' : ℕ} → x ≡ x' → y ≡ y' → rtl_or x y ≡ rtl_or x' y'
    cong_or e f i = rtl_or (e i) (f i)

cut_long : (x w : ℕ) → w ≡ 4 → cut_to x w ≡ x
cut_long x w four = ground arith

-- What `adc` does once the result is cut to its bits.
abbrev adc_rest : (s0 s1 : ℕ) → Machine → ℕ → Run (Unit {0})
adc_rest s0 s1 m y =
    operand_write m.dest s1
    >> (rtl_update_zfsf y m.dest.width
        >> (set_flag_to cf (rtl_or (rtl_is_add_carry s0 m.dest.val) (rtl_is_add_carry y s0))
            >> set_flag_to of_flag
                (rtl_is_add_overflow (rtl_is_add_carry y s0) m.dest.val m.src.val m.dest.width)))

mod_sum : (a b c : ℕ) → rtl_add (rtl_add a b) c ≡ (a + b + c) % 2 ^ 32
mod_sum a b c = omega arith

abbrev sum_with_carry : Machine → ℕ
sum_with_carry m = rtl_add (sum m) (get_flag cf m)

abbrev adc_of_flag : Machine → ℕ
adc_of_flag m =
    rtl_is_add_overflow (rtl_is_add_carry (sum_with_carry m) (sum m)) m.dest.val m.src.val
      m.dest.width

abbrev after_adc : Machine → Machine
after_adc m =
    let x = sum_with_carry m in
    write_flags (as_bit (x == 0)) (x / 2 ^ 31) (adc_of_flag m)
      (rtl_or (rtl_is_add_carry (sum m) m.dest.val) (rtl_is_add_carry x (sum m))) (with_result x m)

-- `adc` of four bytes into a register: the register holds the sum with the carry modulo 2 ^ 32, ZF and SF
-- tell of it and CF that the sum is not below 2 ^ 32; but OF tells that both operands are negative.
pub adc_long :
    (m : Machine)
    → IsLongReg m
    → Ends exec_adc m (λ u m'.
      (m'.gpr ≡ update m.gpr m.dest.slot ((m.dest.val + m.src.val + get_flag cf m) % 2 ^ 32))
      × HasFlags
          ((m.dest.val + m.src.val + get_flag cf m) % 2 ^ 32 == 0)
          (negative ((m.dest.val + m.src.val + get_flag cf m) % 2 ^ 32))
          (negative m.dest.val && negative m.src.val)
          (not (ltb (m.dest.val + m.src.val + get_flag cf m) (2 ^ 32)))
          m')
unfolding exec_adc
adc_long m h =
    let x = sum_with_carry m in
    ends exec_adc m _
      (ap (λ y. adc_rest (sum m) x m y m) (cut_long x m.dest.width h.long.width)
        ∙ result_then x x _ m h (omega arith)
        ∙ ap (λ m'. some (tt, m')) (set_flag_swap (adc_of_flag m) _ _))
      (
        ap (update m.gpr m.dest.slot) (mod_sum m.dest.val m.src.val (get_flag cf m)),
        subst
            (λ y.
              HasFlags (y == 0) (negative y) (negative m.dest.val && negative m.src.val)
                (not (ltb (m.dest.val + m.src.val + get_flag cf m) (2 ^ 32))) (after_adc m))
            (mod_sum m.dest.val m.src.val (get_flag cf m))
            (write_flags-HasFlags x _ _ _ _ _ (with_result x m) (omega arith) refl
              (ap (rtl_is_add_overflow _ m.dest.val m.src.val) h.long.width
                ∙ adc_overflow _ _ (get_flag cf m) h.long.dest-lt h.long.src-lt (omega arith))
              (or_carries _ _ (get_flag cf m) h.long.dest-lt h.long.src-lt (omega arith))),
      )
