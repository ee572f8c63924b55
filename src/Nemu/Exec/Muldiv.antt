-- ===== src/Nemu/Exec/Muldiv.antt =====
-- Multiplication and division: Emulator/nemu/src/isa/x86/exec/arith.c.
use projects_demonstration.Base.{if◌then◌else◌, ◌==◌}
use projects_demonstration.Nemu.{Run, ◌>>=◌, ◌>>◌, get, lift, fail}
use projects_demonstration.Nemu.Rtl.{
  rtl_or, rtl_shl, rtl_shr, rtl_mul_lo, rtl_mul_hi, rtl_imul_lo, rtl_imul_hi, rtl_div_q, rtl_div_r,
  rtl_idiv_q, rtl_idiv_r, rtl_div64_q, rtl_div64_r, rtl_idiv64_q, rtl_idiv64_r, rtl_sext,
}
use projects_demonstration.Nemu.Reg.{r_eax, r_edx, r_ah, rtl_lr, rtl_sr, set_reg, operand_write}

-- The product of one operand goes to AX, to DX and AX or to EDX and EAX.
unfoldable pub exec_mul : Run (Unit {0})
exec_mul = do
  dest ← get (λ m. m.dest)
  s0 ← rtl_lr r_eax dest.width
  let s1 = rtl_mul_lo dest.val s0
  (if dest.width == 1
      then rtl_sr r_eax s1 2
      else if dest.width == 2
      then (do rtl_sr r_eax s1 2; s1 ← lift (rtl_shr s1 16); rtl_sr r_edx s1 2)
      else if dest.width == 4
      then (do rtl_sr r_edx (rtl_mul_hi dest.val s0) 4; rtl_sr r_eax s1 4)
      else fail)

unfoldable pub exec_imul1 : Run (Unit {0})
exec_imul1 = do
  dest ← get (λ m. m.dest)
  s0 ← rtl_lr r_eax dest.width
  let s1 = rtl_imul_lo dest.val s0
  (if dest.width == 1
      then rtl_sr r_eax s1 2
      else if dest.width == 2
      then (do rtl_sr r_eax s1 2; s1 ← lift (rtl_shr s1 16); rtl_sr r_edx s1 2)
      else if dest.width == 4
      then (do rtl_sr r_edx (rtl_imul_hi dest.val s0) 4; rtl_sr r_eax s1 4)
      else fail)

unfoldable pub exec_imul2 : Run (Unit {0})
exec_imul2 = do
  dest ← get (λ m. m.dest)
  src ← get (λ m. m.src)
  operand_write dest (rtl_imul_lo (rtl_sext dest.val dest.width) (rtl_sext src.val src.width))

-- The second factor is extended from the width of the first.
unfoldable pub exec_imul3 : Run (Unit {0})
exec_imul3 = do
  dest ← get (λ m. m.dest)
  src ← get (λ m. m.src)
  src2 ← get (λ m. m.src2)
  operand_write dest (rtl_imul_lo (rtl_sext src2.val src.width) (rtl_sext src.val src.width))

-- The quotient and the remainder go to AL and AH, to AX and DX or to EAX and EDX.
unfoldable pub exec_div : Run (Unit {0})
exec_div = do
  dest ← get (λ m. m.dest)
  (if dest.width == 1
      then (do
        s0 ← rtl_lr r_eax 2
        s1 ← lift (rtl_div_q s0 dest.val)
        rtl_sr r_eax s1 1
        s1 ← lift (rtl_div_r s0 dest.val)
        rtl_sr r_ah s1 1)
      else if dest.width == 2
      then (do
        s0 ← rtl_lr r_eax 2
        s1 ← rtl_lr r_edx 2
        s1 ← lift (rtl_shl s1 16)
        let s0 = rtl_or s0 s1
        s1 ← lift (rtl_div_q s0 dest.val)
        rtl_sr r_eax s1 2
        s1 ← lift (rtl_div_r s0 dest.val)
        rtl_sr r_edx s1 2)
      else if dest.width == 4
      then (do
        s0 ← rtl_lr r_eax 4
        s1 ← rtl_lr r_edx 4
        q ← lift (rtl_div64_q s1 s0 dest.val)
        set_reg r_eax q
        r ← lift (rtl_div64_r s1 s0 dest.val)
        set_reg r_edx r)
      else fail)

unfoldable pub exec_idiv : Run (Unit {0})
exec_idiv = do
  dest ← get (λ m. m.dest)
  (if dest.width == 1
      then (do
        s0 ← rtl_lr r_eax 2
        s1 ← lift (rtl_idiv_q s0 dest.val)
        rtl_sr r_eax s1 1
        s1 ← lift (rtl_idiv_r s0 dest.val)
        rtl_sr r_ah s1 1)
      else if dest.width == 2
      then (do
        s0 ← rtl_lr r_eax 2
        s1 ← rtl_lr r_edx 2
        s1 ← lift (rtl_shl s1 16)
        let s0 = rtl_or s0 s1
        s1 ← lift (rtl_idiv_q s0 dest.val)
        rtl_sr r_eax s1 2
        s1 ← lift (rtl_idiv_r s0 dest.val)
        rtl_sr r_edx s1 2)
      else if dest.width == 4
      then (do
        s0 ← rtl_lr r_eax 4
        s1 ← rtl_lr r_edx 4
        q ← lift (rtl_idiv64_q s1 s0 dest.val)
        set_reg r_eax q
        r ← lift (rtl_idiv64_r s1 s0 dest.val)
        set_reg r_edx r)
      else fail)
