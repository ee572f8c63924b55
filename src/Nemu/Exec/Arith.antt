-- ===== src/Nemu/Exec/Arith.antt =====
-- Addition and subtraction: Emulator/nemu/src/isa/x86/exec/arith.c.
use projects_demonstration.Base.{ℕ, ◌-◌, ◌*◌, ◌/◌, ◌^◌, if◌then◌else◌, ◌==◌}
use projects_demonstration.Nemu.{Run, ◌>>=◌, ◌>>◌, get, cf, of_flag, get_flag}
use projects_demonstration.Nemu.Rtl.{
  rtl_add, rtl_sub, rtl_and, rtl_or, rtl_is_add_overflow, rtl_is_sub_overflow, rtl_is_add_carry,
  rtl_is_sub_carry,
}
use projects_demonstration.Nemu.Reg.{set_flag_to, rtl_update_zfsf, operand_write}

unfoldable pub exec_add : Run (Unit {0})
exec_add = do
  dest ← get (λ m. m.dest)
  src ← get (λ m. m.src)
  let s0 = rtl_add dest.val src.val
  operand_write dest s0
  rtl_update_zfsf s0 dest.width
  set_flag_to of_flag (rtl_is_add_overflow s0 dest.val src.val dest.width)
  set_flag_to cf (rtl_is_add_carry s0 dest.val)

unfoldable pub exec_sub : Run (Unit {0})
exec_sub = do
  dest ← get (λ m. m.dest)
  src ← get (λ m. m.src)
  let s0 = rtl_sub dest.val src.val
  operand_write dest s0
  rtl_update_zfsf s0 dest.width
  set_flag_to of_flag (rtl_is_sub_overflow s0 dest.val src.val dest.width)
  set_flag_to cf (rtl_is_sub_carry s0 dest.val)

unfoldable pub exec_cmp : Run (Unit {0})
exec_cmp = do
  dest ← get (λ m. m.dest)
  src ← get (λ m. m.src)
  let s0 = rtl_sub dest.val src.val
  rtl_update_zfsf s0 dest.width
  set_flag_to of_flag (rtl_is_sub_overflow s0 dest.val src.val dest.width)
  set_flag_to cf (rtl_is_sub_carry s0 dest.val)

-- The overflow is computed from the source operand, which the decoding of inc and dec does not
-- set.
unfoldable pub exec_inc : Run (Unit {0})
exec_inc = do
  dest ← get (λ m. m.dest)
  src ← get (λ m. m.src)
  let s0 = rtl_add dest.val 1
  operand_write dest s0
  rtl_update_zfsf s0 dest.width
  set_flag_to of_flag (rtl_is_add_overflow s0 dest.val src.val dest.width)
  set_flag_to cf (rtl_is_add_carry s0 dest.val)

unfoldable pub exec_dec : Run (Unit {0})
exec_dec = do
  dest ← get (λ m. m.dest)
  src ← get (λ m. m.src)
  let s0 = rtl_sub dest.val 1
  operand_write dest s0
  rtl_update_zfsf s0 dest.width
  set_flag_to of_flag (rtl_is_sub_overflow s0 dest.val src.val dest.width)
  set_flag_to cf (rtl_is_sub_carry s0 dest.val)

unfoldable pub exec_neg : Run (Unit {0})
exec_neg = do
  dest ← get (λ m. m.dest)
  set_flag_to cf (if dest.val == 0 then 0 else 1)
  let s1 = rtl_sub 0 dest.val
  operand_write dest s1
  rtl_update_zfsf s1 dest.width
  set_flag_to of_flag (rtl_is_sub_overflow s1 0 dest.val dest.width)

-- The bits of a result in its operand: `s1 & (0xffffffff >> ((4 - width) * 8))`.
abbrev pub cut_to : (s1 width : ℕ) → ℕ
cut_to s1 width = if width == 4 then s1 else rtl_and s1 ((2 ^ 32 - 1) / 2 ^ ((4 - width) * 8))

-- When the overflow is computed, `s1` holds the carry of the second addition.
unfoldable pub exec_adc : Run (Unit {0})
exec_adc = do
  dest ← get (λ m. m.dest)
  src ← get (λ m. m.src)
  carry ← get (get_flag cf)
  let s0 = rtl_add dest.val src.val
  let s1 = rtl_add s0 carry
  operand_write dest s1
  let s1 = cut_to s1 dest.width
  rtl_update_zfsf s1 dest.width
  let s1 = rtl_is_add_carry s1 s0
  let s0 = rtl_is_add_carry s0 dest.val
  set_flag_to cf (rtl_or s0 s1)
  set_flag_to of_flag (rtl_is_add_overflow s1 dest.val src.val dest.width)

unfoldable pub exec_sbb : Run (Unit {0})
exec_sbb = do
  dest ← get (λ m. m.dest)
  src ← get (λ m. m.src)
  carry ← get (get_flag cf)
  let s0 = rtl_sub dest.val src.val
  let s1 = rtl_sub s0 carry
  operand_write dest s1
  let s1 = cut_to s1 dest.width
  rtl_update_zfsf s1 dest.width
  let s1 = rtl_is_sub_carry s1 s0
  let s0 = rtl_is_sub_carry s0 dest.val
  set_flag_to cf (rtl_or s0 s1)
  set_flag_to of_flag (rtl_is_sub_overflow s1 dest.val src.val dest.width)
