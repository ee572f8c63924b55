-- ===== src/Nemu/Exec/Logic.antt =====
-- Logic, shifts and conditions: Emulator/nemu/src/isa/x86/exec/logic.c and cc.c.
use projects_demonstration.Base.{
  ℕ, zero, suc, ◌-◌, ◌*◌, ◌/◌, ◌%◌, ◌^◌, ◌||◌, Option, none, some, if◌then◌else◌, ◌==◌,
}
use projects_demonstration.Nemu.{Run, ◌>>=◌, ◌>>◌, pure, get, lift, cf, zf, sf, of_flag, get_flag}
use projects_demonstration.Nemu.Rtl.{
  rtl_add, rtl_and, rtl_or, rtl_xor, rtl_shl, rtl_shr, rtl_sar, rtl_msb,
}
use projects_demonstration.Nemu.Reg.{set_flag_to, rtl_update_zfsf, operand_write}
use projects_demonstration.Nemu.Decode.{when, set_val, id_src}

unfoldable pub exec_test : Run (Unit {0})
exec_test = do
  dest ← get (λ m. m.dest)
  src ← get (λ m. m.src)
  let s0 = rtl_and dest.val src.val
  rtl_update_zfsf s0 dest.width
  set_flag_to cf 0
  set_flag_to of_flag 0

unfoldable pub exec_and : Run (Unit {0})
exec_and = do
  dest ← get (λ m. m.dest)
  src ← get (λ m. m.src)
  let s0 = rtl_and dest.val src.val
  operand_write dest s0
  rtl_update_zfsf s0 dest.width
  set_flag_to cf 0
  set_flag_to of_flag 0

unfoldable pub exec_xor : Run (Unit {0})
exec_xor = do
  dest ← get (λ m. m.dest)
  src ← get (λ m. m.src)
  let s0 = rtl_xor dest.val src.val
  operand_write dest s0
  rtl_update_zfsf s0 dest.width
  set_flag_to cf 0
  set_flag_to of_flag 0

unfoldable pub exec_or : Run (Unit {0})
exec_or = do
  dest ← get (λ m. m.dest)
  src ← get (λ m. m.src)
  let s0 = rtl_or dest.val src.val
  operand_write dest s0
  rtl_update_zfsf s0 dest.width
  set_flag_to cf 0
  set_flag_to of_flag 0

unfoldable pub exec_sar : Run (Unit {0})
exec_sar = do
  dest ← get (λ m. m.dest)
  src ← get (λ m. m.src)
  s0 ← lift (rtl_sar dest.val src.val)
  operand_write dest s0
  rtl_update_zfsf s0 dest.width

unfoldable pub exec_shl : Run (Unit {0})
exec_shl = do
  dest ← get (λ m. m.dest)
  src ← get (λ m. m.src)
  s0 ← lift (rtl_shl dest.val src.val)
  operand_write dest s0
  rtl_update_zfsf s0 dest.width

unfoldable pub exec_shr : Run (Unit {0})
exec_shr = do
  dest ← get (λ m. m.dest)
  src ← get (λ m. m.src)
  s0 ← lift (rtl_shr dest.val src.val)
  operand_write dest s0
  rtl_update_zfsf s0 dest.width

-- The loop of `exec_rol`, a round for each place; it returns `s1`.
unfoldable pub rol_loop : (n s1 width : ℕ) → Run ℕ
rol_loop zero s1 width = pure s1
rol_loop (suc n) s1 width = do
  let s0 = rtl_msb s1 width
  set_flag_to cf s0
  s1 ← lift (rtl_shl s1 1)
  rol_loop n (rtl_add s1 s0) width

unfoldable pub exec_rol : Run (Unit {0})
exec_rol = do
  dest ← get (λ m. m.dest)
  count ← get (λ m. m.src.val)
  s1 ← rol_loop count dest.val dest.width
  set_val id_src 0
  operand_write dest s1
  carry ← get (get_flag cf)
  when (count == 1) (set_flag_to of_flag (if rtl_msb s1 dest.width == carry then 0 else 1))

-- The condition that the lowest bit of `subcode` inverts.
abbrev pub base_condition : (condition carry zero_flag sign overflow : ℕ) → Option ℕ
base_condition condition carry zero_flag sign overflow =
    if condition == 0
    then some overflow
    else if condition == 2
    then some carry
    else if condition == 4
    then some zero_flag
    else if condition == 6
    then some (rtl_or carry zero_flag)
    else if condition == 8
    then some sign
    else if condition == 12
    then some (rtl_xor sign overflow)
    else if condition == 14
    then some (rtl_or (rtl_xor sign overflow) zero_flag)
    else none

-- The inversion, and the assertion that the result is a bit.
abbrev pub invert_condition : (invert dest : ℕ) → Option ℕ
invert_condition invert dest =
    let dest' = if invert == 1 then rtl_xor dest 1 else dest in
    if dest' == 0 || dest' == 1 then some dest' else none

unfoldable pub rtl_setcc : (subcode : ℕ) → Run ℕ
rtl_setcc subcode = do
  carry ← get (get_flag cf)
  zero_flag ← get (get_flag zf)
  sign ← get (get_flag sf)
  overflow ← get (get_flag of_flag)
  dest ← lift (base_condition (subcode / 2 % 8 * 2) carry zero_flag sign overflow)
  lift (invert_condition (subcode % 2) dest)

unfoldable pub exec_setcc : Run (Unit {0})
exec_setcc = do
  opcode ← get (λ m. m.opcode)
  dest ← get (λ m. m.dest)
  s0 ← rtl_setcc (opcode % 16)
  operand_write dest s0

unfoldable pub exec_not : Run (Unit {0})
exec_not = do dest ← get (λ m. m.dest); operand_write dest (rtl_xor (2 ^ 32 - 1) dest.val)
