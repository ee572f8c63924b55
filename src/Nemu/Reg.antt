-- ===== src/Nemu/Reg.antt =====
-- The registers, the stack and the flags: Emulator/nemu/src/isa/x86/include/isa/reg.h and rtl.h,
-- Emulator/nemu/include/rtl/rtl.h, and `operand_write` of
-- Emulator/nemu/src/isa/x86/decode/decode.c.
pub mod Laws
pub mod Access
pub mod Stack
mod Tests
use projects_demonstration.Base.{
  ℕ, zero, suc, ◌+◌, ◌-◌, ◌*◌, ◌/◌, ◌%◌, ◌^◌, Bool, true, false, Option, none, some, if◌then◌else◌,
  ◌==◌, ltb, update,
}
use projects_demonstration.Nemu.{
  Machine, Operand, OpType, op_reg, op_mem, op_imm, Run, ◌>>=◌, ◌>>◌, pure, get, modify, lift,
  assert, fail, zf, sf, set_flag,
}
use projects_demonstration.Nemu.Paging.{isa_vaddr_read, isa_vaddr_write}
use projects_demonstration.Nemu.Rtl.{u32, rtl_shl, Relop, interpret_relop}

-- The numbers of the registers.
abbrev pub r_eax : ℕ
r_eax = 0

abbrev pub r_ecx : ℕ
r_ecx = 1

abbrev pub r_edx : ℕ
r_edx = 2

abbrev pub r_ebx : ℕ
r_ebx = 3

abbrev pub r_esp : ℕ
r_esp = 4

abbrev pub r_ebp : ℕ
r_ebp = 5

abbrev pub r_esi : ℕ
r_esi = 6

abbrev pub r_edi : ℕ
r_edi = 7

-- Register 4 of one byte.
abbrev pub r_ah : ℕ
r_ah = 4

-- `check_reg_index` fails an index that is not below 8. The registers of one byte are the lowest
-- bytes of the first four registers, and above them the bytes of weight 2 ^ 8.
unfoldable pub read_reg : (gpr : ℕ → ℕ) (r width : ℕ) → Option ℕ
read_reg gpr r width =
    if ltb r 8
    then (if width == 4
        then some (gpr r)
        else if width == 1
        then some (gpr (r % 4) / 2 ^ (r / 4 * 8) % 2 ^ 8)
        else if width == 2
        then some (gpr r % 2 ^ 16)
        else none)
    else none

-- `v` in the place of the `k` bits of `x` from the bit `p` on.
abbrev pub splice : (x p k v : ℕ) → ℕ
splice x p k v = x - x / 2 ^ p % 2 ^ k * 2 ^ p + v % 2 ^ k * 2 ^ p

unfoldable pub write_reg : (gpr : ℕ → ℕ) (r value width : ℕ) → Option (ℕ → ℕ)
write_reg gpr r value width =
    if ltb r 8
    then (if width == 4
        then some (update gpr r value)
        else if width == 1
        then some (update gpr (r % 4) (splice (gpr (r % 4)) (r / 4 * 8) 8 value))
        else if width == 2
        then some (update gpr r (splice (gpr r) 0 16 value))
        else none)
    else none

abbrev pub rtl_lr : (r width : ℕ) → Run ℕ
rtl_lr r width = get (λ m. m.gpr) >>= λ gpr. lift (read_reg gpr r width)

abbrev pub rtl_sr : (r value width : ℕ) → Run (Unit {0})
rtl_sr r value width = do
  gpr ← get (λ m. m.gpr)
  gpr' ← lift (write_reg gpr r value width)
  modify (λ m. record m { gpr = gpr' })

-- A field of the union of `gpr` that names a register of four bytes.
abbrev pub set_reg : (r value : ℕ) → Run (Unit {0})
set_reg r value = modify (λ m. record m { gpr = update m.gpr r value })

unfoldable pub rtl_push : ℕ → Run (Unit {0})
rtl_push src1 = do
  modify (λ m. record m { gpr = update m.gpr r_esp (u32 (m.gpr r_esp + 2 ^ 32 - 4)) })
  esp ← get (λ m. m.gpr r_esp)
  isa_vaddr_write esp src1 4

unfoldable pub rtl_pop : Run ℕ
rtl_pop = do
  esp ← get (λ m. m.gpr r_esp)
  dest ← isa_vaddr_read esp 4
  modify (λ m. record m { gpr = update m.gpr r_esp (u32 (m.gpr r_esp + 4)) })
  pure dest

-- The value of ZF: the shift drops the bits that are not in the result.
unfoldable pub is_zero : (result width : ℕ) → Option ℕ
is_zero result width = elim (rtl_shl result (32 - width * 8)) [
  | none ↦ none
  | some ir ↦ some (if ir == 0 then 1 else 0)
]

abbrev pub set_flag_to : (k value : ℕ) → Run (Unit {0})
set_flag_to k value = modify (set_flag k value)

abbrev pub rtl_update_zf : (result width : ℕ) → Run (Unit {0})
rtl_update_zf result width = lift (is_zero result width) >>= set_flag_to zf

abbrev pub rtl_update_sf : (result width : ℕ) → Run (Unit {0})
rtl_update_sf result width = set_flag_to sf (result / 2 ^ (width * 8 - 1))

unfoldable pub rtl_update_zfsf : (result width : ℕ) → Run (Unit {0})
rtl_update_zfsf result width = rtl_update_zf result width >> rtl_update_sf result width

-- An operand in a register or in memory takes a value.
abbrev pub write_as : OpType → (slot value width : ℕ) → Run (Unit {0})
write_as op_reg slot value width = rtl_sr slot value width
write_as op_mem slot value width = isa_vaddr_write slot value width
write_as op_imm slot value width = fail

unfoldable pub operand_write : Operand → ℕ → Run (Unit {0})
operand_write op value = write_as op.type op.slot value op.width

-- Jumps: `pc` changes at once, and `is_jmp` keeps `update_pc` from changing it again.
abbrev pub rtl_j : ℕ → Run (Unit {0})
rtl_j target = modify (λ m. record m { pc = target; is_jmp = true })

abbrev pub rtl_jrelop : Relop → (src1 src2 target : ℕ) → Run (Unit {0})
rtl_jrelop relop src1 src2 target =
    let taken = interpret_relop relop src1 src2 in
    modify (λ m. record m { pc = if taken then target else m.pc; is_jmp = taken })
