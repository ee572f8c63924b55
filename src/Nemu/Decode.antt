-- ===== src/Nemu/Decode.antt =====
-- Decoding: Emulator/nemu/src/isa/x86/decode/modrm.c and decode.c, with `instr_fetch` of
-- Emulator/nemu/include/cpu/exec.h. The pointer `pc` of every function is `&decinfo.seq_pc`.
-- What the code prints of an operand is left out.
pub mod Helpers
use projects_demonstration.Base.{
  ℕ, zero, suc, ◌+◌, ◌-◌, ◌*◌, ◌/◌, ◌%◌, ◌^◌, Bool, true, false, not, ◌&&◌, ◌||◌, Option, none,
  some, if◌then◌else◌, ◌==◌,
}
use projects_demonstration.Nemu.{
  Machine, Operand, OpType, op_reg, op_mem, op_imm, Run, ◌>>=◌, ◌>>◌, pure, get, modify, lift,
  assert, fail,
}
use projects_demonstration.Nemu.Paging.{isa_vaddr_read}
use projects_demonstration.Nemu.Reg.{rtl_lr, r_eax, r_esp, r_ebp}
use projects_demonstration.Nemu.Rtl.{u32, rtl_add, rtl_shl, rtl_sext}

-- `id_src`, `id_dest` and `id_src2`
pub data OperandId : Type 0 where
  id_src id_dest id_src2 : OperandId

abbrev pub operand : OperandId → Machine → Operand
operand id_src m = m.src
operand id_dest m = m.dest
operand id_src2 m = m.src2

abbrev pub set_operand : OperandId → Operand → Machine → Machine
set_operand id_src op m = record m { src = op }
set_operand id_dest op m = record m { dest = op }
set_operand id_src2 op m = record m { src2 = op }

abbrev pub set_type : OperandId → OpType → Run (Unit {0})
set_type id t = modify (λ m. set_operand id (record (operand id m) { type = t }) m)

abbrev pub set_slot : OperandId → ℕ → Run (Unit {0})
set_slot id x = modify (λ m. set_operand id (record (operand id m) { slot = x }) m)

abbrev pub set_val : OperandId → ℕ → Run (Unit {0})
set_val id x = modify (λ m. set_operand id (record (operand id m) { val = x }) m)

abbrev pub set_operand_width : OperandId → ℕ → Run (Unit {0})
set_operand_width id w = modify (λ m. set_operand id (record (operand id m) { width = w }) m)

abbrev pub get_width : OperandId → Run ℕ
get_width id = get (λ m. (operand id m).width)

abbrev pub get_slot : OperandId → Run ℕ
get_slot id = get (λ m. (operand id m).slot)

abbrev pub get_val : OperandId → Run ℕ
get_val id = get (λ m. (operand id m).val)

-- A step that is taken when the test holds.
abbrev pub when : Bool → Run (Unit {0}) → Run (Unit {0})
when true r = r
when false r = pure tt

unfoldable pub instr_fetch : ℕ → Run ℕ
instr_fetch len = do
  pc ← get (λ m. m.seq_pc)
  instr ← isa_vaddr_read pc len
  modify (λ m. record m { seq_pc = u32 (m.seq_pc + len) })
  pure instr

-- The fields of `ModR_M`.
abbrev pub modrm_rm : ℕ → ℕ
modrm_rm v = v % 8

abbrev pub modrm_reg : ℕ → ℕ
modrm_reg v = v / 8 % 8

abbrev pub modrm_mod : ℕ → ℕ
modrm_mod v = v / 64

-- The fields of `SIB`.
abbrev pub sib_base : ℕ → ℕ
sib_base v = v % 8

abbrev pub sib_index : ℕ → ℕ
sib_index v = v / 8 % 8

abbrev pub sib_ss : ℕ → ℕ
sib_ss v = v / 64

-- The size of the displacement; no base register after mod 0 with the number of EBP.
abbrev pub disp_size_of : (mode base : ℕ) → ℕ
disp_size_of mode base =
    if mode == 0 then (if base == r_ebp then 4 else 0) else if mode == 1 then 1 else 4

abbrev pub base_of : (mode base : ℕ) → Option ℕ
base_of mode base = if mode == 0 && base == r_ebp then none else some base

-- The displacement, then the base register, then the scaled index register.
abbrev pub fetch_disp : ℕ → Run ℕ
fetch_disp size =
    if size == 0
    then pure 0
    else (do disp ← instr_fetch size; pure (if size == 1 then rtl_sext disp 1 else disp))

abbrev pub add_base : ℕ → Option ℕ → Run ℕ
add_base s0 none = pure s0
add_base s0 (some r) = rtl_lr r 4 >>= λ v. pure (rtl_add s0 v)

abbrev pub add_index : (s0 : ℕ) → Option ℕ → (scale : ℕ) → Run ℕ
add_index s0 none scale = pure s0
add_index s0 (some r) scale = do v ← rtl_lr r 4; s1 ← lift (rtl_shl v scale); pure (rtl_add s0 s1)

-- The base register, the index register and the scale, from a byte SIB when `R_M` is the number
-- of ESP.
abbrev pub sib_parts : (rm : ℕ) → Run (ℕ × Option ℕ × ℕ)
sib_parts rm =
    if rm == r_esp
    then (do
      s ← instr_fetch 1
      pure (sib_base s, (if sib_index s == r_esp then none else some (sib_index s)), sib_ss s))
    else pure (rm, none, 0)

unfoldable pub load_addr : (modrm : ℕ) → OperandId → Run (Unit {0})
unfolding instr_fetch
load_addr modrm rm = do
  let mode = modrm_mod modrm
  assert (not (mode == 3))
  parts ← sib_parts (modrm_rm modrm)
  disp ← fetch_disp (disp_size_of mode (parts.0))
  s0 ← add_base disp (base_of mode (parts.0))
  addr ← add_index s0 (parts.1) (parts.2)
  set_slot rm addr
  set_type rm op_mem

-- The register field of ModR/M, when the caller passes an operand for it.
abbrev pub read_reg_field : (modrm : ℕ) → Option OperandId → Bool → Run (Unit {0})
read_reg_field modrm none load_reg_val = pure tt
read_reg_field modrm (some reg) load_reg_val = do
  set_type reg op_reg
  set_slot reg (modrm_reg modrm)
  width ← get_width reg
  when load_reg_val (rtl_lr (modrm_reg modrm) width >>= set_val reg)

unfoldable pub read_modr_m : OperandId → Bool → Option OperandId → Bool → Run (Unit {0})
unfolding instr_fetch
read_modr_m rm load_rm_val reg load_reg_val = do
  modrm ← instr_fetch 1
  modify (λ m. record m { ext_opcode = modrm_reg modrm })
  read_reg_field modrm reg load_reg_val
  width ← get_width rm
  (if modrm_mod modrm == 3
      then (do
        set_type rm op_reg
        set_slot rm (modrm_rm modrm)
        when load_rm_val (rtl_lr (modrm_rm modrm) width >>= set_val rm))
      else (do
        load_addr modrm rm
        addr ← get_slot rm
        when load_rm_val (isa_vaddr_read addr width >>= set_val rm)))
