-- ===== src/Nemu/Decode/Helpers.antt =====
-- The decode helpers: Emulator/nemu/src/isa/x86/decode/decode.c.
use Prim.Native.Nat.{bit_and}
use projects_demonstration.Base.{ℕ, ◌+◌, ◌%◌, Bool, true, false, ◌||◌, Option, none, some, ◌==◌}
use projects_demonstration.Nemu.{op_reg, op_mem, op_imm, Run, ◌>>=◌, ◌>>◌, get, modify, assert}
use projects_demonstration.Nemu.Decode.{
  OperandId, id_src, id_dest, id_src2, set_type, set_slot, set_val, set_operand_width, get_width,
  get_slot, get_val, when, instr_fetch, read_modr_m,
}
use projects_demonstration.Nemu.Paging.{isa_vaddr_read}
use projects_demonstration.Nemu.Reg.{rtl_lr, r_eax, r_ecx, r_edx}
use projects_demonstration.Nemu.Rtl.{u32, rtl_sext}

unfoldable pub decode_op_i : OperandId → Run (Unit {0})
decode_op_i op = do
  set_type op op_imm
  width ← get_width op
  imm ← instr_fetch width
  set_slot op imm
  set_val op imm

-- A signed immediate, as the number below 2 ^ 32 of the same bits.
unfoldable pub decode_op_si : OperandId → Run (Unit {0})
decode_op_si op = do
  width ← get_width op
  assert (width == 1 || width == 4)
  set_type op op_imm
  simm ← instr_fetch width
  set_slot op (rtl_sext simm width)
  set_val op (rtl_sext simm width)

-- The register `r`, of the width of the operand or of the given one.
abbrev pub register_operand : OperandId → (r width : ℕ) → Bool → Run (Unit {0})
register_operand op r width load_val = do
  set_type op op_reg
  set_slot op r
  when load_val (rtl_lr r width >>= set_val op)

unfoldable pub decode_op_a : OperandId → Bool → Run (Unit {0})
decode_op_a op load_val = get_width op >>= λ width. register_operand op r_eax width load_val

-- The number of the register is in the lowest three bits of the opcode.
unfoldable pub decode_op_r : OperandId → Bool → Run (Unit {0})
decode_op_r op load_val = do
  opcode ← get (λ m. m.opcode)
  width ← get_width op
  register_operand op (opcode % 8) width load_val

unfoldable pub decode_op_rm : OperandId → Bool → Option OperandId → Bool → Run (Unit {0})
decode_op_rm rm load_rm_val reg load_reg_val = read_modr_m rm load_rm_val reg load_reg_val

unfoldable pub decode_op_o : OperandId → Bool → Run (Unit {0})
decode_op_o op load_val = do
  set_type op op_mem
  addr ← instr_fetch 4
  set_slot op addr
  width ← get_width op
  when load_val (isa_vaddr_read addr width >>= set_val op)

abbrev pub decode_g2e : Run (Unit {0})
decode_g2e = decode_op_rm id_dest true (some id_src) true

abbrev pub decode_mov_g2e : Run (Unit {0})
decode_mov_g2e = decode_op_rm id_dest false (some id_src) true

abbrev pub decode_e2g : Run (Unit {0})
decode_e2g = decode_op_rm id_src true (some id_dest) true

abbrev pub decode_mov_e2g : Run (Unit {0})
decode_mov_e2g = decode_op_rm id_src true (some id_dest) false

abbrev pub decode_lea_m2g : Run (Unit {0})
decode_lea_m2g = decode_op_rm id_src false (some id_dest) false

abbrev pub decode_i2a : Run (Unit {0})
decode_i2a = decode_op_a id_dest true >> decode_op_i id_src

abbrev pub decode_i_e2g : Run (Unit {0})
decode_i_e2g = decode_op_rm id_src2 true (some id_dest) false >> decode_op_i id_src

abbrev pub decode_i2e : Run (Unit {0})
decode_i2e = decode_op_rm id_dest true none false >> decode_op_i id_src

abbrev pub decode_mov_i2e : Run (Unit {0})
decode_mov_i2e = decode_op_rm id_dest false none false >> decode_op_i id_src

abbrev pub decode_i2r : Run (Unit {0})
decode_i2r = decode_op_r id_dest true >> decode_op_i id_src

abbrev pub decode_mov_i2r : Run (Unit {0})
decode_mov_i2r = decode_op_r id_dest false >> decode_op_i id_src

abbrev pub decode_i : Run (Unit {0})
decode_i = decode_op_i id_dest

abbrev pub decode_r : Run (Unit {0})
decode_r = decode_op_r id_dest true

abbrev pub decode_e : Run (Unit {0})
decode_e = decode_op_rm id_dest true none false

abbrev pub decode_setcc_e : Run (Unit {0})
decode_setcc_e = decode_op_rm id_dest false none false

abbrev pub decode_gp7_e : Run (Unit {0})
decode_gp7_e = decode_op_rm id_dest false none false

abbrev pub decode_test_i : Run (Unit {0})
decode_test_i = decode_op_i id_src

-- A signed byte after the operand; with an operand of two bytes its value is cut to two bytes.
abbrev pub signed_byte : Run (Unit {0})
signed_byte = do
  set_operand_width id_src 1
  decode_op_si id_src
  width ← get_width id_dest
  val ← get_val id_src
  when (width == 2) (set_val id_src (bit_and val 0xffff))

abbrev pub decode_si2e : Run (Unit {0})
decode_si2e = do
  width ← get_width id_dest
  assert (width == 2 || width == 4)
  decode_op_rm id_dest true none false
  signed_byte

abbrev pub decode_si_e2g : Run (Unit {0})
decode_si_e2g = do
  width ← get_width id_dest
  assert (width == 2 || width == 4)
  decode_op_rm id_src2 true (some id_dest) false
  signed_byte

abbrev pub decode_gp2_1_e : Run (Unit {0})
decode_gp2_1_e = do
  decode_op_rm id_dest true none false
  set_type id_src op_imm
  set_slot id_src 1
  set_val id_src 1

abbrev pub decode_gp2_cl2e : Run (Unit {0})
decode_gp2_cl2e = do decode_op_rm id_dest true none false; register_operand id_src r_ecx 1 true

abbrev pub decode_gp2_ib2e : Run (Unit {0})
decode_gp2_ib2e = do
  decode_op_rm id_dest true none false
  set_operand_width id_src 1
  decode_op_i id_src

abbrev pub decode_ib_g2e : Run (Unit {0})
decode_ib_g2e = do
  decode_op_rm id_dest true (some id_src2) true
  set_operand_width id_src 1
  decode_op_i id_src

abbrev pub decode_cl_g2e : Run (Unit {0})
decode_cl_g2e = do
  decode_op_rm id_dest true (some id_src2) true
  register_operand id_src r_ecx 1 true

abbrev pub decode_o2a : Run (Unit {0})
decode_o2a = decode_op_o id_src true >> decode_op_a id_dest false

abbrev pub decode_a2o : Run (Unit {0})
decode_a2o = decode_op_a id_src true >> decode_op_o id_dest false

abbrev pub decode_j : Run (Unit {0})
decode_j = do
  decode_op_si id_dest
  simm ← get_slot id_dest
  modify (λ m. record m { jmp_pc = u32 (simm + m.seq_pc) })

abbrev pub decode_push_si : Run (Unit {0})
decode_push_si = decode_op_si id_dest

abbrev pub decode_in_i2a : Run (Unit {0})
decode_in_i2a = do set_operand_width id_src 1; decode_op_i id_src; decode_op_a id_dest false

abbrev pub decode_in_dx2a : Run (Unit {0})
decode_in_dx2a = register_operand id_src r_edx 2 true >> decode_op_a id_dest false

abbrev pub decode_out_a2i : Run (Unit {0})
decode_out_a2i = do decode_op_a id_src true; set_operand_width id_dest 1; decode_op_i id_dest

abbrev pub decode_out_a2dx : Run (Unit {0})
decode_out_a2dx = decode_op_a id_src true >> register_operand id_dest r_edx 2 true

abbrev pub decode_r2cr : Run (Unit {0})
decode_r2cr = decode_op_rm id_src true (some id_dest) false

abbrev pub decode_cr2r : Run (Unit {0})
decode_cr2r = decode_op_rm id_dest false (some id_src) false
