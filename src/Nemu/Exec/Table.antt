-- ===== src/Nemu/Exec/Table.antt =====
-- The opcode table of Emulator/nemu/src/isa/x86/exec/exec.c in rows of four.
use projects_demonstration.Base.{ℕ, ◌/◌, ◌%◌, List, [], ◌∷◌, if◌then◌else◌, ◌==◌, ltb, get_or}
use projects_demonstration.Nemu.Decode.Helpers.{
  decode_g2e, decode_mov_g2e, decode_e2g, decode_mov_e2g, decode_lea_m2g, decode_i2a, decode_i2e,
  decode_mov_i2e, decode_mov_i2r, decode_i, decode_r, decode_e, decode_setcc_e, decode_gp7_e,
  decode_si2e, decode_gp2_1_e, decode_gp2_cl2e, decode_gp2_ib2e, decode_o2a, decode_a2o, decode_j,
  decode_in_i2a, decode_in_dx2a, decode_out_a2i, decode_out_a2dx, decode_r2cr, decode_cr2r,
}
use projects_demonstration.Nemu.Exec.Arith.{
  exec_add, exec_sub, exec_cmp, exec_inc, exec_dec, exec_adc, exec_sbb,
}
use projects_demonstration.Nemu.Exec.Muldiv.{exec_imul2}
use projects_demonstration.Nemu.Exec.Logic.{exec_test, exec_and, exec_xor, exec_or, exec_setcc}
use projects_demonstration.Nemu.Exec.Control.{exec_jmp, exec_jcc, exec_jmp_rm, exec_call, exec_ret}
use projects_demonstration.Nemu.Exec.Move.{
  exec_mov, exec_push, exec_pop, exec_pusha, exec_popa, exec_leave, exec_cltd, exec_cwtl,
  exec_movsx, exec_movzx, exec_lea,
}
use projects_demonstration.Nemu.Exec.System.{
  exec_mov_r2cr, exec_mov_cr2r, exec_int, exec_iret, exec_in, exec_out, exec_nop, exec_nemu_trap,
}
use projects_demonstration.Nemu.Exec.Group.{
  OpcodeEntry, idexw, idex_of, ex, empty, esc, prefix, exec_gp1, exec_gp2, exec_gp3, exec_gp4,
  exec_gp5, exec_gp7,
}

pub record Row : Type 0 where
  pub entry0 : OpcodeEntry
  pub entry1 : OpcodeEntry
  pub entry2 : OpcodeEntry
  pub entry3 : OpcodeEntry

abbrev pub row : (e0 e1 e2 e3 : OpcodeEntry) → Row
row e0 e1 e2 e3 = record { entry0 = e0; entry1 = e1; entry2 = e2; entry3 = e3 }

abbrev pub row_of : OpcodeEntry → Row
row_of e = row e e e e

abbrev pub empty_row : Row
empty_row = row_of empty

abbrev pub row_entry : Row → ℕ → OpcodeEntry
row_entry r i =
    if i == 0 then r.entry0 else if i == 1 then r.entry1 else if i == 2 then r.entry2 else r.entry3

abbrev pub one_byte_table : List Row
one_byte_table =
    row (idexw decode_g2e exec_add 1) (idex_of decode_g2e exec_add) (idexw decode_e2g exec_add 1)
      (idex_of decode_e2g exec_add)
    ∷ row (idexw decode_i2a exec_add 1) (idex_of decode_i2a exec_add) empty empty
    ∷ row (idexw decode_g2e exec_or 1) (idex_of decode_g2e exec_or) (idexw decode_e2g exec_or 1)
        (idex_of decode_e2g exec_or)
    ∷ row (idexw decode_i2a exec_or 1) (idex_of decode_i2a exec_or) empty esc
    ∷ row (idexw decode_g2e exec_adc 1) (idex_of decode_g2e exec_adc) (idexw decode_e2g exec_adc 1)
        (idex_of decode_e2g exec_adc)
    ∷ row (idexw decode_i2a exec_adc 1) (idex_of decode_i2a exec_adc) empty empty
    ∷ row (idexw decode_g2e exec_sbb 1) (idex_of decode_g2e exec_sbb) (idexw decode_e2g exec_sbb 1)
        (idex_of decode_e2g exec_sbb)
    ∷ row (idexw decode_i2a exec_sbb 1) (idex_of decode_i2a exec_sbb) empty empty
    ∷ row (idexw decode_g2e exec_and 1) (idex_of decode_g2e exec_and) (idexw decode_e2g exec_and 1)
        (idex_of decode_e2g exec_and)
    ∷ row (idexw decode_i2a exec_and 1) (idex_of decode_i2a exec_and) empty empty
    ∷ row (idexw decode_g2e exec_sub 1) (idex_of decode_g2e exec_sub) (idexw decode_e2g exec_sub 1)
        (idex_of decode_e2g exec_sub)
    ∷ row (idexw decode_i2a exec_sub 1) (idex_of decode_i2a exec_sub) empty empty
    ∷ row (idexw decode_g2e exec_xor 1) (idex_of decode_g2e exec_xor) (idexw decode_e2g exec_xor 1)
        (idex_of decode_e2g exec_xor)
    ∷ row (idexw decode_i2a exec_xor 1) (idex_of decode_i2a exec_xor) empty empty
    ∷ row (idexw decode_g2e exec_cmp 1) (idex_of decode_g2e exec_cmp) (idexw decode_e2g exec_cmp 1)
        (idex_of decode_e2g exec_cmp)
    ∷ row (idexw decode_i2a exec_cmp 1) (idex_of decode_i2a exec_cmp) empty empty
    ∷ row_of (idex_of decode_r exec_inc)
    ∷ row_of (idex_of decode_r exec_inc)
    ∷ row_of (idex_of decode_r exec_dec)
    ∷ row_of (idex_of decode_r exec_dec)
    ∷ row_of (idex_of decode_r exec_push)
    ∷ row_of (idex_of decode_r exec_push)
    ∷ row_of (idex_of decode_r exec_pop)
    ∷ row_of (idex_of decode_r exec_pop)
    ∷ row (ex exec_pusha) (ex exec_popa) empty empty
    ∷ row empty empty prefix empty
    ∷ row (idex_of decode_i exec_push) empty (idexw decode_i exec_push 1) empty
    ∷ empty_row
    ∷ row_of (idexw decode_j exec_jcc 1)
    ∷ row_of (idexw decode_j exec_jcc 1)
    ∷ row_of (idexw decode_j exec_jcc 1)
    ∷ row_of (idexw decode_j exec_jcc 1)
    ∷ row (idexw decode_i2e exec_gp1 1) (idex_of decode_i2e exec_gp1) empty
        (idex_of decode_si2e exec_gp1)
    ∷ row (idexw decode_g2e exec_test 1) (idex_of decode_g2e exec_test) empty empty
    ∷ row (idexw decode_mov_g2e exec_mov 1) (idex_of decode_mov_g2e exec_mov)
        (idexw decode_mov_e2g exec_mov 1) (idex_of decode_mov_e2g exec_mov)
    ∷ row empty (idex_of decode_lea_m2g exec_lea) empty empty
    ∷ row (ex exec_nop) empty empty empty
    ∷ empty_row
    ∷ row (ex exec_cwtl) (ex exec_cltd) empty empty
    ∷ empty_row
    ∷ row (idexw decode_o2a exec_mov 1) (idex_of decode_o2a exec_mov) (idexw decode_a2o exec_mov 1)
        (idex_of decode_a2o exec_mov)
    ∷ empty_row
    ∷ row (idexw decode_i2a exec_test 1) (idex_of decode_i2a exec_test) empty empty
    ∷ empty_row
    ∷ row_of (idexw decode_mov_i2r exec_mov 1)
    ∷ row_of (idexw decode_mov_i2r exec_mov 1)
    ∷ row_of (idex_of decode_mov_i2r exec_mov)
    ∷ row_of (idex_of decode_mov_i2r exec_mov)
    ∷ row (idexw decode_gp2_ib2e exec_gp2 1) (idex_of decode_gp2_ib2e exec_gp2) empty (ex exec_ret)
    ∷ row empty empty (idexw decode_mov_i2e exec_mov 1) (idex_of decode_mov_i2e exec_mov)
    ∷ row empty (ex exec_leave) empty empty
    ∷ row empty (idexw decode_i exec_int 1) empty (ex exec_iret)
    ∷ row (idexw decode_gp2_1_e exec_gp2 1) (idex_of decode_gp2_1_e exec_gp2)
        (idexw decode_gp2_cl2e exec_gp2 1) (idex_of decode_gp2_cl2e exec_gp2)
    ∷ row empty empty (ex exec_nemu_trap) empty
    ∷ empty_row
    ∷ empty_row
    ∷ empty_row
    ∷ row (idexw decode_in_i2a exec_in 1) (idex_of decode_in_i2a exec_in)
        (idexw decode_out_a2i exec_out 1) (idex_of decode_out_a2i exec_out)
    ∷ row (idex_of decode_j exec_call) (idex_of decode_j exec_jmp) (idex_of decode_i exec_jmp_rm)
        (idexw decode_j exec_jmp 1)
    ∷ row (idexw decode_in_dx2a exec_in 1) (idex_of decode_in_dx2a exec_in)
        (idexw decode_out_a2dx exec_out 1) (idex_of decode_out_a2dx exec_out)
    ∷ empty_row
    ∷ row empty empty (idexw decode_e exec_gp3 1) (idex_of decode_e exec_gp3)
    ∷ empty_row
    ∷ row empty empty (idexw decode_e exec_gp4 1) (idex_of decode_e exec_gp5)
    ∷ []

-- The opcodes after 0x0f.
abbrev pub two_byte_table : List Row
two_byte_table =
    row empty (idex_of decode_gp7_e exec_gp7) empty empty
    ∷ empty_row
    ∷ empty_row
    ∷ empty_row
    ∷ empty_row
    ∷ empty_row
    ∷ empty_row
    ∷ empty_row
    ∷ row (idex_of decode_cr2r exec_mov_cr2r) empty (idex_of decode_r2cr exec_mov_r2cr) empty
    ∷ empty_row
    ∷ empty_row
    ∷ empty_row
    ∷ empty_row
    ∷ empty_row
    ∷ empty_row
    ∷ empty_row
    ∷ empty_row
    ∷ empty_row
    ∷ empty_row
    ∷ empty_row
    ∷ empty_row
    ∷ empty_row
    ∷ empty_row
    ∷ empty_row
    ∷ empty_row
    ∷ empty_row
    ∷ empty_row
    ∷ empty_row
    ∷ empty_row
    ∷ empty_row
    ∷ empty_row
    ∷ empty_row
    ∷ row_of (idex_of decode_j exec_jcc)
    ∷ row_of (idex_of decode_j exec_jcc)
    ∷ row_of (idex_of decode_j exec_jcc)
    ∷ row_of (idex_of decode_j exec_jcc)
    ∷ row_of (idexw decode_setcc_e exec_setcc 1)
    ∷ row_of (idexw decode_setcc_e exec_setcc 1)
    ∷ row_of (idexw decode_setcc_e exec_setcc 1)
    ∷ row_of (idexw decode_setcc_e exec_setcc 1)
    ∷ empty_row
    ∷ empty_row
    ∷ empty_row
    ∷ row empty empty empty (idex_of decode_e2g exec_imul2)
    ∷ empty_row
    ∷ row empty empty (idexw decode_mov_e2g exec_movzx 1) (idexw decode_mov_e2g exec_movzx 2)
    ∷ empty_row
    ∷ row empty empty (idexw decode_mov_e2g exec_movsx 1) (idexw decode_mov_e2g exec_movsx 2)
    ∷ empty_row
    ∷ empty_row
    ∷ empty_row
    ∷ empty_row
    ∷ empty_row
    ∷ empty_row
    ∷ empty_row
    ∷ empty_row
    ∷ empty_row
    ∷ empty_row
    ∷ empty_row
    ∷ empty_row
    ∷ empty_row
    ∷ empty_row
    ∷ empty_row
    ∷ empty_row
    ∷ []

abbrev pub opcode_table : ℕ → OpcodeEntry
opcode_table opcode =
    let i = opcode % 256 in
    row_entry (get_or (if ltb opcode 256 then one_byte_table else two_byte_table) (i / 4) empty_row)
      (i % 4)
