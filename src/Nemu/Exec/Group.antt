-- ===== src/Nemu/Exec/Group.antt =====
-- Entries of the opcode table, and the groups whose instruction the ModR/M byte names:
-- Emulator/nemu/src/isa/x86/exec/exec.c and Emulator/nemu/include/cpu/exec.h.
use projects_demonstration.Base.{ℕ, Option, none, some, List, [], ◌∷◌, get_or}
use projects_demonstration.Nemu.{Run, ◌>>=◌, ◌>>◌, pure, get, fail}
use projects_demonstration.Nemu.Decode.Helpers.{decode_test_i}
use projects_demonstration.Nemu.Exec.Arith.{
  exec_add, exec_sub, exec_cmp, exec_inc, exec_dec, exec_neg, exec_adc, exec_sbb,
}
use projects_demonstration.Nemu.Exec.Muldiv.{exec_mul, exec_imul1, exec_div, exec_idiv}
use projects_demonstration.Nemu.Exec.Logic.{
  exec_test, exec_and, exec_xor, exec_or, exec_sar, exec_shl, exec_shr, exec_rol, exec_not,
}
use projects_demonstration.Nemu.Exec.Control.{exec_jmp_rm, exec_call_rm}
use projects_demonstration.Nemu.Exec.Move.{exec_push}
use projects_demonstration.Nemu.Exec.System.{exec_lidt, exec_inv}

-- What an entry runs: an instruction, the rest of an opcode of two bytes, or the prefix 0x66.
pub data EHelper : Type 0 where
  run : Run (Unit {0}) → EHelper
  two_byte_esc operand_size : EHelper

-- A width of 0 stands for the operand size.
pub record OpcodeEntry : Type 0 where
  pub decode : Option (Run (Unit {0}))
  pub execute : EHelper
  pub width : ℕ

abbrev pub idexw : Run (Unit {0}) → Run (Unit {0}) → ℕ → OpcodeEntry
idexw id e w = record { decode = some id; execute = run e; width = w }

abbrev pub idex_of : Run (Unit {0}) → Run (Unit {0}) → OpcodeEntry
idex_of id e = idexw id e 0

abbrev pub ex : Run (Unit {0}) → OpcodeEntry
ex e = record { decode = none; execute = run e; width = 0 }

abbrev pub empty : OpcodeEntry
empty = ex exec_inv

abbrev pub esc : OpcodeEntry
esc = record { decode = none; execute = two_byte_esc; width = 0 }

abbrev pub prefix : OpcodeEntry
prefix = record { decode = none; execute = operand_size; width = 0 }

abbrev pub run_decode : OpcodeEntry → Run (Unit {0})
run_decode e = elim e.decode [ none ↦ pure tt | some d ↦ d ]

-- The entry of a group; none is an escape or a prefix.
abbrev pub idex_group : OpcodeEntry → Run (Unit {0})
idex_group e =
    run_decode e >> elim e.execute [ run r ↦ r | two_byte_esc ↦ fail | operand_size ↦ fail ]

abbrev pub opcode_table_gp1 : List OpcodeEntry
opcode_table_gp1 =
    (ex exec_add)
    ∷ (ex exec_or)
    ∷ (ex exec_adc)
    ∷ (ex exec_sbb)
    ∷ (ex exec_and)
    ∷ (ex exec_sub)
    ∷ (ex exec_xor)
    ∷ (ex exec_cmp)
    ∷ []

unfoldable pub exec_gp1 : Run (Unit {0})
exec_gp1 = get (λ m. m.ext_opcode) >>= λ i. idex_group (get_or opcode_table_gp1 i empty)

abbrev pub opcode_table_gp2 : List OpcodeEntry
opcode_table_gp2 =
    (ex exec_rol)
    ∷ empty
    ∷ empty
    ∷ empty
    ∷ (ex exec_shl)
    ∷ (ex exec_shr)
    ∷ empty
    ∷ (ex exec_sar)
    ∷ []

unfoldable pub exec_gp2 : Run (Unit {0})
exec_gp2 = get (λ m. m.ext_opcode) >>= λ i. idex_group (get_or opcode_table_gp2 i empty)

abbrev pub opcode_table_gp3 : List OpcodeEntry
opcode_table_gp3 =
    (idex_of decode_test_i exec_test)
    ∷ empty
    ∷ (ex exec_not)
    ∷ (ex exec_neg)
    ∷ (ex exec_mul)
    ∷ (ex exec_imul1)
    ∷ (ex exec_div)
    ∷ (ex exec_idiv)
    ∷ []

unfoldable pub exec_gp3 : Run (Unit {0})
exec_gp3 = get (λ m. m.ext_opcode) >>= λ i. idex_group (get_or opcode_table_gp3 i empty)

abbrev pub opcode_table_gp4 : List OpcodeEntry
opcode_table_gp4 =
    (ex exec_inc) ∷ (ex exec_dec) ∷ empty ∷ empty ∷ empty ∷ empty ∷ empty ∷ empty ∷ []

unfoldable pub exec_gp4 : Run (Unit {0})
exec_gp4 = get (λ m. m.ext_opcode) >>= λ i. idex_group (get_or opcode_table_gp4 i empty)

abbrev pub opcode_table_gp5 : List OpcodeEntry
opcode_table_gp5 =
    (ex exec_inc)
    ∷ (ex exec_dec)
    ∷ (ex exec_call_rm)
    ∷ empty
    ∷ (ex exec_jmp_rm)
    ∷ (ex exec_jmp_rm)
    ∷ (ex exec_push)
    ∷ empty
    ∷ []

unfoldable pub exec_gp5 : Run (Unit {0})
exec_gp5 = get (λ m. m.ext_opcode) >>= λ i. idex_group (get_or opcode_table_gp5 i empty)

abbrev pub opcode_table_gp7 : List OpcodeEntry
opcode_table_gp7 = empty ∷ empty ∷ empty ∷ (ex exec_lidt) ∷ empty ∷ empty ∷ empty ∷ empty ∷ []

unfoldable pub exec_gp7 : Run (Unit {0})
exec_gp7 = get (λ m. m.ext_opcode) >>= λ i. idex_group (get_or opcode_table_gp7 i empty)
