-- ===== src/Nemu/Exec.antt =====
-- The execution of one instruction: Emulator/nemu/src/isa/x86/exec/exec.c, Emulator/nemu/include/cpu/exec.h
-- and Emulator/nemu/src/cpu/cpu.c. The prefix 0x66 runs `isa_exec` again, so the fuel bounds the number of
-- bytes of one opcode.
pub mod Arith
pub mod Muldiv
pub mod Logic
pub mod Control
pub mod Move
pub mod System
pub mod Group
pub mod Table
pub mod Fuel
pub mod Conditions
pub mod Compare
pub mod Calls
pub mod Entry
pub mod Interrupt
pub mod StackSteps
pub mod SaveRegs
pub mod Flags
mod Tests
use projects_demonstration.Base.{
  ℕ, zero, suc, ◌+◌, ◌-◌, ◌*◌, ◌/◌, ◌%◌, ◌^◌, Bool, true, false, not, ◌&&◌, ◌||◌, Option, none,
  some, List, [], ◌∷◌, if◌then◌else◌, ◌==◌, ltb, update, get_or,
}
use projects_demonstration.Nemu.{
  Machine, Operand, Run, ◌>>=◌, ◌>>◌, pure, get, modify, lift, assert, fail, cf, zf, sf, of_flag,
  if_flag, get_flag, set_flag, nemu_abort, nemu_end, NemuState,
}
use projects_demonstration.Nemu.Decode.{
  instr_fetch, when, set_operand_width, id_src, id_dest, id_src2,
}
use projects_demonstration.Nemu.Exec.System.{exec_operand_size, isa_query_intr}
use projects_demonstration.Nemu.Exec.Table.{opcode_table}
use projects_demonstration.Nemu.Exec.Group.{
  OpcodeEntry, run_decode, run, two_byte_esc, operand_size,
}

unfoldable pub set_width : ℕ → Run (Unit {0})
set_width width = do
  is_operand_size_16 ← get (λ m. m.is_operand_size_16)
  let width = if width == 0 then (if is_operand_size_16 then 2 else 4) else width
  set_operand_width id_src width
  set_operand_width id_dest width
  set_operand_width id_src2 width

-- The instruction of an entry; the calls of the rest of the opcode are arguments.
abbrev pub exec_entry : OpcodeEntry → (isa_exec exec_2byte_esc : Run (Unit {0})) → Run (Unit {0})
exec_entry e isa_exec exec_2byte_esc = elim e.execute [
  | run r ↦ r
  | two_byte_esc ↦ exec_2byte_esc
  | operand_size ↦ exec_operand_size isa_exec
]

-- An entry of the table with its width, its decoding and its instruction.
abbrev pub run_entry : OpcodeEntry → (isa_exec exec_2byte_esc : Run (Unit {0})) → Run (Unit {0})
run_entry e isa_exec exec_2byte_esc = do
  set_width e.width
  run_decode e
  exec_entry e isa_exec exec_2byte_esc

-- One byte of an opcode, in the first half of the table or in the second.
abbrev pub exec_opcode : (first : ℕ) → (isa_exec exec_2byte_esc : Run (Unit {0})) → Run (Unit {0})
exec_opcode first isa_exec exec_2byte_esc = do
  byte ← instr_fetch 1
  modify (λ m. record m { opcode = first + byte })
  run_entry (opcode_table (first + byte)) isa_exec exec_2byte_esc

unfoldable pub exec_from : (fuel first : ℕ) → Run (Unit {0})
exec_from zero first = fail
exec_from (suc fuel) first = exec_opcode first (exec_from fuel 0) (exec_from fuel 0x100)

abbrev pub isa_exec : (fuel : ℕ) → Run (Unit {0})
isa_exec fuel = exec_from fuel 0

unfoldable pub update_pc : Run (Unit {0})
update_pc =
    modify (λ m. if m.is_jmp then record m { is_jmp = false } else record m { pc = m.seq_pc })

unfoldable pub exec_once : (fuel : ℕ) → Run ℕ
exec_once fuel = do
  modify (λ m. record m { seq_pc = m.pc })
  isa_exec fuel
  update_pc
  raised ← isa_query_intr
  when raised update_pc
  get (λ m. m.seq_pc)
