-- ===== src/Nemu/Example.antt =====
-- A machine with paging off, registers that hold their numbers, 128 MB of memory at address 0 and
-- a program at 0x100000.
use projects_demonstration.Base.{
  ℕ, ◌*◌, ◌-◌, false, none, List, [], if◌then◌else◌, ltb, leb, get_or,
}
use projects_demonstration.Nemu.{Machine, Operand, op_reg, IoMap, nemu_running}

abbrev pub no_operand : Operand
no_operand = record { type = op_reg; width = 0; slot = 0; val = 0 }

abbrev pub whole_memory : IoMap
whole_memory = record { low = 0; high = 128 * 1024 * 1024 - 1; space = 0; callback = none }

abbrev pub program_at : List ℕ → ℕ → ℕ
program_at bytes a = if ltb a 0x100000 then 0 else get_or bytes (a - 0x100000) 0

abbrev pub machine_with : List ℕ → Machine
machine_with bytes = record {
  gpr = λ r. if leb r 3 then r else 0x8000;
  pc = 0x100000;
  eflags = 0;
  cr0 = 0;
  cr3 = 0;
  idtr_base = 0;
  idtr_limit = 0;
  cs = 0;
  intr = false;
  opcode = 0;
  seq_pc = 0x100000;
  is_jmp = false;
  jmp_pc = 0;
  ext_opcode = 0;
  is_operand_size_16 = false;
  src = no_operand;
  dest = no_operand;
  src2 = no_operand;
  host = program_at bytes;
  pmem_map = whole_memory;
  mmio_maps = [];
  pio_maps = [];
  state = nemu_running;
  halt_pc = 0;
  halt_ret = 0;
}
