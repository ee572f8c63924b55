-- ===== src/Nemu.antt =====
-- The state of the emulator Emulator/nemu for x86: the registers of
-- Emulator/nemu/src/isa/x86/include/isa/reg.h, the decoded instruction of
-- Emulator/nemu/include/cpu/decode.h and the memory. A register or operand is a number below 2 ^ 32.
-- A call that fails an assertion, panics, or does what C leaves undefined is `none`. The temporaries
-- s0, s1, t0, t1 and ir are written before they are read by every function, so they are local names.
pub mod Rtl
pub mod Memory
pub mod Paging
pub mod Reg
pub mod Decode
pub mod Exec
pub mod Loop
pub mod Watch
pub mod Example
pub mod Steps
use projects_demonstration.Base.{
  ℕ, ◌+◌, ◌-◌, ◌*◌, ◌/◌, ◌%◌, ◌^◌, Bool, true, false, Option, none, some, List, if◌then◌else◌,
}

-- `OP_TYPE_REG`, `OP_TYPE_MEM` and `OP_TYPE_IMM`
pub data OpType : Type 0 where
  op_reg op_mem op_imm : OpType

-- `slot` is the union of `reg`, `addr`, `imm` and `simm`.
pub record Operand : Type 0 where
  pub type : OpType
  pub width : ℕ
  pub slot : ℕ
  pub val : ℕ

-- `space` is an address of the host; a callback changes the host's memory.
pub record IoMap : Type 0 where
  pub low : ℕ
  pub high : ℕ
  pub space : ℕ
  pub callback : Option (ℕ → ℕ → Bool → (ℕ → ℕ) → ℕ → ℕ)

-- The states of the monitor that an instruction can see or set.
pub data NemuState : Type 0 where
  nemu_stop nemu_running nemu_end nemu_abort : NemuState

-- `CPU_state` up to `intr`, `DecodeInfo` up to `src2`, then the host's memory, the maps
-- and `nemu_state`.
pub record Machine : Type 0 where
  pub gpr : ℕ → ℕ
  pub pc : ℕ
  pub eflags : ℕ
  pub cr0 : ℕ
  pub cr3 : ℕ
  pub idtr_base : ℕ
  pub idtr_limit : ℕ
  pub cs : ℕ
  pub intr : Bool
  pub opcode : ℕ
  pub seq_pc : ℕ
  pub is_jmp : Bool
  pub jmp_pc : ℕ
  pub ext_opcode : ℕ
  pub is_operand_size_16 : Bool
  pub src : Operand
  pub dest : Operand
  pub src2 : Operand
  pub host : ℕ → ℕ
  pub pmem_map : IoMap
  pub mmio_maps : List IoMap
  pub pio_maps : List IoMap
  pub state : NemuState
  pub halt_pc : ℕ
  pub halt_ret : ℕ

-- The bits of `eflags`.
abbrev pub cf : ℕ
cf = 0

abbrev pub zf : ℕ
zf = 6

abbrev pub sf : ℕ
sf = 7

abbrev pub if_flag : ℕ
if_flag = 9

abbrev pub of_flag : ℕ
of_flag = 11

-- A bit field of one bit reads as a bit, and keeps the lowest bit of what is written to it.
abbrev pub get_flag : ℕ → Machine → ℕ
get_flag k m = m.eflags / 2 ^ k % 2

abbrev pub set_flag : ℕ → ℕ → Machine → Machine
set_flag k v m = record m { eflags = m.eflags - m.eflags / 2 ^ k % 2 * 2 ^ k + v % 2 * 2 ^ k }

-- A piece of the emulator: it changes the machine and returns a value, or fails.
abbrev pub Run : Type 0 → Type 0
Run A = Machine → Option (A × Machine)

infixl 5 ◌>>=◌ ◌>>◌
abbrev pub ◌>>=◌ : {A B : Type 0} → Run A → (A → Run B) → Run B
◌>>=◌ r k m = elim (r m) [ none ↦ none | some (a, m') ↦ k a m' ]

abbrev pub ◌>>◌ : {B : Type 0} → Run (Unit {0}) → Run B → Run B
◌>>◌ r k m = elim (r m) [ none ↦ none | some (u, m') ↦ k m' ]

abbrev pub pure : {A : Type 0} → A → Run A
pure a m = some (a, m)

abbrev pub get : {A : Type 0} → (Machine → A) → Run A
get f m = some (f m, m)

abbrev pub modify : (Machine → Machine) → Run (Unit {0})
modify f m = some (tt, f m)

abbrev pub lift : {A : Type 0} → Option A → Run A
lift none m = none
lift (some a) m = some (a, m)

abbrev pub assert : Bool → Run (Unit {0})
assert true m = some (tt, m)
assert false m = none

abbrev pub fail : {A : Type 0} → Run A
fail m = none
