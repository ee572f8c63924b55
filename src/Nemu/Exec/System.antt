-- ===== src/Nemu/Exec/System.antt =====
-- System instructions, interrupts and the end of a program: Emulator/nemu/src/isa/x86/exec/system.c, special.c and
-- prefix.c, Emulator/nemu/src/isa/x86/intr.c, and `rtl_exit` of Emulator/nemu/src/monitor/cpu-exec.c.
use projects_demonstration.Base.{
  ℕ, ◌+◌, ◌-◌, ◌*◌, ◌^◌, Bool, true, false, ◌&&◌, if◌then◌else◌, ◌==◌,
}
use projects_demonstration.Nemu.{
  Run, ◌>>=◌, ◌>>◌, pure, get, modify, fail, if_flag, get_flag, nemu_abort, nemu_end, NemuState,
}
use projects_demonstration.Nemu.Rtl.{u32, rtl_or}
use projects_demonstration.Nemu.Memory.{
  pio_read_l, pio_read_w, pio_read_b, pio_write_l, pio_write_w, pio_write_b,
}
use projects_demonstration.Nemu.Paging.{isa_vaddr_read}
use projects_demonstration.Nemu.Reg.{
  r_eax, rtl_sr, rtl_push, rtl_pop, set_flag_to, operand_write, rtl_j,
}
use projects_demonstration.Nemu.Decode.{instr_fetch}

unfoldable pub exec_lidt : Run (Unit {0})
exec_lidt = do
  dest ← get (λ m. m.dest)
  limit ← isa_vaddr_read dest.slot 2
  modify (λ m. record m { idtr_limit = limit })
  base ← isa_vaddr_read (u32 (dest.slot + 2)) (if dest.width == 4 then 4 else 3)
  modify (λ m. record m { idtr_base = base })

unfoldable pub exec_mov_r2cr : Run (Unit {0})
exec_mov_r2cr = do
  cr ← get (λ m. m.dest.slot)
  val ← get (λ m. m.src.val)
  (if cr == 0
      then modify (λ m. record m { cr0 = val })
      else if cr == 3
      then modify (λ m. record m { cr3 = val })
      else fail)

unfoldable pub exec_mov_cr2r : Run (Unit {0})
exec_mov_cr2r = do
  cr ← get (λ m. m.src.slot)
  s0 ← (if cr == 0 then get (λ m. m.cr0) else if cr == 3 then get (λ m. m.cr3) else fail)
  reg ← get (λ m. m.dest.slot)
  rtl_sr reg s0 4

-- The number of the interrupt of the timer.
abbrev pub irq_timer : ℕ
irq_timer = 32

-- The lower and the upper half of the address are the first two bytes and the last two of the
-- entry.
unfoldable pub raise_intr : (number ret_addr : ℕ) → Run (Unit {0})
raise_intr number ret_addr = do
  eflags ← get (λ m. m.eflags)
  rtl_push eflags
  set_flag_to if_flag 0
  cs ← get (λ m. m.cs)
  rtl_push cs
  rtl_push ret_addr
  base ← get (λ m. m.idtr_base)
  s0 ← isa_vaddr_read (u32 (base + number * 8)) 2
  s1 ← isa_vaddr_read (u32 (base + number * 8 + 6)) 2
  rtl_j (rtl_or (u32 (s1 * 2 ^ 16)) s0)

unfoldable pub isa_query_intr : Run Bool
isa_query_intr = do
  enabled ← get (get_flag if_flag)
  intr ← get (λ m. m.intr)
  (if enabled == 1 && intr
      then (do
        modify (λ m. record m { intr = false })
        pc ← get (λ m. m.pc)
        raise_intr irq_timer pc
        pure true)
      else pure false)

unfoldable pub exec_int : Run (Unit {0})
exec_int = do number ← get (λ m. m.dest.val); pc ← get (λ m. m.seq_pc); raise_intr number pc

unfoldable pub exec_iret : Run (Unit {0})
exec_iret = do
  s1 ← rtl_pop
  rtl_j s1
  cs_value ← rtl_pop
  modify (λ m. record m { cs = cs_value })
  flags ← rtl_pop
  modify (λ m. record m { eflags = flags })

unfoldable pub exec_in : Run (Unit {0})
exec_in = do
  dest ← get (λ m. m.dest)
  port ← get (λ m. m.src.val)
  s0 ←
      (if dest.width == 4
        then pio_read_l port
        else if dest.width == 2
        then pio_read_w port
        else pio_read_b port)
  operand_write dest s0

unfoldable pub exec_out : Run (Unit {0})
exec_out = do
  src ← get (λ m. m.src)
  port ← get (λ m. m.dest.val)
  (if src.width == 4
      then pio_write_l port src.val
      else if src.width == 2
      then pio_write_w port src.val
      else pio_write_b port src.val)

unfoldable pub exec_nop : Run (Unit {0})
exec_nop = pure tt

abbrev pub rtl_exit : NemuState → (pc ret : ℕ) → Run (Unit {0})
rtl_exit s pc ret = modify (λ m. record m { state = s; halt_pc = pc; halt_ret = ret })

-- An invalid opcode: the code reads eight bytes to print them.
unfoldable pub exec_inv : Run (Unit {0})
exec_inv = do
  pc ← get (λ m. m.pc)
  modify (λ m. record m { seq_pc = pc })
  temp0 ← instr_fetch 4
  temp1 ← instr_fetch 4
  rtl_exit nemu_abort pc (2 ^ 32 - 1)

unfoldable pub exec_nemu_trap : Run (Unit {0})
exec_nemu_trap = do pc ← get (λ m. m.pc); eax ← get (λ m. m.gpr r_eax); rtl_exit nemu_end pc eax

unfoldable pub exec_operand_size : Run (Unit {0}) → Run (Unit {0})
exec_operand_size isa_exec = do
  modify (λ m. record m { is_operand_size_16 = true })
  isa_exec
  modify (λ m. record m { is_operand_size_16 = false })
