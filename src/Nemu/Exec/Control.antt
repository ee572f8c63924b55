-- ===== src/Nemu/Exec/Control.antt =====
-- Jumps, calls and returns: Emulator/nemu/src/isa/x86/exec/control.c.
use projects_demonstration.Base.{◌%◌}
use projects_demonstration.Nemu.{Run, ◌>>=◌, ◌>>◌, get, fail}
use projects_demonstration.Nemu.Rtl.{relop_ne}
use projects_demonstration.Nemu.Reg.{rtl_push, rtl_pop, rtl_j, rtl_jrelop}
use projects_demonstration.Nemu.Exec.Logic.{rtl_setcc}

unfoldable pub exec_jmp : Run (Unit {0})
exec_jmp = get (λ m. m.jmp_pc) >>= rtl_j

unfoldable pub exec_jcc : Run (Unit {0})
exec_jcc = do
  opcode ← get (λ m. m.opcode)
  jmp_pc ← get (λ m. m.jmp_pc)
  s0 ← rtl_setcc (opcode % 16)
  rtl_jrelop relop_ne s0 0 jmp_pc

unfoldable pub exec_jmp_rm : Run (Unit {0})
exec_jmp_rm = get (λ m. m.dest.val) >>= rtl_j

-- The return address is the address after the instruction, which the decoding left in `seq_pc`.
unfoldable pub exec_call : Run (Unit {0})
exec_call = do pc ← get (λ m. m.seq_pc); rtl_push pc; jmp_pc ← get (λ m. m.jmp_pc); rtl_j jmp_pc

unfoldable pub exec_ret : Run (Unit {0})
exec_ret = rtl_pop >>= rtl_j

-- Not written: it panics.
unfoldable pub exec_ret_imm : Run (Unit {0})
exec_ret_imm = fail

unfoldable pub exec_call_rm : Run (Unit {0})
exec_call_rm = do
  pc ← get (λ m. m.seq_pc)
  rtl_push pc
  target ← get (λ m. m.dest.val)
  rtl_j target
