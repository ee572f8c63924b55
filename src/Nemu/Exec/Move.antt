-- ===== src/Nemu/Exec/Move.antt =====
-- Moves and the stack: Emulator/nemu/src/isa/x86/exec/data-mov.c.
use projects_demonstration.Base.{ℕ, if◌then◌else◌, ◌==◌}
use projects_demonstration.Nemu.{Run, ◌>>=◌, ◌>>◌, pure, get, lift}
use projects_demonstration.Nemu.Rtl.{rtl_shr, rtl_sext}
use projects_demonstration.Nemu.Reg.{
  r_eax, r_ecx, r_edx, r_ebx, r_esp, r_ebp, r_esi, r_edi, rtl_lr, rtl_sr, set_reg, rtl_push,
  rtl_pop, operand_write,
}
use projects_demonstration.Nemu.Decode.{set_operand_width, id_dest}

unfoldable pub exec_mov : Run (Unit {0})
exec_mov = do dest ← get (λ m. m.dest); val ← get (λ m. m.src.val); operand_write dest val

unfoldable pub exec_push : Run (Unit {0})
exec_push = get (λ m. m.dest.val) >>= rtl_push

-- The body is empty, and the instruction is in no table.
unfoldable pub exec_xchg : Run (Unit {0})
exec_xchg = pure tt

unfoldable pub exec_pop : Run (Unit {0})
exec_pop = do dest ← get (λ m. m.dest); s0 ← rtl_pop; operand_write dest s0

abbrev pub push_reg : ℕ → Run (Unit {0})
push_reg r = get (λ m. m.gpr r) >>= rtl_push

abbrev pub pop_reg : ℕ → Run (Unit {0})
pop_reg r = rtl_pop >>= set_reg r

-- `s0` is the stack pointer before the first push.
abbrev pub pusha_with : (s0 : ℕ) → Run (Unit {0})
pusha_with s0 = do
  push_reg r_eax
  push_reg r_ecx
  push_reg r_edx
  push_reg r_ebx
  rtl_push s0
  push_reg r_ebp
  push_reg r_esi
  push_reg r_edi

unfoldable pub exec_pusha : Run (Unit {0})
exec_pusha = get (λ m. m.gpr r_esp) >>= pusha_with

unfoldable pub exec_popa : Run (Unit {0})
exec_popa = do
  pop_reg r_edi
  pop_reg r_esi
  pop_reg r_ebp
  s0 ← rtl_pop
  pop_reg r_ebx
  pop_reg r_edx
  pop_reg r_ecx
  pop_reg r_eax

unfoldable pub exec_leave : Run (Unit {0})
exec_leave = do
  width ← get (λ m. m.dest.width)
  s0 ← rtl_lr r_ebp width
  rtl_sr r_esp s0 width
  s0 ← rtl_pop
  rtl_sr r_ebp s0 width

unfoldable pub exec_cltd : Run (Unit {0})
exec_cltd = do
  is_operand_size_16 ← get (λ m. m.is_operand_size_16)
  (if is_operand_size_16
      then (do
        s0 ← rtl_lr r_eax 2
        s0 ← lift (rtl_shr s0 15)
        rtl_sr r_edx (if s0 == 1 then 0xffff else 0) 2)
      else (do
        s0 ← rtl_lr r_eax 4
        s0 ← lift (rtl_shr s0 31)
        rtl_sr r_edx (if s0 == 1 then 0xffffffff else 0) 4))

-- Both branches read AX.
unfoldable pub exec_cwtl : Run (Unit {0})
exec_cwtl = do
  is_operand_size_16 ← get (λ m. m.is_operand_size_16)
  s0 ← rtl_lr r_eax 2
  rtl_sr r_eax (rtl_sext s0 2) (if is_operand_size_16 then 2 else 4)

-- The destination gets the width of the operand size.
abbrev pub widen_dest : Run (Unit {0})
widen_dest = do
  is_operand_size_16 ← get (λ m. m.is_operand_size_16)
  set_operand_width id_dest (if is_operand_size_16 then 2 else 4)

unfoldable pub exec_movsx : Run (Unit {0})
exec_movsx = do
  widen_dest
  src ← get (λ m. m.src)
  dest ← get (λ m. m.dest)
  operand_write dest (rtl_sext src.val src.width)

unfoldable pub exec_movzx : Run (Unit {0})
exec_movzx = do
  widen_dest
  src ← get (λ m. m.src)
  dest ← get (λ m. m.dest)
  operand_write dest src.val

unfoldable pub exec_lea : Run (Unit {0})
exec_lea = do src ← get (λ m. m.src); dest ← get (λ m. m.dest); operand_write dest src.slot
