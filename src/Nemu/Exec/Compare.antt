-- ===== src/Nemu/Exec/Compare.antt =====
-- A comparison followed by a conditional jump: `cmp` of Emulator/nemu/src/isa/x86/exec/arith.c,
-- `rtl_setcc` of cc.c there and `jcc` of control.c.
use projects_demonstration.Base.{
  ℕ, ◌+◌, ◌/◌, ◌%◌, ◌^◌, ◌≡◌, refl, ap, ◌∙◌, Bool, true, false, some, if◌then◌else◌, ◌==◌, ltb,
  arith,
}
use projects_demonstration.Nemu.{Machine, ◌>>◌, cf, zf, sf, of_flag, get_flag}
use projects_demonstration.Nemu.Exec.{update_pc}
use projects_demonstration.Nemu.Exec.Arith.{exec_cmp}
use projects_demonstration.Nemu.Exec.Conditions.{Comparison, code, holds, test-holds, setcc_bits}
use projects_demonstration.Nemu.Exec.Control.{exec_jcc}
use projects_demonstration.Nemu.Exec.Logic.{rtl_setcc}
use projects_demonstration.Nemu.Reg.{rtl_update_zfsf}
use projects_demonstration.Nemu.Reg.Laws.{update_zfsf_lem}
use projects_demonstration.Nemu.Steps.{after, after_bind}
use projects_demonstration.Nemu.Rtl.{rtl_sub, rtl_is_sub_overflow, rtl_is_sub_carry, differ}
use projects_demonstration.Nemu.Rtl.Flags.{
  write_flags, as_bit, signed_difference_overflows, HasFlags, negative, IsLong,
  write_flags-HasFlags, sub_borrow_lem, sub_overflow_lem,
}

-- The machine that `cmp` leaves.
unfoldable pub after_cmp : Machine → Machine
after_cmp m =
    let s0 = rtl_sub m.dest.val m.src.val in
    write_flags (as_bit (s0 == 0)) (s0 / 2 ^ 31)
      (rtl_is_sub_overflow s0 m.dest.val m.src.val m.dest.width) (rtl_is_sub_carry s0 m.dest.val) m

cmp_lem : (m : Machine) → IsLong m → exec_cmp m ≡ some (tt, after_cmp m)
unfolding exec_cmp after_cmp
cmp_lem m long =
    let s0 = rtl_sub m.dest.val m.src.val in
    after (rtl_update_zfsf s0 m.dest.width) _ m
      (update_zfsf_lem s0 m.dest.width m long.width (omega arith))

overflow_at_four :
    (m : Machine)
    → IsLong m
    → rtl_is_sub_overflow (rtl_sub m.dest.val m.src.val) m.dest.val m.src.val m.dest.width
      ≡ as_bit (signed_difference_overflows m.dest.val m.src.val)
overflow_at_four m long =
    ap (rtl_is_sub_overflow (rtl_sub m.dest.val m.src.val) m.dest.val m.src.val) long.width
    ∙ sub_overflow_lem _ _ long.dest-lt long.src-lt

after_cmp-HasFlags :
    (m : Machine)
    → IsLong m
    → HasFlags
        (rtl_sub m.dest.val m.src.val == 0)
        (negative (rtl_sub m.dest.val m.src.val))
        (signed_difference_overflows m.dest.val m.src.val)
        (ltb m.dest.val m.src.val)
        (after_cmp m)
unfolding after_cmp
after_cmp-HasFlags m long =
    write_flags-HasFlags (rtl_sub m.dest.val m.src.val) _ _ _ _ _ m (omega arith) refl
      (overflow_at_four m long) (sub_borrow_lem _ _ long.dest-lt long.src-lt)

-- Flags are read from `eflags` alone.
same_flags :
    (z s o c : Bool) (m m' : Machine)
    → m'.eflags ≡ m.eflags
    → HasFlags z s o c m
    → HasFlags z s o c m'
same_flags z s o c m m' e (hz, hs, ho, hc) =
    (bit_of zf ∙ hz, bit_of sf ∙ hs, bit_of of_flag ∙ ho, bit_of cf ∙ hc)
  where
    bit_of : (k : ℕ) → get_flag k m' ≡ get_flag k m
    bit_of k = ap (λ f. f / 2 ^ k % 2) e

-- The machine after `jcc`, with the jump taken or not.
abbrev jumped : Bool → Machine → Machine
jumped true m = record m { pc = m.jmp_pc; is_jmp = true }
jumped false m = record m { is_jmp = false }

abbrev pub jump_ends : Bool → Machine → Machine
jump_ends taken m = record m { pc = if taken then m.jmp_pc else m.seq_pc; is_jmp = false }

update_pc-jumped :
    (taken : Bool) (m : Machine) → update_pc (jumped taken m) ≡ some (tt, jump_ends taken m)
unfolding update_pc
update_pc-jumped true m = refl
update_pc-jumped false m = refl

exec_jcc_lem :
    (m : Machine) (sub : ℕ) (taken : Bool)
    → m.opcode % 16 ≡ sub
    → rtl_setcc sub m ≡ some (as_bit taken, m)
    → exec_jcc m ≡ some (tt, jumped taken m)
unfolding exec_jcc
exec_jcc_lem m sub true e h =
    after_bind (rtl_setcc (m.opcode % 16)) _ m (ap (λ s. rtl_setcc s m) e ∙ h)
exec_jcc_lem m sub false e h =
    after_bind (rtl_setcc (m.opcode % 16)) _ m (ap (λ s. rtl_setcc s m) e ∙ h)

jcc_of_bit :
    (m : Machine) (sub : ℕ) (taken : Bool)
    → m.opcode % 16 ≡ sub
    → rtl_setcc sub m ≡ some (as_bit taken, m)
    → (exec_jcc >> update_pc) m ≡ some (tt, jump_ends taken m)
jcc_of_bit m sub taken e h =
    after exec_jcc update_pc m (exec_jcc_lem m sub taken e h) ∙ update_pc-jumped taken m

-- `cmp` of two operands of four bytes returns, and a conditional jump with the number of an order, or of
-- its opposite, that finds the flags `cmp` left sets `pc` to its target if the operands are in that
-- order, or the opposite, and to the next instruction if not; it changes nothing else but `is_jmp`.
pub cmp_then_jcc :
    (k : Comparison) (inverted : Bool) (m m2 : Machine)
    → IsLong m
    → m2.eflags ≡ (after_cmp m).eflags
    → m2.opcode % 16 ≡ code k + as_bit inverted
    → (exec_cmp m ≡ some (tt, after_cmp m))
      × ((exec_jcc >> update_pc) m2
          ≡ some (tt, jump_ends (differ inverted (holds k m.dest.val m.src.val)) m2))
cmp_then_jcc k inverted m m2 long e op =
    (cmp_lem m long, jcc_of_bit m2 (code k + as_bit inverted) _ op setcc)
  where
    setcc :
        rtl_setcc (code k + as_bit inverted) m2
        ≡ some (as_bit (differ inverted (holds k m.dest.val m.src.val)), m2)
    setcc =
        setcc_bits k inverted _ _ _ _ m2
          (same_flags _ _ _ _ (after_cmp m) m2 e (after_cmp-HasFlags m long))
        ∙ ap (λ t. some (as_bit (differ inverted t), m2))
            (test-holds k _ _ long.dest-lt long.src-lt)
