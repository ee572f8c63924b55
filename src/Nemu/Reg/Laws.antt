-- ===== src/Nemu/Reg/Laws.antt =====
-- What the flags of a result and the registers hold after a write.
use projects_demonstration.Base.{ℕ, ◌/◌, ◌^◌, ◌<◌, ◌≡◌, ap, ◌∙◌, some, ◌==◌, arith, update}
use projects_demonstration.Nemu.{Machine, Operand, op_reg, lift, ◌>>=◌, modify, zf, sf, set_flag}
use projects_demonstration.Nemu.Reg.{
  write_reg, operand_write, write_as, is_zero, rtl_update_zfsf, rtl_update_zf, rtl_update_sf,
  set_flag_to,
}
use projects_demonstration.Nemu.Steps.{after, after_bind}
use projects_demonstration.Nemu.Rtl.Flags.{as_bit}

is_zero_lem : (x : ℕ) → x < 2 ^ 32 → is_zero x 4 ≡ some (as_bit (x == 0))
unfolding is_zero
is_zero_lem x lt = ground arith

pub update_zfsf_lem :
    (x w : ℕ) (m : Machine)
    → w ≡ 4
    → x < 2 ^ 32
    → rtl_update_zfsf x w m ≡ some (tt, set_flag sf (x / 2 ^ 31) (set_flag zf (as_bit (x == 0)) m))
unfolding rtl_update_zfsf
update_zfsf_lem x w m four lt =
    ap (λ w'. rtl_update_zfsf x w' m) four
    ∙ after (rtl_update_zf x 4) (rtl_update_sf x 4) m
        (after_bind (lift (is_zero x 4)) (set_flag_to zf) m (ap (λ v. lift v m) (is_zero_lem x lt)))

write_reg_long :
    (gpr : ℕ → ℕ) (r v w : ℕ) → r < 8 → w ≡ 4 → write_reg gpr r v w ≡ some (update gpr r v)
unfolding write_reg
write_reg_long gpr r v w lt four = ground arith

pub operand_write_reg :
    (op : Operand) (v : ℕ) (m : Machine)
    → op.type ≡ op_reg
    → op.slot < 8
    → op.width ≡ 4
    → operand_write op v m ≡ some (tt, record m { gpr = update m.gpr op.slot v })
unfolding operand_write
operand_write_reg op v m t lt four =
    ap (λ t. write_as t op.slot v op.width m) t
    ∙ ap (λ g. (lift g >>= λ gpr'. modify (λ m. record m { gpr = gpr' })) m)
        (write_reg_long m.gpr op.slot v op.width lt four)
