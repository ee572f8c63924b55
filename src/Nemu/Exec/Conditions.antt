-- ===== src/Nemu/Exec/Conditions.antt =====
-- The conditions of `rtl_setcc` in Emulator/nemu/src/isa/x86/exec/cc.c, on the flags.
use projects_demonstration.Base.{
  ℕ, ◌+◌, ◌*◌, ◌/◌, ◌%◌, ◌^◌, ◌<◌, ◌≡◌, refl, ap, ◌∙◌, Bool, true, false, not, ◌||◌, Option, some,
  ◌==◌, ltb, leb, arith,
}
use projects_demonstration.Nemu.{Machine, ◌>>=◌, lift, cf, zf, sf, of_flag, get_flag}
use projects_demonstration.Nemu.Exec.Logic.{rtl_setcc, base_condition, invert_condition}
use projects_demonstration.Nemu.Rtl.{rtl_sub, rtl_or, rtl_xor, differ, signed_lt}
use projects_demonstration.Nemu.Rtl.Flags.{
  as_bit, signed_difference_overflows, HasFlags, negative, or_bits,
}

-- The orders that the conditions B, E, BE, L and LE stand for, and the number of each; the number
-- after it stands for the opposite.
pub data Comparison : Type 0 where
  below equal below_equal less less_equal : Comparison

abbrev pub code : Comparison → ℕ
code below = 2
code equal = 4
code below_equal = 6
code less = 12
code less_equal = 14

abbrev pub holds : Comparison → ℕ → ℕ → Bool
holds below a b = ltb a b
holds equal a b = a == b
holds below_equal a b = leb a b
holds less a b = signed_lt a b
holds less_equal a b = not (signed_lt b a)

-- What the code tests instead, on the four flags.
abbrev pub flag_test : Comparison → (z s o c : Bool) → Bool
flag_test below z s o c = c
flag_test equal z s o c = z
flag_test below_equal z s o c = c || z
flag_test less z s o c = differ s o
flag_test less_equal z s o c = differ s o || z

pub test-holds :
    (k : Comparison) (a b : ℕ)
    → a < 2 ^ 32
    → b < 2 ^ 32
    → flag_test k
        (rtl_sub a b == 0)
        (negative (rtl_sub a b))
        (signed_difference_overflows a b)
        (ltb a b)
      ≡ holds k a b
test-holds below a b p q = refl
test-holds equal a b p q = ground arith
test-holds below_equal a b p q = ground arith
test-holds less a b p q = ground arith
test-holds less_equal a b p q = ground arith

xor_bits : (x y : Bool) → rtl_xor (as_bit x) (as_bit y) ≡ as_bit (differ x y)
xor_bits true true = refl
xor_bits true false = refl
xor_bits false true = refl
xor_bits false false = refl

base_bits :
    (k : Comparison) (z s o c : Bool)
    → base_condition (code k) (as_bit c) (as_bit z) (as_bit s) (as_bit o)
      ≡ some (as_bit (flag_test k z s o c))
base_bits below z s o c = refl
base_bits equal z s o c = refl
base_bits below_equal z s o c = ap some (or_bits c z)
base_bits less z s o c = ap some (xor_bits s o)
base_bits less_equal z s o c =
    ap (λ x. some (rtl_or x (as_bit z))) (xor_bits s o) ∙ ap some (or_bits (differ s o) z)

invert_bits :
    (inverted x : Bool)
    → invert_condition (as_bit inverted) (as_bit x) ≡ some (as_bit (differ inverted x))
invert_bits true true = refl
invert_bits true false = refl
invert_bits false true = refl
invert_bits false false = refl

code_parts :
    (k : Comparison) (inverted : Bool)
    → ((code k + as_bit inverted) / 2 % 8 * 2 ≡ code k)
      × ((code k + as_bit inverted) % 2 ≡ as_bit inverted)
code_parts below true = (refl, refl)
code_parts below false = (refl, refl)
code_parts equal true = (refl, refl)
code_parts equal false = (refl, refl)
code_parts below_equal true = (refl, refl)
code_parts below_equal false = (refl, refl)
code_parts less true = (refl, refl)
code_parts less false = (refl, refl)
code_parts less_equal true = (refl, refl)
code_parts less_equal false = (refl, refl)

abbrev after_base : (subcode : ℕ) → Option ℕ → Machine → Option (ℕ × Machine)
after_base subcode v m = (lift v >>= λ dest. lift (invert_condition (subcode % 2) dest)) m

pub setcc_bits :
    (k : Comparison) (inverted z s o c : Bool) (m : Machine)
    → HasFlags z s o c m
    → rtl_setcc (code k + as_bit inverted) m
      ≡ some (as_bit (differ inverted (flag_test k z s o c)), m)
unfolding rtl_setcc
setcc_bits k inverted z s o c m (hz, hs, ho, hc) =
    ap (λ v. after_base (code k + as_bit inverted) v m) (cong_base ∙ base_bits k z s o c)
    ∙ ap (λ v. lift v m)
        (ap (λ i. invert_condition i (as_bit (flag_test k z s o c))) ((code_parts k inverted).1)
          ∙ invert_bits inverted _)
  where
    cong_base :
        base_condition
          ((code k + as_bit inverted) / 2 % 8 * 2)
          (get_flag cf m)
          (get_flag zf m)
          (get_flag sf m)
          (get_flag of_flag m)
        ≡ base_condition (code k) (as_bit c) (as_bit z) (as_bit s) (as_bit o)
    cong_base i = base_condition ((code_parts k inverted).0 i) (hc i) (hz i) (hs i) (ho i)
