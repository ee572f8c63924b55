-- ===== src/Nemu/Rtl.antt =====
-- The arithmetic of the register transfer language: Emulator/nemu/include/rtl/c_op.h and rtl.h,
-- Emulator/nemu/src/isa/x86/include/isa/rtl.h and Emulator/nemu/src/cpu/relop.c, as functions on
-- numbers below 2 ^ 32. A width is 1, 2 or 4 bytes.
pub mod Flags
use Prim.Native.Nat.{bit_and, bit_or, bit_xor}
use projects_demonstration.Base.{
  ℕ, zero, suc, ◌+◌, ◌-◌, ◌*◌, ◌/◌, ◌%◌, ◌^◌, Bool, true, false, not, ◌&&◌, Option, none, some,
  if◌then◌else◌, ◌==◌, ltb, leb,
}

abbrev pub u32 : ℕ → ℕ
u32 x = x % 2 ^ 32

abbrev pub rtl_add : ℕ → ℕ → ℕ
rtl_add a b = u32 (a + b)

abbrev pub rtl_sub : ℕ → ℕ → ℕ
rtl_sub a b = u32 (a + 2 ^ 32 - b)

abbrev pub rtl_and : ℕ → ℕ → ℕ
rtl_and a b = bit_and a b

abbrev pub rtl_or : ℕ → ℕ → ℕ
rtl_or a b = bit_or a b

abbrev pub rtl_xor : ℕ → ℕ → ℕ
rtl_xor a b = bit_xor a b

-- A shift by the width of the word or more is undefined.
abbrev pub rtl_shl : ℕ → ℕ → Option ℕ
rtl_shl a b = if ltb b 32 then some (u32 (a * 2 ^ b)) else none

abbrev pub rtl_shr : ℕ → ℕ → Option ℕ
rtl_shr a b = if ltb b 32 then some (a / 2 ^ b) else none

abbrev pub rtl_sar : ℕ → ℕ → Option ℕ
rtl_sar a b =
    if ltb b 32
    then some (if ltb a (2 ^ 31) then a / 2 ^ b else 2 ^ 32 - 1 - (2 ^ 32 - 1 - a) / 2 ^ b)
    else none

abbrev pub rtl_mul_lo : ℕ → ℕ → ℕ
rtl_mul_lo a b = u32 (a * b)

abbrev pub rtl_mul_hi : ℕ → ℕ → ℕ
rtl_mul_hi a b = a * b / 2 ^ 32

-- A signed product that does not fit wraps.
abbrev pub rtl_imul_lo : ℕ → ℕ → ℕ
rtl_imul_lo a b = u32 (a * b)

-- An `int32_t` as an `int64_t`.
abbrev pub sext64 : ℕ → ℕ
sext64 a = if ltb a (2 ^ 31) then a else a + 2 ^ 64 - 2 ^ 32

abbrev pub rtl_imul_hi : ℕ → ℕ → ℕ
rtl_imul_hi a b = sext64 a * sext64 b % 2 ^ 64 / 2 ^ 32

abbrev pub rtl_div_q : ℕ → ℕ → Option ℕ
rtl_div_q a b = if b == 0 then none else some (a / b)

abbrev pub rtl_div_r : ℕ → ℕ → Option ℕ
rtl_div_r a b = if b == 0 then none else some (a % b)

-- The size of a signed number of `w` bits, and its negation.
abbrev pub magnitude : ℕ → ℕ → ℕ
magnitude w a = if ltb a (2 ^ (w - 1)) then a else 2 ^ w - a

abbrev pub negate : ℕ → ℕ → ℕ
negate w a = (2 ^ w - a) % 2 ^ w

abbrev pub is_negative : ℕ → ℕ → Bool
is_negative w a = not (ltb a (2 ^ (w - 1)))

abbrev pub differ : Bool → Bool → Bool
differ true b = not b
differ false b = b

-- Signed division of `w` bits rounds towards zero; the quotient of the least number by -1 does not
-- fit, which is undefined.
abbrev pub signed_q : ℕ → ℕ → ℕ → Option ℕ
signed_q w a b =
    let q = magnitude w a / magnitude w b in
    if b == 0
    then none
    else if a == 2 ^ (w - 1) && b == 2 ^ w - 1
    then none
    else some (if differ (is_negative w a) (is_negative w b) then negate w q else q)

abbrev pub signed_r : ℕ → ℕ → ℕ → Option ℕ
signed_r w a b =
    let r = magnitude w a % magnitude w b in
    if b == 0
    then none
    else if a == 2 ^ (w - 1) && b == 2 ^ w - 1
    then none
    else some (if is_negative w a then negate w r else r)

abbrev pub rtl_idiv_q : ℕ → ℕ → Option ℕ
rtl_idiv_q a b = signed_q 32 a b

abbrev pub rtl_idiv_r : ℕ → ℕ → Option ℕ
rtl_idiv_r a b = signed_r 32 a b

-- The 64-bit dividend of the high and the low word; the result is cut to 32 bits.
abbrev pub rtl_div64_q : ℕ → ℕ → ℕ → Option ℕ
rtl_div64_q hi lo b = if b == 0 then none else some (u32 ((hi * 2 ^ 32 + lo) / b))

abbrev pub rtl_div64_r : ℕ → ℕ → ℕ → Option ℕ
rtl_div64_r hi lo b = if b == 0 then none else some ((hi * 2 ^ 32 + lo) % b)

abbrev pub cut32 : Option ℕ → Option ℕ
cut32 none = none
cut32 (some x) = some (u32 x)

abbrev pub rtl_idiv64_q : ℕ → ℕ → ℕ → Option ℕ
rtl_idiv64_q hi lo b = cut32 (signed_q 64 (hi * 2 ^ 32 + lo) (sext64 b))

abbrev pub rtl_idiv64_r : ℕ → ℕ → ℕ → Option ℕ
rtl_idiv64_r hi lo b = cut32 (signed_r 64 (hi * 2 ^ 32 + lo) (sext64 b))

abbrev pub rtl_not : ℕ → ℕ
rtl_not a = 2 ^ 32 - 1 - a

abbrev pub rtl_sext : ℕ → ℕ → ℕ
rtl_sext a width =
    if width == 4
    then a
    else if width == 1
    then (if ltb (a % 256) 128 then a % 256 else a % 256 + 2 ^ 32 - 256)
    else (if ltb (a % 65536) 32768 then a % 65536 else a % 65536 + 2 ^ 32 - 65536)

abbrev pub rtl_msb : ℕ → ℕ → ℕ
rtl_msb a width = a / 2 ^ (width * 8 - 1)

unfoldable pub rtl_is_add_overflow : (res src1 src2 width : ℕ) → ℕ
rtl_is_add_overflow res src1 src2 width =
    let t0 = rtl_msb src1 width in
    if t0 == rtl_msb src2 width then (if t0 == rtl_msb res width then 0 else 1) else 0

-- The negated subtrahend is compared with 0x80000000 first.
unfoldable pub rtl_is_sub_overflow : (res src1 src2 width : ℕ) → ℕ
rtl_is_sub_overflow res src1 src2 width =
    let dest = u32 (rtl_not src2 + 1) in
    let t1 = src1 / 2 ^ 31 in
    let t0 = rtl_msb src1 width in
    if t1 == 0 && dest == 0x80000000
    then 1
    else if t1 == 1 && dest == 0x80000000
    then 0
    else if t0 == rtl_msb dest width
    then (if t0 == rtl_msb res width then 0 else 1)
    else 0

abbrev pub rtl_is_add_carry : (res src1 : ℕ) → ℕ
rtl_is_add_carry res src1 = if ltb res src1 then 1 else 0

abbrev pub rtl_is_sub_carry : (res src1 : ℕ) → ℕ
rtl_is_sub_carry res src1 = if ltb src1 res then 1 else 0

-- `(int32_t)a < (int32_t)b`
abbrev pub signed_lt : ℕ → ℕ → Bool
signed_lt a b = ltb (u32 (a + 2 ^ 31)) (u32 (b + 2 ^ 31))

-- The relations of Emulator/nemu/include/rtl/relop.h.
pub data Relop : Type 0 where
  relop_false relop_true relop_eq relop_ne relop_lt relop_le relop_gt relop_ge relop_ltu relop_leu
        relop_gtu relop_geu :
      Relop

abbrev pub interpret_relop : Relop → ℕ → ℕ → Bool
interpret_relop relop_false a b = false
interpret_relop relop_true a b = true
interpret_relop relop_eq a b = a == b
interpret_relop relop_ne a b = not (a == b)
interpret_relop relop_lt a b = signed_lt a b
interpret_relop relop_le a b = not (signed_lt b a)
interpret_relop relop_gt a b = signed_lt b a
interpret_relop relop_ge a b = not (signed_lt a b)
interpret_relop relop_ltu a b = ltb a b
interpret_relop relop_leu a b = leb a b
interpret_relop relop_gtu a b = ltb b a
interpret_relop relop_geu a b = leb b a
