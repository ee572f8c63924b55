-- ===== src/Nemu/Rtl/Flags.antt =====
-- The flags of `eflags` after writes to some of them, and what the carry and overflow functions of
-- Emulator/nemu/src/isa/x86/include/isa/rtl.h compute at width 4.
use projects_demonstration.Base.{
  ℕ, ◌+◌, ◌-◌, ◌*◌, ◌/◌, ◌%◌, ◌^◌, ◌<◌, ◌≡◌, Bool, true, false, not, ◌&&◌, ◌||◌, if◌then◌else◌,
  ◌==◌, ltb, arith, refl, ap, ◌∙◌,
}
use projects_demonstration.Nemu.{Machine, cf, zf, sf, of_flag, get_flag, set_flag}
use projects_demonstration.Nemu.Rtl.{
  rtl_add, rtl_sub, rtl_or, rtl_is_add_overflow, rtl_is_sub_overflow, rtl_is_add_carry,
  rtl_is_sub_carry,
}

-- ZF, SF, OF and CF written in this order.
abbrev pub write_flags : (z s o c : ℕ) → Machine → Machine
write_flags z s o c m = set_flag cf c (set_flag of_flag o (set_flag sf s (set_flag zf z m)))

abbrev pub put : (k v x : ℕ) → ℕ
put k v x = x - x / 2 ^ k % 2 * 2 ^ k + v % 2 * 2 ^ k

z_of_z : (v x : ℕ) → put 6 v x / 2 ^ 6 % 2 ≡ v % 2
z_of_z v x = omega arith

z_of_s : (v x : ℕ) → put 7 v x / 2 ^ 6 % 2 ≡ x / 2 ^ 6 % 2
z_of_s v x = omega arith

z_of_o : (v x : ℕ) → put 11 v x / 2 ^ 6 % 2 ≡ x / 2 ^ 6 % 2
z_of_o v x = omega arith

z_of_c : (v x : ℕ) → put 0 v x / 2 ^ 6 % 2 ≡ x / 2 ^ 6 % 2
z_of_c v x = omega arith

s_of_z : (v x : ℕ) → put 6 v x / 2 ^ 7 % 2 ≡ x / 2 ^ 7 % 2
s_of_z v x = omega arith

s_of_s : (v x : ℕ) → put 7 v x / 2 ^ 7 % 2 ≡ v % 2
s_of_s v x = omega arith

s_of_o : (v x : ℕ) → put 11 v x / 2 ^ 7 % 2 ≡ x / 2 ^ 7 % 2
s_of_o v x = omega arith

s_of_c : (v x : ℕ) → put 0 v x / 2 ^ 7 % 2 ≡ x / 2 ^ 7 % 2
s_of_c v x = omega arith

o_of_z : (v x : ℕ) → put 6 v x / 2 ^ 11 % 2 ≡ x / 2 ^ 11 % 2
o_of_z v x = omega arith

o_of_s : (v x : ℕ) → put 7 v x / 2 ^ 11 % 2 ≡ x / 2 ^ 11 % 2
o_of_s v x = omega arith

o_of_o : (v x : ℕ) → put 11 v x / 2 ^ 11 % 2 ≡ v % 2
o_of_o v x = omega arith

o_of_c : (v x : ℕ) → put 0 v x / 2 ^ 11 % 2 ≡ x / 2 ^ 11 % 2
o_of_c v x = omega arith

c_of_z : (v x : ℕ) → put 6 v x / 2 ^ 0 % 2 ≡ x / 2 ^ 0 % 2
c_of_z v x = omega arith

c_of_s : (v x : ℕ) → put 7 v x / 2 ^ 0 % 2 ≡ x / 2 ^ 0 % 2
c_of_s v x = omega arith

c_of_o : (v x : ℕ) → put 11 v x / 2 ^ 0 % 2 ≡ x / 2 ^ 0 % 2
c_of_o v x = omega arith

c_of_c : (v x : ℕ) → put 0 v x / 2 ^ 0 % 2 ≡ v % 2
c_of_c v x = omega arith

pub zf-write_flags : (z s o c : ℕ) (m : Machine) → get_flag zf (write_flags z s o c m) ≡ z % 2
zf-write_flags z s o c m = rw (z_of_c, z_of_o, z_of_s, z_of_z)

pub sf-write_flags : (z s o c : ℕ) (m : Machine) → get_flag sf (write_flags z s o c m) ≡ s % 2
sf-write_flags z s o c m = rw (s_of_c, s_of_o, s_of_s)

pub of_flag-write_flags :
    (z s o c : ℕ) (m : Machine) → get_flag of_flag (write_flags z s o c m) ≡ o % 2
of_flag-write_flags z s o c m = rw (o_of_c, o_of_o)

pub cf-write_flags : (z s o c : ℕ) (m : Machine) → get_flag cf (write_flags z s o c m) ≡ c % 2
cf-write_flags z s o c m = rw (c_of_c)

-- The signed value of `a` is `a - 2 ^ 32` from `2 ^ 31` on: the sum of two signed numbers is out of
-- range when both are below 0 and the sum of the words stays below 3 * 2 ^ 31, or none is and the sum is
-- not below 2 ^ 31.
abbrev pub signed_sum_overflows : (a b : ℕ) → Bool
signed_sum_overflows a b =
    if ltb a (2 ^ 31)
    then ltb b (2 ^ 31) && not (ltb (a + b) (2 ^ 31))
    else not (ltb b (2 ^ 31)) && ltb (a + b) (3 * 2 ^ 31)

abbrev pub signed_difference_overflows : (a b : ℕ) → Bool
signed_difference_overflows a b =
    if ltb a (2 ^ 31)
    then not (ltb b (2 ^ 31)) && not (ltb (a + 2 ^ 32 - b) (2 ^ 31))
    else ltb b (2 ^ 31) && ltb (a - b) (2 ^ 31)

abbrev pub as_bit : Bool → ℕ
as_bit true = 1
as_bit false = 0

pub add_carry_lem :
    (a b : ℕ)
    → a < 2 ^ 32
    → b < 2 ^ 32
    → rtl_is_add_carry (rtl_add a b) a ≡ as_bit (not (ltb (a + b) (2 ^ 32)))
add_carry_lem a b p q = ground arith

pub sub_borrow_lem :
    (a b : ℕ) → a < 2 ^ 32 → b < 2 ^ 32 → rtl_is_sub_carry (rtl_sub a b) a ≡ as_bit (ltb a b)
sub_borrow_lem a b p q = ground arith

pub add_overflow_lem :
    (a b : ℕ)
    → a < 2 ^ 32
    → b < 2 ^ 32
    → rtl_is_add_overflow (rtl_add a b) a b 4 ≡ as_bit (signed_sum_overflows a b)
unfolding rtl_is_add_overflow
add_overflow_lem a b p q = ground arith

pub sub_overflow_lem :
    (a b : ℕ)
    → a < 2 ^ 32
    → b < 2 ^ 32
    → rtl_is_sub_overflow (rtl_sub a b) a b 4 ≡ as_bit (signed_difference_overflows a b)
unfolding rtl_is_sub_overflow
sub_overflow_lem a b p q = ground arith

abbrev pub negative : ℕ → Bool
negative x = not (ltb x (2 ^ 31))

-- The machine with the four flags at these values.
abbrev pub HasFlags : (z s o c : Bool) → Machine → Type 0
HasFlags z s o c m =
    (get_flag zf m ≡ as_bit z)
    × (get_flag sf m ≡ as_bit s)
    × (get_flag of_flag m ≡ as_bit o)
    × (get_flag cf m ≡ as_bit c)

pub as_bit_mod : (b : Bool) → as_bit b % 2 ≡ as_bit b
as_bit_mod true = refl
as_bit_mod false = refl

pub sign_bit : (x : ℕ) → x < 2 ^ 32 → x / 2 ^ 31 % 2 ≡ as_bit (negative x)
sign_bit x lt = ground arith

-- An instruction on two operands of four bytes that hold numbers.
pub record IsLong (m : Machine) : Type 0 where
  pub width : m.dest.width ≡ 4
  pub dest-lt : m.dest.val < 2 ^ 32
  pub src-lt : m.src.val < 2 ^ 32

pub write_flags-HasFlags :
    (x s o : ℕ) (over carry : Bool) (c : ℕ) (m : Machine)
    → x < 2 ^ 32
    → s ≡ x / 2 ^ 31
    → o ≡ as_bit over
    → c ≡ as_bit carry
    → HasFlags (x == 0) (negative x) over carry (write_flags (as_bit (x == 0)) s o c m)
write_flags-HasFlags x s o over carry c m lt es eo ec = (
  zf-write_flags _ _ _ _ m ∙ as_bit_mod _,
  sf-write_flags _ _ _ _ m ∙ ap (λ x. x % 2) es ∙ sign_bit _ lt,
  of_flag-write_flags _ _ _ _ m ∙ ap (λ x. x % 2) eo ∙ as_bit_mod _,
  cf-write_flags _ _ _ _ m ∙ ap (λ x. x % 2) ec ∙ as_bit_mod _,
)

pub or_bits : (x y : Bool) → rtl_or (as_bit x) (as_bit y) ≡ as_bit (x || y)
or_bits true true = refl
or_bits true false = refl
or_bits false true = refl
or_bits false false = refl

put_swap : (u v x : ℕ) → put 11 u (put 0 v x) ≡ put 0 v (put 11 u x)
put_swap u v x = omega arith

-- OF and CF may be written in either order.
pub set_flag_swap :
    (u v : ℕ) (m : Machine)
    → set_flag of_flag u (set_flag cf v m) ≡ set_flag cf v (set_flag of_flag u m)
set_flag_swap u v m = ap (λ f. record m { eflags = f }) (put_swap u v m.eflags)
