-- ===== src/Pmm/Layout.antt =====
-- The sizes of OSkernel/kernel/include/pmm.h, for both pointer widths, and the size classes.
pub mod Classes
pub mod Pow2
use projects_demonstration.Base.{ℕ, zero, suc, ◌+◌, ◌-◌, ◌*◌, ◌/◌, ◌^◌, if◌then◌else◌, ◌==◌, ltb}

-- `__SIZEOF_POINTER__` is 4 or 8.
pub data Arch : Type 0 where
  bits32 bits64 : Arch

abbrev pub ptr_bytes : Arch → ℕ
ptr_bytes bits32 = 4
ptr_bytes bits64 = 8

-- The bits of a `size_t`.
abbrev pub width : Arch → ℕ
width bits32 = 32
width bits64 = 64

-- What C and the compiler leave open: the value of `__builtin_ctz(0)`, and of `1 << k` where
-- the result is no `int`.
pub record Undefined : Type 0 where
  pub ctz_zero : ℕ
  pub shift_over : ℕ → ℕ

abbrev pub page_sz : ℕ
page_sz = 0x11000

abbrev pub hdr_size : ℕ
hdr_size = 0x1000

abbrev pub avail_sz : ℕ
avail_sz = page_sz - hdr_size

-- `NUM_BITMAP(x)`
abbrev pub num_bitmap : Arch → ℕ → ℕ
num_bitmap a x = (avail_sz - 1) / (x * 8 * ptr_bytes a) + 1

-- `COMMON_MAP`, the length of the array in every page.
abbrev pub common_map : Arch → ℕ
common_map a = num_bitmap a (ptr_bytes a)

-- `__builtin_clz` on a word of `w` bits.
unfoldable pub clz : ℕ → ℕ → ℕ
clz zero x = 0
clz (suc w) x = if ltb x (2 ^ w) then suc (clz w x) else 0

-- `1 << k` as an `int`.
unfoldable pub int_one_shl : Undefined → ℕ → ℕ
int_one_shl u k = if ltb k 31 then 2 ^ k else u.shift_over k

-- `UP_POW2(x)`
unfoldable pub up_pow2 : Undefined → Arch → ℕ → ℕ
unfolding int_one_shl clz
up_pow2 u a x =
    if ltb (ptr_bytes a) x then int_one_shl u (width a - clz (width a) (x - 1)) else ptr_bytes a
