-- ===== src/Word/Laws.antt =====
-- The bit operations, bit by bit.
use Prim.Native.Nat.{min, max, bit_and, bit_or, bit_and-bitwise}
use native.Mathlib.Nat.{pow-suc}
use projects_demonstration.Base.{
  ℕ, zero, suc, ◌+◌, ◌-◌, ◌/◌, ◌%◌, ◌^◌, ◌≤◌, ◌<◌, ◌≡◌, refl, ap, ◌∙◌, inl, inr, arith,
  if◌then◌else◌, ◌==◌, ltb, Bool-cases,
}
use projects_demonstration.Word.{bit, ctz, complement, mask}
use projects_demonstration.Word.Digit.{bit_and_step, bit_or_step}

pub bit-lt-two : (k x : ℕ) → bit x k < 2
bit-lt-two zero x = omega arith
bit-lt-two (suc k) x = bit-lt-two k (x / 2)

pub two_pow_pos : (k : ℕ) → 0 < 2 ^ k
two_pow_pos zero = omega arith
two_pow_pos (suc k) = omega (arith, pow-suc 2 k, two_pow_pos k)

half-lt : (w x : ℕ) → x < 2 ^ suc w → x / 2 < 2 ^ w
half-lt w x h = omega (arith, pow-suc 2 w)

-- Words with the same bits are the same.
pub bit_ext : (w x y : ℕ) → x < 2 ^ w → y < 2 ^ w → ((k : ℕ) → k < w → bit x k ≡ bit y k) → x ≡ y
bit_ext zero x y p q h = omega arith
bit_ext (suc w) x y p q h = omega (
  arith,
  h 0 (omega arith),
  bit_ext w (x / 2) (y / 2) (half-lt w x p) (half-lt w y q) (λ k lt. h (suc k) (omega arith)),
)

pub bit-zero : (k : ℕ) → bit 0 k ≡ 0
bit-zero zero = refl
bit-zero (suc k) = bit-zero k

pub bit-bit_and : (k x y : ℕ) → bit (bit_and x y) k ≡ min (bit x k) (bit y k)
bit-bit_and zero x y = omega (arith, bit_and_step x y)
bit-bit_and (suc k) x y =
    let e : bit_and x y / 2 ≡ bit_and (x / 2) (y / 2) = omega (arith, bit_and_step x y) in
    rw e (bit-bit_and k (x / 2) (y / 2))

pub bit-bit_or : (k x y : ℕ) → bit (bit_or x y) k ≡ max (bit x k) (bit y k)
bit-bit_or zero x y = omega (arith, bit_or_step x y)
bit-bit_or (suc k) x y =
    let e : bit_or x y / 2 ≡ bit_or (x / 2) (y / 2) = omega (arith, bit_or_step x y) in
    rw e (bit-bit_or k (x / 2) (y / 2))

pub bit-complement : (w k x : ℕ) → k < w → x < 2 ^ w → bit (complement w x) k ≡ 1 - bit x k
bit-complement zero k x lt h = absurd (omega arith)
bit-complement (suc w) zero x lt h = omega (arith, pow-suc 2 w)
bit-complement (suc w) (suc k) x lt h =
    let e : complement (suc w) x / 2 ≡ complement w (x / 2) = omega (arith, pow-suc 2 w) in
    rw e (bit-complement w k (x / 2) (omega arith) (half-lt w x h))

pub bit-two_pow : (j k : ℕ) → bit (2 ^ k) j ≡ (if j == k then 1 else 0)
bit-two_pow zero zero = refl
bit-two_pow zero (suc k) = ground (arith, pow-suc 2 k)
bit-two_pow (suc j) zero = ground (arith, bit-zero j)
bit-two_pow (suc j) (suc k) =
    let e : 2 ^ suc k / 2 ≡ 2 ^ k = omega (arith, pow-suc 2 k) in
    rw e (bit-two_pow j k ∙ ground arith)

pub bit_and-le : (x y : ℕ) (w : ℕ) → x < 2 ^ w → bit_and x y ≤ x
bit_and-le x y zero h = let e : x ≡ 0 = omega arith in rw (e, bit_and-bitwise 0 y) (omega arith)
bit_and-le x y (suc w) h =
    omega (arith, bit_and_step x y, bit_and-le (x / 2) (y / 2) w (half-lt w x h))

pub bit_or-lt : (w x y : ℕ) → x < 2 ^ w → y < 2 ^ w → bit_or x y < 2 ^ w
bit_or-lt zero x y p q =
    let e : x ≡ 0 = omega arith in let f : y ≡ 0 = omega arith in rw (e, f) (omega arith)
bit_or-lt (suc w) x y p q = omega (
  arith,
  bit_or_step x y,
  pow-suc 2 w,
  bit_or-lt w (x / 2) (y / 2) (half-lt w x p) (half-lt w y q),
)

pub two_pow-lt : (w k : ℕ) → k < w → 2 ^ k < 2 ^ w
two_pow-lt zero k h = absurd (omega arith)
two_pow-lt (suc w) zero h = omega (arith, pow-suc 2 w, two_pow_pos w)
two_pow-lt (suc w) (suc k) h = omega (arith, pow-suc 2 w, pow-suc 2 k, two_pow-lt w k (omega arith))

-- A word and its complement have no common bit.
bit_and-complement : (w x : ℕ) → x < 2 ^ w → bit_and x (complement w x) ≡ 0
bit_and-complement zero x h = let e : x ≡ 0 = omega arith in rw e refl
bit_and-complement (suc w) x h =
    let e : complement (suc w) x / 2 ≡ complement w (x / 2) = omega (arith, pow-suc 2 w) in
    omega (
      arith,
      bit_and_step x (complement (suc w) x),
      ap (bit_and (x / 2)) e,
      bit_and-complement w (x / 2) (half-lt w x h),
      pow-suc 2 w,
    )

-- `x & (2 ^ w - x)` is the lowest one bit.
lowest_one : (w x : ℕ) → 0 < x → x < 2 ^ w → bit_and x (2 ^ w - x) ≡ 2 ^ ctz w x
unfolding ctz
lowest_one zero x p h = absurd (omega arith)
lowest_one (suc w) x p h = elim (Bool-cases (x % 2 == 0)) [
  | inl even ↦ rw even (
      let e : (2 ^ suc w - x) / 2 ≡ 2 ^ w - x / 2 = ground (arith, pow-suc 2 w) in
      let pos : 0 < x / 2 = ground arith in
      ground (
        arith,
        bit_and_step x (2 ^ suc w - x),
        ap (bit_and (x / 2)) e,
        lowest_one w (x / 2) pos (half-lt w x h),
        pow-suc 2 (ctz w (x / 2)),
      ))
  | inr odd ↦ rw odd (
      let e : (2 ^ suc w - x) / 2 ≡ complement w (x / 2) = ground (arith, pow-suc 2 w) in
      ground (
        arith,
        bit_and_step x (2 ^ suc w - x),
        ap (bit_and (x / 2)) e,
        bit_and-complement w (x / 2) (half-lt w x h),
        pow-suc 2 w,
      ))
]

pub mask-two_pow : (w x : ℕ) → 0 < x → x < 2 ^ w → mask w x ≡ 2 ^ ctz w x
unfolding mask
mask-two_pow w x p h =
    let e : (complement w x + 1) % 2 ^ w ≡ 2 ^ w - x = grind (arith, two_pow_pos w) in
    rw e (lowest_one w x p h)

pub mask-zero : (w : ℕ) → mask w 0 ≡ 0
unfolding mask
mask-zero w = bit_and-bitwise 0 ((complement w 0 + 1) % 2 ^ w)

pub ctz-lt : (w x : ℕ) → 0 < x → x < 2 ^ w → ctz w x < w
unfolding ctz
ctz-lt zero x p h = absurd (omega arith)
ctz-lt (suc w) x p h = ground (arith, ctz-lt w (x / 2), half-lt w x h)

pub bit-ctz : (w x : ℕ) → 0 < x → x < 2 ^ w → bit x (ctz w x) ≡ 1
unfolding ctz
bit-ctz zero x p h = absurd (omega arith)
bit-ctz (suc w) x p h = elim (Bool-cases (x % 2 == 0)) [
  | inl even ↦ rw even (bit-ctz w (x / 2) (ground arith) (half-lt w x h))
  | inr odd ↦ rw odd (ground arith)
]

-- Below the lowest one bit there are only zeros.
pub bit-below_ctz : (w x k : ℕ) → k < ctz w x → bit x k ≡ 0
unfolding ctz
bit-below_ctz zero x k h = absurd (omega arith)
bit-below_ctz (suc w) x zero h = ground arith
bit-below_ctz (suc w) x (suc k) h = ground (arith, bit-below_ctz w (x / 2) k)

pub bit-high : (w k x : ℕ) → w ≤ k → x < 2 ^ w → bit x k ≡ 0
bit-high zero k x le h = let e : x ≡ 0 = omega arith in rw e (bit-zero k)
bit-high (suc w) zero x le h = absurd (omega arith)
bit-high (suc w) (suc k) x le h = bit-high w k (x / 2) (omega arith) (half-lt w x h)

-- `2 ^ k - 1` has its ones below `k`.
pub bit-low_ones : (k j : ℕ) → bit (2 ^ k - 1) j ≡ (if ltb j k then 1 else 0)
bit-low_ones zero j = ground (arith, bit-zero j)
bit-low_ones (suc k) zero = ground (arith, pow-suc 2 k, two_pow_pos k)
bit-low_ones (suc k) (suc j) =
    let e : (2 ^ suc k - 1) / 2 ≡ 2 ^ k - 1 = omega (arith, pow-suc 2 k, two_pow_pos k) in
    rw e (bit-low_ones k j ∙ ground arith)

-- Clearing one bit by `x & ~(2 ^ j)`.
pub bit-clear :
    (w j k x : ℕ)
    → j < w
    → x < 2 ^ w
    → bit (bit_and x (complement w (2 ^ j))) k ≡ (if k == j then 0 else bit x k)
bit-clear w j k x lt h = elim (Bool-cases (ltb k w)) [
  | inl inside ↦ ground (
    arith,
    bit-bit_and k x (complement w (2 ^ j)),
    bit-complement w k (2 ^ j),
    two_pow-lt w j lt,
    bit-two_pow k j,
    bit-lt-two k x,
  )
  | inr outside ↦ ground (
    arith,
    bit-high w k x,
    bit-high w k (bit_and x (complement w (2 ^ j))),
    bit_and-le x (complement w (2 ^ j)) w h,
  )
]

-- Setting one bit by `x | 2 ^ j`.
pub bit-put : (j k x : ℕ) → bit (bit_or x (2 ^ j)) k ≡ (if k == j then 1 else bit x k)
bit-put j k x = ground (arith, bit-bit_or k x (2 ^ j), bit-two_pow k j, bit-lt-two k x)

pub pos_of_bit : (x l : ℕ) → bit x l ≡ 1 → 0 < x
pos_of_bit zero l h = absurd (omega (arith, bit-zero l))
pos_of_bit (suc x) l h = omega arith
