-- ===== src/Pmm/Layout/Pow2.antt =====
-- `UP_POW2` rounds a size up to the next power of two.
use projects_demonstration.Base.{
  ℕ, zero, suc, ◌+◌, ◌-◌, ◌^◌, ◌≤◌, ◌<◌, ◌≡◌, refl, ◌∙◌, true, false, ◌⊎◌, inl, inr, arith, ltb,
  Bool-cases,
}
use native.Mathlib.Decide.{dec_lt}
use projects_demonstration.Word.Laws.{two_pow-lt}
use projects_demonstration.Pmm.Layout.{
  Arch, bits32, bits64, Undefined, width, ptr_bytes, clz, up_pow2,
}
use projects_demonstration.Pmm.Layout.Classes.{
  Class, c8, c16, c32, c64, c128, c256, c512, c1024, c2048, c4096, bytes,
}

-- The position of the highest one bit, from `clz`.
record Highest (w x k : ℕ) : Type 0 where
  at : clz w x + suc k ≡ w
  above : 2 ^ k ≤ x
  below : x < 2 ^ suc k

clz-Highest : (w x : ℕ) → 0 < x → x < 2 ^ w → (k : ℕ) × Highest w x k
unfolding clz
clz-Highest zero x p h = absurd (omega arith)
clz-Highest (suc w) x p h = elim (Bool-cases (ltb x (2 ^ w))) [
  | inl less ↦
      let (k, t) = clz-Highest w x p (ground arith) in
      (k, record { at = rw less (omega (arith, t.at)); above = t.above; below = t.below })
  | inr more ↦ (w, record { at = rw more (omega arith); above = ground arith; below = h })
]

two_pow-le : (k m : ℕ) → k ≤ m → 2 ^ k ≤ 2 ^ m
two_pow-le k m le = elim (dec_lt k m) [
  | yes lt ↦ omega (arith, two_pow-lt m k lt)
  | no ge ↦ let e : k ≡ m = omega arith in rw e (omega arith)
]

two_pow-reflects : (k m : ℕ) → 2 ^ k < 2 ^ m → k < m
two_pow-reflects k m lt = elim (dec_lt k m) [
  | yes h ↦ h
  | no ge ↦ absurd (omega (arith, two_pow-le m k (omega arith)))
]

-- What `UP_POW2` returns for a size: the least power of two that is at least the size and at
-- least the width of a pointer.
pub record IsLeast (a : Arch) (size r : ℕ) : Type 0 where
  pub exponent : ℕ
  pub power : r ≡ 2 ^ exponent
  pub holds : size ≤ r
  pub pointer : ptr_bytes a ≤ r
  pub least : (m : ℕ) → size ≤ 2 ^ m → ptr_bytes a ≤ 2 ^ m → r ≤ 2 ^ m

module _ (u : Undefined) (a : Arch) (size : ℕ) (bound : size ≤ 2 ^ 30) where
  size-lt : size < 2 ^ width a
  size-lt = omega (arith, two_pow-lt (width a) 30 (wide a))
    where
      wide : (a : Arch) → 30 < width a
      wide bits32 = omega arith
      wide bits64 = omega arith

  small-IsLeast : size ≤ ptr_bytes a → IsLeast a size (up_pow2 u a size)
  unfolding up_pow2
  small-IsLeast le =
      let e : ltb (ptr_bytes a) size ≡ false = ground arith in
      rw e (record {
        exponent = pick a;
        power = power a;
        holds = le;
        pointer = omega arith;
        least = λ m _ h. h;
      })
    where
      pick : Arch → ℕ
      pick bits32 = 2
      pick bits64 = 3

      power : (a : Arch) → ptr_bytes a ≡ 2 ^ pick a
      power bits32 = refl
      power bits64 = refl

  module _ (more : ptr_bytes a < size) where
    top : (k : ℕ) × Highest (width a) (size - 1) k
    top = clz-Highest (width a) (size - 1) (grind arith) (omega (arith, size-lt))

    top-lt : top.0 < 30
    top-lt = two_pow-reflects top.0 30 (omega (arith, top.1.above))

    up_pow2-top : up_pow2 u a size ≡ 2 ^ suc top.0
    unfolding up_pow2
    up_pow2-top =
        let e : ltb (ptr_bytes a) size ≡ true = ground arith in
        let f : width a - clz (width a) (size - 1) ≡ suc top.0 = omega (arith, top.1.at) in
        rw (e, f) (ground (arith, top-lt))

    large-IsLeast : IsLeast a size (up_pow2 u a size)
    large-IsLeast = record {
      exponent = suc top.0;
      power = up_pow2-top;
      holds = rw up_pow2-top (omega (arith, top.1.below));
      pointer = rw up_pow2-top (omega (arith, top.1.below));
      least = λ m h _.
          rw up_pow2-top
            (two_pow-le (suc top.0) m (two_pow-reflects top.0 m (omega (arith, top.1.above))));
    }

  -- `UP_POW2` is right for every size up to `2 ^ 30`.
  pub up_pow2-IsLeast : IsLeast a size (up_pow2 u a size)
  up_pow2-IsLeast = elim (dec_lt (ptr_bytes a) size) [
    | yes more ↦ large-IsLeast more
    | no less ↦ small-IsLeast (omega arith)
  ]

class_of : (k : ℕ) → 3 ≤ k → k ≤ 12 → (c : Class) × (2 ^ k ≡ bytes c)
class_of zero lo hi = absurd (omega arith)
class_of (suc zero) lo hi = absurd (omega arith)
class_of (suc (suc zero)) lo hi = absurd (omega arith)
class_of (suc (suc (suc k))) lo hi = pick k (omega arith)
  where
    pick : (k : ℕ) → k ≤ 9 → (c : Class) × (2 ^ suc (suc (suc k)) ≡ bytes c)
    pick zero h = (c8, refl)
    pick (suc zero) h = (c16, refl)
    pick (suc (suc zero)) h = (c32, refl)
    pick (suc (suc (suc zero))) h = (c64, refl)
    pick (suc (suc (suc (suc zero)))) h = (c128, refl)
    pick (suc (suc (suc (suc (suc zero))))) h = (c256, refl)
    pick (suc (suc (suc (suc (suc (suc zero)))))) h = (c512, refl)
    pick (suc (suc (suc (suc (suc (suc (suc zero))))))) h = (c1024, refl)
    pick (suc (suc (suc (suc (suc (suc (suc (suc zero)))))))) h = (c2048, refl)
    pick (suc (suc (suc (suc (suc (suc (suc (suc (suc zero))))))))) h = (c4096, refl)
    pick (suc (suc (suc (suc (suc (suc (suc (suc (suc (suc k)))))))))) h = absurd (omega arith)

-- Every size from above 4 up to 4096 bytes is served by a class, and on 64 bits every size up to
-- 4096.
pub up_pow2-class :
    (u : Undefined) (a : Arch) (size : ℕ)
    → size ≤ 4096
    → (4 < ptr_bytes a) ⊎ (4 < size)
    → (c : Class) × (up_pow2 u a size ≡ bytes c)
up_pow2-class u a size le wide = go (up_pow2-IsLeast u a size (omega arith))
  where
    small : (a : Arch) → ptr_bytes a ≤ 2 ^ 12
    small bits32 = omega arith
    small bits64 = omega arith

    go : IsLeast a size (up_pow2 u a size) → (c : Class) × (up_pow2 u a size ≡ bytes c)
    go l =
        let lo : 3 ≤ l.exponent = two_pow-reflects 2 l.exponent (ground arith) in
        let hi : l.exponent ≤ 12 =
          omega (arith, two_pow-reflects l.exponent 13 (omega (arith, l.least 12 le (small a)))) in
        let (c, e) = class_of l.exponent lo hi in (c, l.power ∙ e)
