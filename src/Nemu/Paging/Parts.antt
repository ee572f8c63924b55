-- ===== src/Nemu/Paging/Parts.antt =====
-- The parts of a value that is read in pieces, put together by `or`: Emulator/nemu/src/isa/x86/mmu.c.
use Prim.Native.Nat.{bit_or, max}
use native.Mathlib.Nat.{pow-suc}
use projects_demonstration.Base.{
  ℕ, zero, suc, ◌+◌, ◌*◌, ◌/◌, ◌%◌, ◌^◌, ◌<◌, ◌≤◌, ◌≡◌, refl, sym, ap, ◌∙◌, arith,
}
use projects_demonstration.Nemu.Memory.{load}
use projects_demonstration.Nemu.Rtl.{u32}
use projects_demonstration.Word.Digit.{bit_or_step}

-- An `or` of parts that have no bit in common adds them.
bit_or-zero : (n a : ℕ) → a ≤ n → bit_or a 0 ≡ a
bit_or-zero zero a le = ap (λ x. bit_or x 0) (zero_of a le) ∙ sym (zero_of a le)
  where
    zero_of : (a : ℕ) → a ≤ 0 → a ≡ 0
    zero_of a le = omega arith
bit_or-zero (suc n) zero le = refl
bit_or-zero (suc n) (suc a) le =
    omega (arith, bit_or_step (suc a) 0, bit_or-zero n (suc a / 2) (omega arith))

shifted : (k a : ℕ) → a * 2 ^ suc k ≡ 2 * (a * 2 ^ k)
shifted k a = grind (arith, pow-suc 2 k)

half_shifted : (k a : ℕ) → a * 2 ^ suc k / 2 ≡ a * 2 ^ k
half_shifted k a = omega (arith, shifted k a)

or_adds : (k a b : ℕ) → b < 2 ^ k → bit_or (a * 2 ^ k) b ≡ a * 2 ^ k + b
or_adds zero a b lt =
    ap (bit_or (a * 1)) (zero_of b lt) ∙ bit_or-zero (a * 1) (a * 1) (omega arith) ∙ sum_of b lt
  where
    zero_of : (b : ℕ) → b < 1 → b ≡ 0
    zero_of b lt = omega arith

    sum_of : (b : ℕ) → b < 1 → a * 1 ≡ a * 1 + b
    sum_of b lt = omega arith
or_adds (suc k) a b lt =
    bit_or_step (a * 2 ^ suc k) b
    ∙ ap (λ x. bit_or x (b / 2) * 2 + max (a * 2 ^ suc k % 2) (b % 2)) (half_shifted k a)
    ∙ omega (arith, shifted k a, or_adds k a (b / 2) (omega (arith, pow-suc 2 k)))

-- The bytes of the host are bytes.
unfoldable pub IsBytes : (ℕ → ℕ) → Type 0
IsBytes h = (i : ℕ) → h i < 256

IsBytes-lt : (h : ℕ → ℕ) → IsBytes h → (i : ℕ) → h i < 256
unfolding IsBytes
IsBytes-lt h bytes i = bytes i

load_one : (h : ℕ → ℕ) (a : ℕ) → IsBytes h → load h a 1 ≡ h a
unfolding IsBytes
load_one h a bytes = one (h a) _ _ _ (bytes a)
  where
    one : (b0 b1 b2 b3 : ℕ) → b0 < 256 → (b0 + 2 ^ 8 * b1 + 2 ^ 16 * b2 + 2 ^ 24 * b3) % 2 ^ 8 ≡ b0
    one b0 b1 b2 b3 p = omega arith

load_two : (h : ℕ → ℕ) (a b : ℕ) → IsBytes h → a + 1 ≡ b → load h a 2 ≡ h a + 2 ^ 8 * h b
unfolding IsBytes
load_two h a b bytes e = two (h a) _ _ _ (bytes a) (bytes (a + 1)) ∙ ap (λ i. h a + 2 ^ 8 * h i) e
  where
    two :
        (b0 b1 b2 b3 : ℕ)
        → b0 < 256
        → b1 < 256
        → (b0 + 2 ^ 8 * b1 + 2 ^ 16 * b2 + 2 ^ 24 * b3) % 2 ^ 16 ≡ b0 + 2 ^ 8 * b1
    two b0 b1 b2 b3 p q = omega arith

join_pair :
    (x y n : ℕ) → y < 2 ^ 16 → x * 2 ^ 16 + y ≡ n → n < 2 ^ 32 → bit_or (u32 (x * 2 ^ 16)) y ≡ n
join_pair x y n lt e le = ap (λ z. bit_or z y) no_wrap ∙ or_adds 16 x y lt ∙ e
  where
    no_wrap : u32 (x * 2 ^ 16) ≡ x * 2 ^ 16
    no_wrap = omega arith

or_two : (x y n : ℕ) → x < 256 → y < 2 ^ 24 → x * 2 ^ 24 + y ≡ n → bit_or (u32 (x * 2 ^ 24)) y ≡ n
or_two x y n p q e = ap (λ z. bit_or z y) no_wrap ∙ or_adds 24 x y q ∙ e
  where
    no_wrap : u32 (x * 2 ^ 24) ≡ x * 2 ^ 24
    no_wrap = omega arith

pub join_two :
    (h : ℕ → ℕ) (a : ℕ)
    → IsBytes h
    → bit_or (u32 (load h (a + 2) 2 * 2 ^ 16)) (load h a 2) ≡ load h a 4
join_two h a bytes =
    cong_two (load_two h (a + 2) (a + 3) bytes (omega arith)) (load_two h a (a + 1) bytes refl)
    ∙ numbers (h a) (h (a + 1)) (h (a + 2)) (h (a + 3)) (byte a) (byte (a + 1)) (byte (a + 2))
        (byte (a + 3))
  where
    byte : (i : ℕ) → h i < 256
    byte = IsBytes-lt h bytes

    cong_two :
        {x x' y y' : ℕ}
        → x ≡ x'
        → y ≡ y'
        → bit_or (u32 (x * 2 ^ 16)) y ≡ bit_or (u32 (x' * 2 ^ 16)) y'
    cong_two e f i = bit_or (u32 (e i * 2 ^ 16)) (f i)

    numbers :
        (b0 b1 b2 b3 : ℕ)
        → b0 < 256
        → b1 < 256
        → b2 < 256
        → b3 < 256
        → bit_or (u32 ((b2 + 2 ^ 8 * b3) * 2 ^ 16)) (b0 + 2 ^ 8 * b1)
          ≡ (b0 + 2 ^ 8 * b1 + 2 ^ 16 * b2 + 2 ^ 24 * b3) % 2 ^ 32
    numbers b0 b1 b2 b3 p q r s =
        join_pair (b2 + 2 ^ 8 * b3) (b0 + 2 ^ 8 * b1) _ (omega arith) (omega arith) (omega arith)

pub join_zero :
    (h : ℕ → ℕ) (a : ℕ)
    → IsBytes h
    → bit_or
        (bit_or (u32 (load h (a + 3) 1 * 2 ^ 24)) (u32 (load h (a + 1) 2 * 2 ^ 8)))
        (load h a 1)
      ≡ load h a 4
join_zero h a bytes =
    cong_three (load_one h (a + 3) bytes) (load_two h (a + 1) (a + 2) bytes (omega arith))
      (load_one h a bytes)
    ∙ numbers (h a) (h (a + 1)) (h (a + 2)) (h (a + 3)) (byte a) (byte (a + 1)) (byte (a + 2))
        (byte (a + 3))
  where
    byte : (i : ℕ) → h i < 256
    byte = IsBytes-lt h bytes

    cong_three :
        {x x' y y' z z' : ℕ}
        → x ≡ x'
        → y ≡ y'
        → z ≡ z'
        → bit_or (bit_or (u32 (x * 2 ^ 24)) (u32 (y * 2 ^ 8))) z
          ≡ bit_or (bit_or (u32 (x' * 2 ^ 24)) (u32 (y' * 2 ^ 8))) z'
    cong_three e f g i = bit_or (bit_or (u32 (e i * 2 ^ 24)) (u32 (f i * 2 ^ 8))) (g i)

    numbers :
        (b0 b1 b2 b3 : ℕ)
        → b0 < 256
        → b1 < 256
        → b2 < 256
        → b3 < 256
        → bit_or (bit_or (u32 (b3 * 2 ^ 24)) (u32 ((b1 + 2 ^ 8 * b2) * 2 ^ 8))) b0
          ≡ (b0 + 2 ^ 8 * b1 + 2 ^ 16 * b2 + 2 ^ 24 * b3) % 2 ^ 32
    numbers b0 b1 b2 b3 p q r s =
        ap (λ x. bit_or x b0)
          (or_two b3 _ ((b1 + 2 ^ 8 * b2 + 2 ^ 16 * b3) * 2 ^ 8) s (omega arith) (omega arith))
        ∙ or_adds 8 (b1 + 2 ^ 8 * b2 + 2 ^ 16 * b3) b0 p
        ∙ omega arith

pub join_three :
    (h : ℕ → ℕ) (a : ℕ)
    → IsBytes h
    → bit_or
        (bit_or (u32 (load h (a + 3) 1 * 2 ^ 24)) (u32 (load h (a + 2) 1 * 2 ^ 16)))
        (load h a 2)
      ≡ load h a 4
join_three h a bytes =
    cong_three (load_one h (a + 3) bytes) (load_one h (a + 2) bytes)
      (load_two h a (a + 1) bytes refl)
    ∙ numbers (h a) (h (a + 1)) (h (a + 2)) (h (a + 3)) (byte a) (byte (a + 1)) (byte (a + 2))
        (byte (a + 3))
  where
    byte : (i : ℕ) → h i < 256
    byte = IsBytes-lt h bytes

    cong_three :
        {x x' y y' z z' : ℕ}
        → x ≡ x'
        → y ≡ y'
        → z ≡ z'
        → bit_or (bit_or (u32 (x * 2 ^ 24)) (u32 (y * 2 ^ 16))) z
          ≡ bit_or (bit_or (u32 (x' * 2 ^ 24)) (u32 (y' * 2 ^ 16))) z'
    cong_three e f g i = bit_or (bit_or (u32 (e i * 2 ^ 24)) (u32 (f i * 2 ^ 16))) (g i)

    numbers :
        (b0 b1 b2 b3 : ℕ)
        → b0 < 256
        → b1 < 256
        → b2 < 256
        → b3 < 256
        → bit_or (bit_or (u32 (b3 * 2 ^ 24)) (u32 (b2 * 2 ^ 16))) (b0 + 2 ^ 8 * b1)
          ≡ (b0 + 2 ^ 8 * b1 + 2 ^ 16 * b2 + 2 ^ 24 * b3) % 2 ^ 32
    numbers b0 b1 b2 b3 p q r s =
        ap (λ x. bit_or x (b0 + 2 ^ 8 * b1))
          (or_two b3 _ ((b2 + 2 ^ 8 * b3) * 2 ^ 16) s (omega arith) (omega arith))
        ∙ or_adds 16 (b2 + 2 ^ 8 * b3) (b0 + 2 ^ 8 * b1) (omega arith)
        ∙ omega arith

-- Two halves of two bytes.
pub join_halves :
    (hi lo : ℕ) → hi < 2 ^ 16 → lo < 2 ^ 16 → bit_or (u32 (hi * 2 ^ 16)) lo ≡ hi * 2 ^ 16 + lo
join_halves hi lo p q = join_pair hi lo (hi * 2 ^ 16 + lo) q refl (omega arith)
