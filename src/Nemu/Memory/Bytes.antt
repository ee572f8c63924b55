-- ===== src/Nemu/Memory/Bytes.antt =====
-- Bytes that are stored in the memory of the host and loaded.
use projects_demonstration.Base.{
  ℕ, zero, suc, ◌+◌, ◌*◌, ◌/◌, ◌%◌, ◌^◌, ◌<◌, ◌≤◌, ◌≡◌, ◌≢◌, ◌⊎◌, inl, inr, refl, ap, ◌∙◌, arith,
  update, update-ne, update-eq,
}
use projects_demonstration.Nemu.Memory.{load, store}

byte_of : (v i : ℕ) → ℕ
byte_of v zero = v % 256
byte_of v (suc i) = byte_of (v / 256) i

pub store_outside :
    (len : ℕ) (h : ℕ → ℕ) (a v j : ℕ) → (j < a) ⊎ (a + len ≤ j) → store h a v len j ≡ h j
store_outside zero h a v j o = refl
store_outside (suc len) h a v j o =
    store_outside len (update h a (v % 256)) (a + 1) (v / 256) j (later o)
    ∙ update-ne h a j (v % 256) (other o)
  where
    later : (j < a) ⊎ (a + suc len ≤ j) → (j < a + 1) ⊎ (a + 1 + len ≤ j)
    later (inl p) = inl (omega arith)
    later (inr p) = inr (omega arith)

    other : (j < a) ⊎ (a + suc len ≤ j) → j ≢ a
    other (inl p) e = omega arith
    other (inr p) e = omega arith

store_inside : (len i : ℕ) (h : ℕ → ℕ) (a v : ℕ) → i < len → store h a v len (a + i) ≡ byte_of v i
unfolding byte_of
store_inside zero i h a v lt = absurd (omega arith)
store_inside (suc len) zero h a v lt =
    ap (store (update h a (v % 256)) (a + 1) (v / 256) len) (omega arith)
    ∙ store_outside len (update h a (v % 256)) (a + 1) (v / 256) a (inl (omega arith))
    ∙ update-eq h a (v % 256)
store_inside (suc len) (suc i) h a v lt =
    ap (store (update h a (v % 256)) (a + 1) (v / 256) len) (omega arith)
    ∙ store_inside len i (update h a (v % 256)) (a + 1) (v / 256) (omega arith)

stored_1 :
    (x0 x1 x2 x3 v : ℕ)
    → x0 ≡ byte_of v 0
    → (x0 + 2 ^ 8 * x1 + 2 ^ 16 * x2 + 2 ^ 24 * x3) % 2 ^ 8 ≡ v % 2 ^ 8
unfolding byte_of
stored_1 x0 x1 x2 x3 v e0 = omega arith

stored_2 :
    (x0 x1 x2 x3 v : ℕ)
    → x0 ≡ byte_of v 0
    → x1 ≡ byte_of v 1
    → (x0 + 2 ^ 8 * x1 + 2 ^ 16 * x2 + 2 ^ 24 * x3) % 2 ^ 16 ≡ v % 2 ^ 16
unfolding byte_of
stored_2 x0 x1 x2 x3 v e0 e1 = omega arith

stored_3 :
    (x0 x1 x2 x3 v : ℕ)
    → x0 ≡ byte_of v 0
    → x1 ≡ byte_of v 1
    → x2 ≡ byte_of v 2
    → (x0 + 2 ^ 8 * x1 + 2 ^ 16 * x2 + 2 ^ 24 * x3) % 2 ^ 24 ≡ v % 2 ^ 24
unfolding byte_of
stored_3 x0 x1 x2 x3 v e0 e1 e2 = omega arith

stored_4 :
    (x0 x1 x2 x3 v : ℕ)
    → x0 ≡ byte_of v 0
    → x1 ≡ byte_of v 1
    → x2 ≡ byte_of v 2
    → x3 ≡ byte_of v 3
    → (x0 + 2 ^ 8 * x1 + 2 ^ 16 * x2 + 2 ^ 24 * x3) % 2 ^ 32 ≡ v % 2 ^ 32
unfolding byte_of
stored_4 x0 x1 x2 x3 v e0 e1 e2 e3 = omega arith

same_1 :
    (x0 x1 x2 x3 y0 y1 y2 y3 : ℕ)
    → x0 ≡ y0
    → (x0 + 2 ^ 8 * x1 + 2 ^ 16 * x2 + 2 ^ 24 * x3) % 2 ^ 8
      ≡ (y0 + 2 ^ 8 * y1 + 2 ^ 16 * y2 + 2 ^ 24 * y3) % 2 ^ 8
same_1 x0 x1 x2 x3 y0 y1 y2 y3 e0 = omega arith

same_2 :
    (x0 x1 x2 x3 y0 y1 y2 y3 : ℕ)
    → x0 ≡ y0
    → x1 ≡ y1
    → (x0 + 2 ^ 8 * x1 + 2 ^ 16 * x2 + 2 ^ 24 * x3) % 2 ^ 16
      ≡ (y0 + 2 ^ 8 * y1 + 2 ^ 16 * y2 + 2 ^ 24 * y3) % 2 ^ 16
same_2 x0 x1 x2 x3 y0 y1 y2 y3 e0 e1 = omega arith

same_3 :
    (x0 x1 x2 x3 y0 y1 y2 y3 : ℕ)
    → x0 ≡ y0
    → x1 ≡ y1
    → x2 ≡ y2
    → (x0 + 2 ^ 8 * x1 + 2 ^ 16 * x2 + 2 ^ 24 * x3) % 2 ^ 24
      ≡ (y0 + 2 ^ 8 * y1 + 2 ^ 16 * y2 + 2 ^ 24 * y3) % 2 ^ 24
same_3 x0 x1 x2 x3 y0 y1 y2 y3 e0 e1 e2 = omega arith

same_4 :
    (x0 x1 x2 x3 y0 y1 y2 y3 : ℕ)
    → x0 ≡ y0
    → x1 ≡ y1
    → x2 ≡ y2
    → x3 ≡ y3
    → (x0 + 2 ^ 8 * x1 + 2 ^ 16 * x2 + 2 ^ 24 * x3) % 2 ^ 32
      ≡ (y0 + 2 ^ 8 * y1 + 2 ^ 16 * y2 + 2 ^ 24 * y3) % 2 ^ 32
same_4 x0 x1 x2 x3 y0 y1 y2 y3 e0 e1 e2 e3 = omega arith

plus_zero : (f : ℕ → ℕ) (a x : ℕ) → f (a + 0) ≡ x → f a ≡ x
plus_zero f a x e = ap f (omega arith) ∙ e

pub load_stored :
    (h : ℕ → ℕ) (a v len : ℕ) → 1 ≤ len → len ≤ 4 → load (store h a v len) a len ≡ v % 2 ^ (8 * len)
load_stored h a v zero p q = absurd (omega arith)
load_stored h a v (suc zero) p q =
    stored_1 _ _ _ _ v (plus_zero (store h a v 1) a _ (store_inside 1 0 h a v (omega arith)))
load_stored h a v (suc (suc zero)) p q =
    stored_2 _ _ _ _ v (plus_zero (store h a v 2) a _ (store_inside 2 0 h a v (omega arith)))
      (store_inside 2 1 h a v (omega arith))
load_stored h a v (suc (suc (suc zero))) p q =
    stored_3 _ _ _ _ v (plus_zero (store h a v 3) a _ (store_inside 3 0 h a v (omega arith)))
      (store_inside 3 1 h a v (omega arith)) (store_inside 3 2 h a v (omega arith))
load_stored h a v (suc (suc (suc (suc zero)))) p q =
    stored_4 _ _ _ _ v (plus_zero (store h a v 4) a _ (store_inside 4 0 h a v (omega arith)))
      (store_inside 4 1 h a v (omega arith)) (store_inside 4 2 h a v (omega arith))
      (store_inside 4 3 h a v (omega arith))
load_stored h a v (suc (suc (suc (suc (suc n))))) p q = absurd (omega arith)

untouched :
    (len : ℕ) (h : ℕ → ℕ) (a v a' len' i : ℕ)
    → (a + len ≤ a') ⊎ (a' + len' ≤ a)
    → i < len'
    → store h a v len (a' + i) ≡ h (a' + i)
untouched len h a v a' len' i (inl p) lt = store_outside len h a v (a' + i) (inr (omega arith))
untouched len h a v a' len' i (inr p) lt = store_outside len h a v (a' + i) (inl (omega arith))

untouched_first :
    (len : ℕ) (h : ℕ → ℕ) (a v a' len' : ℕ)
    → (a + len ≤ a') ⊎ (a' + len' ≤ a)
    → 0 < len'
    → store h a v len a' ≡ h a'
untouched_first len h a v a' len' (inl p) lt = store_outside len h a v a' (inr (omega arith))
untouched_first len h a v a' len' (inr p) lt = store_outside len h a v a' (inl (omega arith))

pub load_other :
    (h : ℕ → ℕ) (a v len a' len' : ℕ)
    → (a + len ≤ a') ⊎ (a' + len' ≤ a)
    → len' ≤ 4
    → load (store h a v len) a' len' ≡ load h a' len'
load_other h a v len a' zero o q = omega arith
load_other h a v len a' (suc zero) o q =
    same_1 _ _ _ _ _ _ _ _ (untouched_first len h a v a' 1 o (omega arith))
load_other h a v len a' (suc (suc zero)) o q =
    same_2 _ _ _ _ _ _ _ _ (untouched_first len h a v a' 2 o (omega arith))
      (untouched len h a v a' 2 1 o (omega arith))
load_other h a v len a' (suc (suc (suc zero))) o q =
    same_3 _ _ _ _ _ _ _ _ (untouched_first len h a v a' 3 o (omega arith))
      (untouched len h a v a' 3 1 o (omega arith)) (untouched len h a v a' 3 2 o (omega arith))
load_other h a v len a' (suc (suc (suc (suc zero)))) o q =
    same_4 _ _ _ _ _ _ _ _ (untouched_first len h a v a' 4 o (omega arith))
      (untouched len h a v a' 4 1 o (omega arith)) (untouched len h a v a' 4 2 o (omega arith))
      (untouched len h a v a' 4 3 o (omega arith))
load_other h a v len a' (suc (suc (suc (suc (suc n))))) o q = absurd (omega arith)

upper_half :
    (x0 x1 x2 x3 v : ℕ)
    → x0 ≡ byte_of v 2
    → x1 ≡ byte_of v 3
    → (x0 + 2 ^ 8 * x1 + 2 ^ 16 * x2 + 2 ^ 24 * x3) % 2 ^ 16 ≡ v / 2 ^ 16 % 2 ^ 16
unfolding byte_of
upper_half x0 x1 x2 x3 v e0 e1 = omega arith

-- The upper half of a value of four bytes.
pub load_upper : (h : ℕ → ℕ) (a v : ℕ) → load (store h a v 4) (a + 2) 2 ≡ v / 2 ^ 16 % 2 ^ 16
load_upper h a v = upper_half _ _ _ _ v (store_inside 4 2 h a v (omega arith)) (
    ap (store h a v 4) {x = a + 2 + 1} {y = a + 3} (omega arith)
    ∙ store_inside 4 3 h a v (omega arith))
