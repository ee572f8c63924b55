-- ===== src/Pmm/Heap/Blocks.antt =====
-- Blocks of a heap: where they lie, and that no two overlap.
use projects_demonstration.Base.{
  ℕ, ◌+◌, ◌-◌, ◌*◌, ◌≤◌, ◌<◌, ◌≡◌, ◌≢◌, ◌⊎◌, sym, ap, ◌∙◌, arith, inl, inr, eq-cases,
}
use native.Mathlib.Decide.{dec_lt}
use mathlib.Core.Path.{subst}
use projects_demonstration.Word.{bit}
use projects_demonstration.Pmm.Layout.{Arch, width, avail_sz}
use projects_demonstration.Pmm.Layout.Classes.{Class, bytes, skip, bytes-injective}
use projects_demonstration.Pmm.Page.{word}
use projects_demonstration.Pmm.Page.Bitmap.{IsPage, IsBlock, IsFree, offset, offset-le}
use projects_demonstration.Pmm.Heap.{Heap}
use projects_demonstration.Pmm.Heap.Chain.{Pages, page_at, block_addr}
use projects_demonstration.Pmm.Heap.Alloc.{Allocates}

below_apart : (i j x y w : ℕ) → i < x → j < w → j + i * w < y + x * w
below_apart i j x y w lt inside = grind arith

multiples_apart : (m n s : ℕ) → m ≢ n → (m * s + s ≤ n * s) ⊎ (n * s + s ≤ m * s)
multiples_apart m n s ne = elim (dec_lt m n) [
  | yes lt ↦ inl (grind arith)
  | no ge ↦ inr (grind arith)
]

-- Different blocks of a page are a whole block apart.
pub offset_apart :
    (a : Arch) (c : Class) (i j x y : ℕ)
    → IsBlock a c i j
    → IsBlock a c x y
    → (i ≡ x → j ≢ y)
    → (offset a c i j + bytes c ≤ offset a c x y) ⊎ (offset a c x y + bytes c ≤ offset a c i j)
offset_apart a c i j x y b b' ne =
    multiples_apart (j - skip a c + i * width a) (y - skip a c + x * width a) (bytes c) differ
  where
    differ : j - skip a c + i * width a ≢ y - skip a c + x * width a
    differ e = elim (dec_lt i x) [
      | yes lt ↦ omega (
        arith,
        below_apart i (j - skip a c) x (y - skip a c) (width a) lt (omega (arith, b.in_word)),
      )
      | no ge ↦ elim (dec_lt x i) [
        | yes lt ↦ omega (
          arith,
          below_apart x (y - skip a c) i (j - skip a c) (width a) lt (omega (arith, b'.in_word)),
        )
        | no le ↦
            let same : i ≡ x = omega arith in
            ne same (omega (arith, ap (λ (n : ℕ). n * width a) same, b.past_skip, b'.past_skip))
      ]
    ]

-- A block of a heap that is in use.
pub record IsLive (a : Arch) (s : Heap) (g : Pages) (k : ℕ) (c : Class) (i j : ℕ) : Type 0 where
  pub in_heap : k < g.count
  pub class : IsPage a c (page_at s k)
  pub block : IsBlock a c i j
  pub used : bit (word (page_at s k) i) j ≡ 0

abbrev pub Apart : ℕ → ℕ → ℕ → ℕ → Type 0
Apart x m y n = (x + m ≤ y) ⊎ (y + n ≤ x)

module _ {a : Arch} {s : Heap} {g : Pages} where
  -- Blocks in use do not overlap: they are one and the same, or one ends before the other begins.
  pub live-Apart :
      {k m i j x y : ℕ} {c d : Class}
      → IsLive a s g k c i j
      → IsLive a s g m d x y
      → ((k ≡ m) × (i ≡ x) × (j ≡ y))
        ⊎ Apart (block_addr a s k c i j) (bytes c) (block_addr a s m d x y) (bytes d)
  live-Apart {k} {m} {i} {j} {x} {y} {c} {d} l l' = elim (eq-cases k m) [
    | inl same ↦ within same (
        bytes-injective d c
          (sym l'.class.typed ∙ ap (λ n. (page_at s n).type) (sym same) ∙ l.class.typed))
    | inr other ↦ inr (apart_pages other (offset-le a c i j l.block) (offset-le a d x y l'.block))
  ]
    where
      apart_pages :
          k ≢ m
          → offset a c i j + bytes c ≤ avail_sz
          → offset a d x y + bytes d ≤ avail_sz
          → Apart (block_addr a s k c i j) (bytes c) (block_addr a s m d x y) (bytes d)
      apart_pages ne le le' = elim (dec_lt k m) [
        | yes lt ↦ inl (omega arith)
        | no ge ↦ inr (omega arith)
      ]

      apart_in :
          k ≡ m
          → d ≡ c
          → (i ≡ x → j ≢ y)
          → Apart (block_addr a s k c i j) (bytes c) (block_addr a s m d x y) (bytes d)
      apart_in same e ne =
          subst (λ z. Apart (block_addr a s k c i j) (bytes c) (block_addr a s m z x y) (bytes z))
            (sym e)
            (elim (offset_apart a c i j x y l.block (subst (λ z. IsBlock a z x y) e l'.block) ne) [
              | inl before ↦ inl (omega arith)
              | inr behind ↦ inr (omega arith)
            ])

      within :
          k ≡ m
          → d ≡ c
          → ((k ≡ m) × (i ≡ x) × (j ≡ y))
            ⊎ Apart (block_addr a s k c i j) (bytes c) (block_addr a s m d x y) (bytes d)
      within same e = elim (eq-cases i x) [
        | inl i_eq ↦ elim (eq-cases j y) [
          | inl j_eq ↦ inl (same, i_eq, j_eq)
          | inr j_ne ↦ inr (apart_in same e (λ _. j_ne))
        ]
        | inr i_ne ↦ inr (apart_in same e (λ q. absurd (i_ne q)))
      ]

module _ {a : Arch} {s : Heap} {g : Pages} where
  -- The block that is taken is in use, the one that was in use still is, and they do not overlap.
  pub Allocates-Apart :
      {cpu k m i j x y : ℕ} {c d : Class} {s' : Heap} {g' : Pages}
      → Allocates a c cpu s g s' g' k i j
      → IsLive a s g m d x y
      → IsLive a s' g' k c i j
        × IsLive a s' g' m d x y
        × Apart (block_addr a s k c i j) (bytes c) (block_addr a s m d x y) (bytes d)
  Allocates-Apart {k} {m} {i} {j} {x} {y} {c} {d} {s'} {g'} t l =
      (new, old, apart (live-Apart new old))
    where
      new : IsLive a s' g' k c i j
      new = record { in_heap = t.in_heap; class = t.class; block = t.block; used = t.taken }

      old_class : (e : Class) × IsPage a e (page_at s' m) → IsPage a d (page_at s' m)
      old_class (e, ok) =
          subst (λ z. IsPage a z (page_at s' m))
            (bytes-injective e d (sym ok.typed ∙ t.same_classes m l.in_heap ∙ l.class.typed)) ok

      old : IsLive a s' g' m d x y
      old = record {
        in_heap = omega (arith, l.in_heap, t.grows);
        class = old_class (t.kept.class m (omega (arith, l.in_heap, t.grows)));
        block = l.block;
        used = t.others m x y l.in_heap ∙ ground (arith, l.used);
      }

      apart :
          ((k ≡ m) × (i ≡ x) × (j ≡ y))
            ⊎ Apart (block_addr a s' k c i j) (bytes c) (block_addr a s' m d x y) (bytes d)
          → Apart (block_addr a s k c i j) (bytes c) (block_addr a s m d x y) (bytes d)
      apart (inl (k_eq, i_eq, j_eq)) = absurd (clash k_eq i_eq j_eq)
        where
          clash : k ≡ m → i ≡ x → j ≡ y → ⊥
          clash p q r =
              let free : IsFree (page_at s k) i j = t.was_free (omega (arith, l.in_heap)) in
              let free' : IsFree (page_at s m) x y = rw (p, q, r) at free in omega (arith, l.used)
      apart (inr (inl before)) = inl (omega (arith, t.same_area.0))
      apart (inr (inr behind)) = inr (omega (arith, t.same_area.0))
