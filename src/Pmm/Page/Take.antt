-- ===== src/Pmm/Page/Take.antt =====
-- The search of a page for its first free block.
pub mod Search
use projects_demonstration.Base.{
  ℕ, zero, suc, ◌+◌, ◌-◌, ◌*◌, ◌/◌, ◌%◌, ◌^◌, ◌≤◌, ◌<◌, ◌≡◌, ◌≢◌, ◌⊎◌, refl, Bool, true, false,
  arith, List, Option, none, some, if◌then◌else◌, ◌==◌, ltb, leb, ◌&&◌, length, get_or, set, inl,
  inr, Bool-cases, length-set, get_or-set_self, get_or-set_ne, ◌∙◌, eq-cases, ap,
}
use native.Mathlib.Decide.{dec_lt}
use projects_demonstration.Word.{bit, complement, ctz, mask}
use projects_demonstration.Word.Laws.{
  bit-clear, mask-two_pow, mask-zero, ctz-lt, bit-ctz, bit-below_ctz, bit_and-le, two_pow_pos,
  pos_of_bit,
}
use projects_demonstration.Pmm.Layout.{
  Arch, bits32, bits64, Undefined, width, common_map, num_bitmap, ptr_bytes,
}
use projects_demonstration.Pmm.Layout.Classes.{Class, bytes, words, skip, Fits, class-Fits}
use projects_demonstration.Pmm.Page.{Page, word, loc, last_loc, clear_lowest, scan, try_page}
use projects_demonstration.Pmm.Page.Bitmap.{
  IsRaw, IsPage, IsBlock, IsFree, offset, padded_word, skip-le-ctz, loc-ctz, last_loc-bytes,
}

-- Clearing the lowest one bit of a word that has one.
clear_lowest_bits :
    (a : Arch) (x k : ℕ)
    → 0 < x
    → x < 2 ^ width a
    → bit (clear_lowest a x) k ≡ (if k == ctz (width a) x then 0 else bit x k)
unfolding clear_lowest
clear_lowest_bits a x k pos small =
    rw (mask-two_pow (width a) x pos small)
      (bit-clear (width a) (ctz (width a) x) k x (ctz-lt (width a) x pos small) small)

clear_lowest-lt : (a : Arch) (x : ℕ) → x < 2 ^ width a → clear_lowest a x < 2 ^ width a
unfolding clear_lowest
clear_lowest-lt a x small =
    omega (arith, bit_and-le x (complement (width a) (mask (width a) x)) (width a) small)

pub mask-zero_iff : (a : Arch) (x : ℕ) → x < 2 ^ width a → (mask (width a) x == 0) ≡ (x == 0)
mask-zero_iff a zero small = ground (arith, mask-zero (width a))
mask-zero_iff a (suc x) small =
    ground (arith, mask-two_pow (width a) (suc x), two_pow_pos (ctz (width a) (suc x)))

-- `p'` is `p` with the free block `j` of word `i` taken, which was the first free one.
pub record Takes (a : Arch) (c : Class) (p p' : Page) (i j : ℕ) : Type 0 where
  pub block : IsBlock a c i j
  pub was_free : IsFree p i j
  pub first : (k l : ℕ) → k * width a + l < i * width a + j → l < width a → bit (word p k) l ≡ 0
  pub bits : (k l : ℕ) → bit (word p' k) l ≡ (if k == i && l == j then 0 else bit (word p k) l)
  pub kept : IsPage a c p'
  pub linked : p'.page_list ≡ p.page_list
  pub same_lock : p'.lock ≡ p.lock
  pub same_type : p'.type ≡ p.type

-- No block of the page is free.
abbrev pub IsEmpty : Arch → Class → Page → Type 0
IsEmpty a c p = (i j : ℕ) → i < words a c → bit (word p i) j ≡ 0

abbrev pub taken_page : Undefined → Arch → Class → ℕ → Page → Page
taken_page u a c i p =
    let x' = clear_lowest a (word p i) in
    record p {
      is_full =
          if i == words a c - 1
          then (if loc u a x' (bytes c) == last_loc a (bytes c) then true else p.is_full)
          else p.is_full;
      bitmap = set p.bitmap i x';
    }

module _ (u : Undefined) (a : Arch) (c : Class) {p : Page} (ok : IsPage a c p) (i : ℕ)
    (lt : i < words a c) (pos : 0 < word p i)
    (before : (k l : ℕ) → k < i → bit (word p k) l ≡ 0) where
  abbrev pub lowest : ℕ
  lowest = ctz (width a) (word p i)

  word-taken_page :
      (k : ℕ)
      → word (taken_page u a c i p) k ≡ (if k == i then clear_lowest a (word p i) else word p k)
  word-taken_page k = ground (
    arith,
    get_or-set_self p.bitmap i (clear_lowest a (word p i)) 0,
    get_or-set_ne p.bitmap i k (clear_lowest a (word p i)) 0,
    ok.raw.sized,
    (class-Fits a c).within,
  )

  bits-taken_page :
      (k l : ℕ)
      → bit (word (taken_page u a c i p) k) l
        ≡ (if k == i && l == lowest then 0 else bit (word p k) l)
  bits-taken_page k l = elim (Bool-cases (k == i)) [
    | inl hit ↦
        rw (word-taken_page k, hit)
          (clear_lowest_bits a (word p i) l pos (ok.raw.small i) ∙ ground arith)
    | inr miss ↦ rw (word-taken_page k, miss) refl
  ]

  lowest-IsBlock : IsBlock a c i lowest
  lowest-IsBlock = record {
    in_words = lt;
    in_word = ctz-lt (width a) (word p i) pos (ok.raw.small i);
    past_skip = skip-le-ctz a c (word p i) (λ l h. padded_word ok i l lt h) pos (ok.raw.small i);
  }

  cleared : ℕ
  cleared = clear_lowest a (word p i)

  cleared-padded : (j : ℕ) → j < skip a c → bit cleared j ≡ 0
  unfolding cleared
  cleared-padded j h =
      ground (arith, clear_lowest_bits a (word p i) j pos (ok.raw.small i), padded_word ok i j lt)

  -- Where the test for the last block passes, the word has at most that one left.
  only_last :
      (l : ℕ)
      → loc u a cleared (bytes c) ≡ last_loc a (bytes c)
      → bit cleared l ≡ 1
      → l < width a
      → l ≡ width a - 1
  only_last l e free l_lt =
      let p' = pos_of_bit cleared l free in
      let small : cleared < 2 ^ width a =
        unfold cleared in clear_lowest-lt a (word p i) (ok.raw.small i) in
      grind (
        arith,
        loc-ctz u a c cleared cleared-padded p' small,
        last_loc-bytes a c,
        skip-le-ctz a c cleared cleared-padded p' small,
        ctz-lt (width a) cleared p' small,
        bit-below_ctz (width a) cleared l,
        (class-Fits a c).skips,
      )

  -- If the page is now marked full, only its last block may be free.
  taken-full :
      (taken_page u a c i p).is_full ≡ true
      → (k l : ℕ) → k < words a c
      → l < width a
      → IsFree (taken_page u a c i p) k l
      → (k ≡ words a c - 1) × (l ≡ width a - 1)
  unfolding cleared
  taken-full e k l k_lt l_lt free = elim (Bool-cases p.is_full) [
    | inl was ↦ ok.full was k l k_lt l_lt (ground (arith, bits-taken_page k l))
    | inr was ↦ elim (eq-cases k i) [
      | inl same ↦
          (ground arith, only_last l (ground arith) (ground (arith, word-taken_page k)) l_lt)
      | inr other ↦ absurd (ground (arith, bits-taken_page k l, before k l))
    ]
  ]

  first_free :
      (k l : ℕ) → k * width a + l < i * width a + lowest → l < width a → bit (word p k) l ≡ 0
  first_free k l below l_lt = elim (dec_lt k i) [
    | yes lower ↦ before k l lower
    | no upper ↦ elim (eq-cases k i) [
      | inl same ↦ rw same (bit-below_ctz (width a) (word p i) l (grind arith))
      | inr other ↦ absurd (grind (arith, lowest-IsBlock.in_word))
    ]
  ]

  pub taken_page-Takes : Takes a c p (taken_page u a c i p) i lowest
  taken_page-Takes = record {
    block = lowest-IsBlock;
    was_free = bit-ctz (width a) (word p i) pos (ok.raw.small i);
    first = first_free;
    bits = bits-taken_page;
    kept = record {
      raw = record {
        sized = length-set p.bitmap i (clear_lowest a (word p i)) ∙ ok.raw.sized;
        small =
            λ k. ground (arith, word-taken_page k, ok.raw.small k, clear_lowest-lt a (word p i));
      };
      typed = ok.typed;
      padded = λ j h. ground (arith, bits-taken_page 0 j, ok.padded j);
      full = taken-full;
    };
    linked = refl;
    same_lock = refl;
    same_type = refl;
  }
