-- ===== src/Pmm/Page/Bitmap.antt =====
-- What the bitmap of a page means: bit `j` of word `i` is one exactly if that block is free.
use projects_demonstration.Base.{
  ℕ, zero, suc, ◌+◌, ◌-◌, ◌*◌, ◌^◌, ◌≤◌, ◌<◌, ◌≡◌, refl, true, arith, length,
}
use projects_demonstration.Word.{bit, ctz}
use projects_demonstration.Word.Laws.{bit-ctz, ctz-lt}
use projects_demonstration.Pmm.Layout.{Arch, bits32, bits64, Undefined, width, avail_sz, common_map}
use projects_demonstration.Pmm.Layout.Classes.{Class, c8, bytes, words, skip, class-Fits}
use projects_demonstration.Pmm.Page.{Page, word, loc, last_loc}

-- Memory that can hold a page header: an array of the right length, of words.
pub record IsRaw (a : Arch) (p : Page) : Type 0 where
  pub sized : length p.bitmap ≡ common_map a
  pub small : (i : ℕ) → word p i < 2 ^ width a

abbrev pub IsFree : Page → ℕ → ℕ → Type 0
IsFree p i j = bit (word p i) j ≡ 1

-- The blocks of a page, by word and bit.
pub record IsBlock (a : Arch) (c : Class) (i j : ℕ) : Type 0 where
  pub in_words : i < words a c
  pub in_word : j < width a
  pub past_skip : skip a c ≤ j

-- A page that is set up for a class. A page that is marked full has no free block but the last.
pub record IsPage (a : Arch) (c : Class) (p : Page) : Type 0 where
  pub raw : IsRaw a p
  pub open raw use *
  pub typed : p.type ≡ bytes c
  pub padded : (j : ℕ) → j < skip a c → bit (word p 0) j ≡ 0
  pub full :
      p.is_full ≡ true
      → (i j : ℕ) → i < words a c
      → j < width a
      → IsFree p i j
      → (i ≡ words a c - 1) × (j ≡ width a - 1)

-- Nobody holds the lock of the page.
abbrev pub IsOpen : Page → Type 0
IsOpen p = p.lock.locked ≡ 0

-- The distance of a block from the start of the data.
abbrev pub offset : Arch → Class → ℕ → ℕ → ℕ
offset a c i j = (j - skip a c + i * width a) * bytes c

module _ {a : Arch} {c : Class} {p : Page} (ok : IsPage a c p) where
  pub padded_word : (i j : ℕ) → i < words a c → j < skip a c → bit (word p i) j ≡ 0
  padded_word zero j lt h = ok.padded j h
  padded_word (suc i) j lt h = absurd (omega (arith, (class-Fits a c).one_word (omega arith)))

  pub free-past_skip : (i j : ℕ) → i < words a c → IsFree p i j → skip a c ≤ j
  free-past_skip i j lt free = grind (arith, padded_word i j lt)

pub skip-le-ctz :
    (a : Arch) (c : Class) (x : ℕ)
    → ((j : ℕ) → j < skip a c → bit x j ≡ 0)
    → 0 < x
    → x < 2 ^ width a
    → skip a c ≤ ctz (width a) x
skip-le-ctz a c x pad pos small =
    grind (arith, pad (ctz (width a) x), bit-ctz (width a) x pos small)

-- `loc` is the lowest one bit, counted from the first block, if there is one.
pub loc-ctz :
    (u : Undefined) (a : Arch) (c : Class) (x : ℕ)
    → ((j : ℕ) → j < skip a c → bit x j ≡ 0)
    → 0 < x
    → x < 2 ^ width a
    → loc u a x (bytes c) ≡ ctz (width a) x - skip a c
unfolding loc
loc-ctz u a c x pad pos small =
    go a c (skip-le-ctz a c x pad pos small) (ctz-lt (width a) x pos small)
  where
    go :
        (a : Arch) (c : Class)
        → skip a c ≤ ctz (width a) x
        → ctz (width a) x < width a
        → loc u a x (bytes c) ≡ ctz (width a) x - skip a c
    go bits32 c8 le lt = ground arith
    go bits32 _ le lt = ground arith
    go bits64 c8 le lt = ground arith
    go bits64 _ le lt = ground arith

pub last_loc-bytes : (a : Arch) (c : Class) → last_loc a (bytes c) ≡ width a - 1 - skip a c
unfolding last_loc
last_loc-bytes bits32 c8 = refl
last_loc-bytes bits32 _ = refl
last_loc-bytes bits64 c8 = refl
last_loc-bytes bits64 _ = refl

-- A block ends within the data of its page.
pub offset-le :
    (a : Arch) (c : Class) (i j : ℕ) → IsBlock a c i j → offset a c i j + bytes c ≤ avail_sz
offset-le bits32 c8 i j b = omega (arith, b.in_words, b.in_word)
offset-le bits32 _ i j b = omega (arith, b.in_words, b.in_word, b.past_skip)
offset-le bits64 c8 i j b = omega (arith, b.in_words, b.in_word)
offset-le bits64 _ i j b = omega (arith, b.in_words, b.in_word, b.past_skip)
