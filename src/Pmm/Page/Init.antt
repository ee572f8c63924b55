-- ===== src/Pmm/Page/Init.antt =====
-- `init_page` sets up a page of any class with every block free.
use projects_demonstration.Base.{
  ℕ, zero, suc, ◌+◌, ◌-◌, ◌^◌, ◌≤◌, ◌<◌, ◌≡◌, refl, arith, List, some, if◌then◌else◌, ltb, leb,
  ◌&&◌, length, get_or, set, length-set, get_or-set_self, get_or-set_ne, ◌∙◌,
}
use projects_demonstration.Word.{bit, complement}
use projects_demonstration.Word.Laws.{bit-complement, bit-low_ones, two_pow-lt}
use projects_demonstration.Pmm.Layout.{Arch, bits32, bits64, width}
use projects_demonstration.Pmm.Layout.Classes.{Class, c8, bytes, words, skip, class-Fits}
use projects_demonstration.Pmm.Page.{Page, word, init_word, fill, init_page}
use projects_demonstration.Pmm.Page.Bitmap.{IsRaw, IsPage, IsBlock, IsFree, IsOpen}

length-fill : (left i v : ℕ) (xs : List ℕ) → length (fill left i v xs) ≡ length xs
unfolding fill
length-fill zero i v xs = refl
length-fill (suc left) i v xs = length-fill left (i + 1) v (set xs i v) ∙ length-set xs i v

get_or-fill :
    (left i v : ℕ) (xs : List ℕ) (k : ℕ)
    → i + left ≤ length xs
    → get_or (fill left i v xs) k 0 ≡ (if leb i k && ltb k (i + left) then v else get_or xs k 0)
unfolding fill
get_or-fill zero i v xs k h = ground arith
get_or-fill (suc left) i v xs k h = ground (
  arith,
  get_or-fill left (i + 1) v (set xs i v) k,
  length-set xs i v,
  get_or-set_self xs i v 0,
  get_or-set_ne xs i k v 0,
)

-- The word with ones from the first block on.
abbrev all_free : Arch → Class → ℕ
all_free a c = complement (width a) (2 ^ skip a c - 1)

init_word-bytes : (a : Arch) (c : Class) → init_word a (bytes c) ≡ some (all_free a c)
unfolding init_word
init_word-bytes bits32 c8 = refl
init_word-bytes bits32 _ = refl
init_word-bytes bits64 c8 = refl
init_word-bytes bits64 _ = refl

bit-all_free :
    (a : Arch) (c : Class) (j : ℕ)
    → j < width a
    → bit (all_free a c) j ≡ (if ltb j (skip a c) then 0 else 1)
bit-all_free a c j lt = ground (
  arith,
  bit-complement (width a) j (2 ^ skip a c - 1) lt,
  bit-low_ones (skip a c) j,
  two_pow-lt (width a) (skip a c) (class-Fits a c).skips,
)

all_free-lt : (a : Arch) (c : Class) → all_free a c < 2 ^ width a
all_free-lt a c = omega (arith, two_pow-lt (width a) (skip a c) (class-Fits a c).skips)

module _ {a : Arch} (c : Class) {p : Page} (raw : IsRaw a p) where
  bitmap-init_page : (init_page a p (bytes c)).bitmap ≡ fill (words a c) 0 (all_free a c) p.bitmap
  unfolding init_page
  bitmap-init_page = rw (init_word-bytes a c, init_page)

  word-init_page :
      (i : ℕ)
      → word (init_page a p (bytes c)) i ≡ (if ltb i (words a c) then all_free a c else word p i)
  word-init_page i = rw bitmap-init_page (
      get_or-fill (words a c) 0 (all_free a c) p.bitmap i
        (omega (arith, (class-Fits a c).within, raw.sized))
      ∙ ground arith)

  -- `init_page` makes a page of the class out of any memory.
  pub init_page-IsPage : IsPage a c (init_page a p (bytes c))
  init_page-IsPage = record {
    raw = record {
      sized = rw bitmap-init_page (length-fill (words a c) 0 (all_free a c) p.bitmap ∙ raw.sized);
      small = λ i. ground (arith, word-init_page i, all_free-lt a c, raw.small i);
    };
    typed = unfold init_page in refl;
    padded = λ j lt.
        rw (word-init_page 0)
          (ground (arith, bit-all_free a c j, (class-Fits a c).skips, (class-Fits a c).nonempty));
    full = λ e. absurd (unfold init_page in cc e);
  }

  -- Every block of the new page is free.
  pub init_page-IsFree : (i j : ℕ) → IsBlock a c i j → IsFree (init_page a p (bytes c)) i j
  init_page-IsFree i j b =
      rw (word-init_page i) (ground (arith, bit-all_free a c j, b.in_words, b.in_word, b.past_skip))

  -- It is linked to nothing, and nobody holds its lock.
  pub init_page-IsOpen :
      IsOpen (init_page a p (bytes c)) × ((init_page a p (bytes c)).page_list ≡ 0)
  unfolding init_page
  init_page-IsOpen = (refl, refl)
