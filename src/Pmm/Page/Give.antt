-- ===== src/Pmm/Page/Give.antt =====
-- Giving a block back to its page.
use Prim.Native.Nat.{bit_or}
use projects_demonstration.Base.{
  ℕ, ◌^◌, ◌<◌, ◌≡◌, refl, false, arith, some, if◌then◌else◌, ◌==◌, ◌&&◌, set, inl, inr, Bool-cases,
  length-set, get_or-set_self, get_or-set_ne, ◌∙◌,
}
use native.Mathlib.Nat.{mod-eq_of_lt}
use projects_demonstration.Word.{bit}
use projects_demonstration.Word.Laws.{bit-put, bit_or-lt, two_pow-lt}
use projects_demonstration.Pmm.Layout.{Arch, bits32, bits64, width}
use projects_demonstration.Pmm.Layout.Classes.{Class, c8, c1024, bytes, class-Fits}
use projects_demonstration.Pmm.Page.{Page, word, give, give_word, give_bit}
use projects_demonstration.Pmm.Page.Bitmap.{IsPage, IsBlock, IsOpen, offset}

-- The upper half of a page of blocks of 1024 bytes, on 32 bits: `kfree_unsafe` takes its blocks for
-- those of the first word.
abbrev pub IsMisplaced : Arch → Class → ℕ → Type 0
IsMisplaced bits32 c1024 i = 0 < i
IsMisplaced a c i = ⊥

module _ (i j : ℕ) where
  give_word-offset :
      (a : Arch) (c : Class)
      → IsBlock a c i j
      → ¬ IsMisplaced a c i
      → give_word a (bytes c) (offset a c i j) ≡ i
  unfolding give_word
  give_word-offset bits32 c8 b ok = omega (arith, b.in_words, b.in_word)
  give_word-offset bits32 c1024 b ok = omega (arith, b.in_words, b.in_word)
  give_word-offset bits32 _ b ok = omega (arith, b.in_words, b.in_word)
  give_word-offset bits64 c8 b ok = omega (arith, b.in_words, b.in_word)
  give_word-offset bits64 _ b ok = omega (arith, b.in_words, b.in_word)

  pub give_bit-offset :
      (a : Arch) (c : Class) → IsBlock a c i j → give_bit a (bytes c) (offset a c i j) ≡ j
  unfolding give_bit
  give_bit-offset bits32 c8 b = omega (arith, b.in_words, b.in_word, b.past_skip)
  give_bit-offset bits32 _ b = omega (arith, b.in_words, b.in_word, b.past_skip)
  give_bit-offset bits64 c8 b = omega (arith, b.in_words, b.in_word, b.past_skip)
  give_bit-offset bits64 _ b = omega (arith, b.in_words, b.in_word, b.past_skip)

-- `p'` is `p` with block `j` of word `i` given back.
pub record Gives (a : Arch) (c : Class) (p p' : Page) (i j : ℕ) : Type 0 where
  pub bits : (k l : ℕ) → bit (word p' k) l ≡ (if k == i && l == j then 1 else bit (word p k) l)
  pub kept : IsPage a c p'
  pub linked : p'.page_list ≡ p.page_list
  pub same_lock : p'.lock ≡ p.lock

given_page : ℕ → ℕ → Page → Page
given_page i j p = record p { is_full = false; bitmap = set p.bitmap i (bit_or (word p i) (2 ^ j)) }

module _ {a : Arch} {c : Class} {p : Page} (ok : IsPage a c p) {i j : ℕ} (b : IsBlock a c i j) where
  word-given_page :
      (k : ℕ) → word (given_page i j p) k ≡ (if k == i then bit_or (word p i) (2 ^ j) else word p k)
  unfolding given_page
  word-given_page k = ground (
    arith,
    get_or-set_self p.bitmap i (bit_or (word p i) (2 ^ j)) 0,
    get_or-set_ne p.bitmap i k (bit_or (word p i) (2 ^ j)) 0,
    ok.raw.sized,
    b.in_words,
    (class-Fits a c).within,
  )

  bits-given_page :
      (k l : ℕ)
      → bit (word (given_page i j p) k) l ≡ (if k == i && l == j then 1 else bit (word p k) l)
  bits-given_page k l = elim (Bool-cases (k == i)) [
    | inl hit ↦ rw (word-given_page k, hit) (bit-put j l (word p i) ∙ ground arith)
    | inr miss ↦ rw (word-given_page k, miss) refl
  ]

  given_page-Gives : Gives a c p (given_page i j p) i j
  given_page-Gives = record {
    bits = bits-given_page;
    kept = record {
      raw = record {
        sized =
            unfold given_page in (length-set p.bitmap i (bit_or (word p i) (2 ^ j)) ∙ ok.raw.sized);
        small = λ k. ground (
          arith,
          word-given_page k,
          ok.raw.small k,
          bit_or-lt (width a) (word p i) (2 ^ j) (ok.raw.small i)
              (two_pow-lt (width a) j b.in_word),
        );
      };
      typed = unfold given_page in ok.typed;
      padded = λ l h. ground (arith, bits-given_page 0 l, ok.padded l, b.past_skip);
      full = λ e. absurd (unfold given_page in cc e);
    };
    linked = unfold given_page in refl;
    same_lock = unfold given_page in refl;
  }

  give-given_page :
      IsOpen p → ¬ IsMisplaced a c i → give a (offset a c i j) p ≡ some (given_page i j p)
  unfolding give given_page
  give-given_page o placed =
      rw
        (
          o,
          give,
          ok.typed,
          give_word-offset i j a c b placed,
          give_bit-offset i j a c b,
          mod-eq_of_lt (two_pow-lt (width a) j b.in_word),
        )
        (ground arith)

  -- Freeing a block of the page sets its bit and no other, and comes back with the lock free.
  pub give-Gives :
      IsOpen p
      → ¬ IsMisplaced a c i
      → (p' : Page) × (give a (offset a c i j) p ≡ some p') × Gives a c p p' i j
  give-Gives o placed = (given_page i j p, give-given_page o placed, given_page-Gives)
