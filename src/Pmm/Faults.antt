-- ===== src/Pmm/Faults.antt =====
-- Requests that pmm.c does not serve: sizes with no case in `init_page`, and the upper half of a
-- page of blocks of 1024 bytes on 32 bits.
use Prim.Native.Nat.{bit_or}
use projects_demonstration.Base.{
  ℕ, ◌^◌, ◌≤◌, ◌<◌, ◌≡◌, ◌⊎◌, inl, inr, refl, ap, ◌∙◌, arith, none, some, set, get_or-set_ne,
  get_or-set_self, false,
}
use native.Mathlib.Nat.{mod-eq_of_lt}
use projects_demonstration.Word.{bit}
use projects_demonstration.Word.Laws.{bit-put, two_pow-lt}
use projects_demonstration.Pmm.Layout.{Arch, bits32, bits64, Undefined, ptr_bytes, up_pow2}
use projects_demonstration.Pmm.Layout.Classes.{c1024}
use projects_demonstration.Pmm.Layout.Pow2.{up_pow2-IsLeast}
use projects_demonstration.Pmm.Page.{Page, word, init_word, init_page, give, give_word}
use projects_demonstration.Pmm.Page.Bitmap.{IsPage, IsBlock, IsFree, IsOpen, offset}
use projects_demonstration.Pmm.Page.Give.{give_bit-offset}

no_case : (a : Arch) (r : ℕ) → (4096 < r) ⊎ (r ≡ 4) → init_word a r ≡ none
unfolding init_word
no_case bits32 r h = ground arith
no_case bits64 r h = ground arith

init_page-bitmap :
    (a : Arch) (p : Page) (r : ℕ) → init_word a r ≡ none → (init_page a p r).bitmap ≡ p.bitmap
unfolding init_page
init_page-bitmap a p r e = rw (e, init_page) refl

-- For a size above 4096 (up to `2 ^ 30`), and on 32 bits for a size up to 4, the page that `kalloc`
-- sets up keeps whatever the memory held as its bitmap.
pub init_page_unserved :
    (u : Undefined) (a : Arch) (size : ℕ) (p : Page)
    → size ≤ 2 ^ 30
    → (4096 < size) ⊎ ((ptr_bytes a ≡ 4) × (size ≤ 4))
    → (init_page a p (up_pow2 u a size)).bitmap ≡ p.bitmap
init_page_unserved u a size p le why =
    let l = up_pow2-IsLeast u a size le in
    init_page-bitmap a p (up_pow2 u a size) (
      no_case a (up_pow2 u a size) (elim why [
        | inl big ↦ inl (omega (arith, l.holds))
        | inr (four, small) ↦ inr (omega (arith, l.pointer, l.least 2 small (omega arith)))
      ]))

-- On 32 bits, freeing block `j` of the second word of a page of 1024-byte blocks marks block `j` of
-- the first word as free, used or not, and leaves the block itself in use.
pub give_misplaced :
    {p : Page} (j : ℕ)
    → IsPage bits32 c1024 p
    → IsOpen p
    → j < 32
    → (p' : Page) × (give bits32 (offset bits32 c1024 1 j) p ≡ some p')
      × IsFree p' 0 j
      × (word p' 1 ≡ word p 1)
give_misplaced {p} j ok o lt = (put, given, freed, kept)
  where
    put : Page
    put = record p { is_full = false; bitmap = set p.bitmap 0 (bit_or (word p 0) (2 ^ j)) }

    b : IsBlock bits32 c1024 1 j
    b = record { in_words = omega arith; in_word = lt; past_skip = omega arith }

    given : give bits32 (offset bits32 c1024 1 j) p ≡ some put
    given =
        unfold give give_word in
        rw
          (o, give, ok.typed, give_bit-offset 1 j bits32 c1024 b, mod-eq_of_lt (two_pow-lt 32 j lt))
          (ground arith)

    freed : IsFree put 0 j
    freed =
        ap (λ (x : ℕ). bit x j)
          (get_or-set_self p.bitmap 0 (bit_or (word p 0) (2 ^ j)) 0 (omega (arith, ok.raw.sized)))
        ∙ bit-put j j (word p 0)
        ∙ ground arith

    kept : word put 1 ≡ word p 1
    kept = get_or-set_ne p.bitmap 0 1 (bit_or (word p 0) (2 ^ j)) 0 (λ e. omega arith)
