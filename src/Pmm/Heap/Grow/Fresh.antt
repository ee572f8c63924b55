-- ===== src/Pmm/Heap/Grow/Fresh.antt =====
-- The new page of `kalloc_unsafe`, with its first block taken.
use projects_demonstration.Base.{ℕ, ◌*◌, ◌<◌, ◌≡◌, refl, arith, set}
use projects_demonstration.Word.{ctz}
use projects_demonstration.Word.Laws.{pos_of_bit}
use projects_demonstration.Pmm.Layout.{Arch, Undefined, width}
use projects_demonstration.Pmm.Layout.Classes.{Class, bytes, skip, class-Fits}
use projects_demonstration.Pmm.Page.{Page, word, loc, init_page, clear_lowest}
use projects_demonstration.Pmm.Page.Bitmap.{
  IsRaw, IsPage, IsBlock, IsOpen, offset, loc-ctz, padded_word,
}
use projects_demonstration.Pmm.Page.Init.{init_page-IsPage, init_page-IsFree, init_page-IsOpen}
use projects_demonstration.Pmm.Page.Take.{Takes, taken_page, taken_page-Takes}

module _ (u : Undefined) (a : Arch) (c : Class) {raw_page : Page} (raw : IsRaw a raw_page) where
  abbrev pub page : Page
  page = init_page a raw_page (bytes c)

  abbrev pub fresh_page : Page
  fresh_page = record page { bitmap = set page.bitmap 0 (clear_lowest a (word page 0)) }

  abbrev first_bit : ℕ
  first_bit = ctz (width a) (word page 0)

  first-IsBlock : IsBlock a c 0 (skip a c)
  first-IsBlock = record {
    in_words = (class-Fits a c).nonempty;
    in_word = (class-Fits a c).skips;
    past_skip = omega arith;
  }

  word_pos : 0 < word page 0
  word_pos = pos_of_bit (word page 0) (skip a c) (init_page-IsFree c raw 0 (skip a c) first-IsBlock)

  ok : IsPage a c page
  ok = init_page-IsPage c raw

  as_taken : Takes a c page (taken_page u a c 0 page) 0 first_bit
  as_taken =
      taken_page-Takes u a c ok 0 (class-Fits a c).nonempty word_pos
        (λ k l lt. absurd (omega arith))

  -- The new page is the initialised one with its first free block taken.
  pub fresh_page-Takes : Takes a c page fresh_page 0 first_bit
  fresh_page-Takes = record {
    block = as_taken.block;
    was_free = as_taken.was_free;
    first = as_taken.first;
    bits = as_taken.bits;
    kept = record {
      raw = record { sized = as_taken.kept.raw.sized; small = as_taken.kept.raw.small };
      typed = ok.typed;
      padded = as_taken.kept.padded;
      full = λ e. absurd (unfold init_page in cc e);
    };
    linked = refl;
    same_lock = refl;
    same_type = refl;
  }

  pub fresh_page-IsOpen : IsOpen fresh_page × (fresh_page.page_list ≡ 0)
  fresh_page-IsOpen = init_page-IsOpen c raw

  -- The address that `kalloc_unsafe` returns.
  pub fresh_offset : loc u a (word page 0) (bytes c) * bytes c ≡ offset a c 0 first_bit
  fresh_offset =
      rw
        (loc-ctz u a c (word page 0) (λ j. padded_word ok 0 j (class-Fits a c).nonempty) word_pos
          (ok.raw.small 0))
        (grind arith)
