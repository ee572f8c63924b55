-- ===== src/Pmm/Tests/Faults.antt =====
-- The theorems of Faults at concrete pages.
use projects_demonstration.Base.{◌≡◌, inl, refl, arith, some, replicate}
use projects_demonstration.Pmm.Layout.{bits32, bits64, up_pow2}
use projects_demonstration.Pmm.Layout.Classes.{c1024}
use projects_demonstration.Pmm.Page.{Page, init_page, give, word}
use projects_demonstration.Pmm.Page.Bitmap.{IsRaw, IsFree, offset}
use projects_demonstration.Pmm.Page.Init.{init_page-IsPage, init_page-IsOpen}
use projects_demonstration.Pmm.Faults.{init_page_unserved, give_misplaced}
use projects_demonstration.Pmm.Tests.{machine, zero_page, all_zero}

init_page_unserved_example :
    (init_page bits64 zero_page (up_pow2 machine bits64 5000)).bitmap ≡ replicate 128 0
init_page_unserved_example =
    init_page_unserved machine bits64 5000 zero_page (omega arith) (inl (omega arith))

-- A fresh page of blocks of 1024 bytes, on 32 bits.
abbrev blank : Page
blank = record zero_page { bitmap = replicate 512 0 }

blank-IsRaw : IsRaw bits32 blank
blank-IsRaw = record { sized = refl; small = λ i. omega (arith, all_zero 512 i) }

give_misplaced_example :
    (p' : Page) × (give bits32 (offset bits32 c1024 1 3) (init_page bits32 blank 1024) ≡ some p')
    × IsFree p' 0 3
    × (word p' 1 ≡ word (init_page bits32 blank 1024) 1)
give_misplaced_example =
    give_misplaced 3 (init_page-IsPage c1024 blank-IsRaw) (init_page-IsOpen c1024 blank-IsRaw).0
      (omega arith)
