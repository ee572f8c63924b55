-- ===== src/Nemu/Paging/Tests.antt =====
-- The theorems of Paging at concrete machines.
use projects_demonstration.Base.{inl, ℕ, ◌%◌, ◌≡◌, refl, none, some, [], update, arith}
use projects_demonstration.Nemu.{Machine}
use projects_demonstration.Nemu.Example.{machine_with}
use projects_demonstration.Nemu.Memory.{load, paddr_read}
use projects_demonstration.Nemu.Paging.{page_translate, isa_vaddr_read, isa_vaddr_write}
use projects_demonstration.Nemu.Paging.Laws.{flat_read, crossing_fails}
use projects_demonstration.Nemu.Paging.Overwrite.{stored, crossing_write}
use projects_demonstration.Nemu.Paging.Parts.{IsBytes}

-- Every byte of memory is the lowest byte of its address.
abbrev counting : Machine
counting = record (machine_with []) { host = λ a. a % 256 }

counting-IsBytes : IsBytes counting.host
unfolding IsBytes
counting-IsBytes i = omega arith

flat_read_example : isa_vaddr_read 0x1ffe 4 counting ≡ some (0x100fffe, counting)
flat_read_example =
    flat_read 0x1ffe counting (omega arith) counting-IsBytes
      (record { low-le = omega arith; le-high = omega arith; le-space = omega arith })

crossing_fails_example :
    (isa_vaddr_read 0x1fff 2 counting ≡ none)
    × (isa_vaddr_write 0x1fff 7 2 counting ≡ none)
    × (isa_vaddr_write 0x1ffd 7 4 counting ≡ none)
crossing_fails_example =
    crossing_fails 0x1fff 0x1ffd 7 counting refl (omega arith) (inl refl) (omega arith)

-- Paging maps the first page to 0x5000 and the second to 0x9000.
abbrev tables : ℕ → ℕ
tables =
    update
      (update (update (update (update (update (λ a. 0) 0x1000 1) 0x1001 0x20) 0x2000 1) 0x2001 0x50)
        0x2004 1)
      0x2005 0x90

abbrev paged : Machine
paged = record (machine_with []) { host = tables; cr0 = 0x80000000; cr3 = 0x1000 }

abbrev halves_stored : Machine
halves_stored = stored 0x9000 0x1234 2 (stored 0x5ffe 0x5678 2 paged)

crossing_write_example :
    (isa_vaddr_write 0xffe 0x12345678 4 paged ≡ some (tt, stored 0x5ffe 0x12345678 4 halves_stored))
    × (load (stored 0x5ffe 0x12345678 4 halves_stored).host 0x6000 2 ≡ 0x1234)
unfolding page_translate paddr_read
crossing_write_example =
    crossing_write 0xffe 0x5ffe 0x9000 0x12345678 paged refl (omega arith) refl refl refl refl refl
