-- ===== src/Nemu/Paging/Overwrite.antt =====
-- A write of four bytes across the end of a page: `isa_vaddr_write` of
-- Emulator/nemu/src/isa/x86/mmu.c.
use projects_demonstration.Base.{
  ℕ, ◌+◌, ◌/◌, ◌%◌, ◌^◌, ◌≤◌, ◌≡◌, ap, ◌∙◌, true, some, ◌==◌, if◌then◌else◌, arith,
}
use projects_demonstration.Nemu.{Machine, Run, ◌>>◌, assert}
use projects_demonstration.Nemu.Memory.{load, store, map_inside}
use projects_demonstration.Nemu.Memory.Bytes.{load_upper}
use projects_demonstration.Nemu.Memory.Laws.{host_address, paddr_write_lem}
use projects_demonstration.Nemu.Paging.{
  page_translate, translated_write, crossing, crosses, write_across, isa_vaddr_write,
}
use projects_demonstration.Nemu.Rtl.{u32}
use projects_demonstration.Nemu.Steps.{after, after_bind}

-- The machine with some bytes of the value stored at a physical address.
abbrev pub stored : (pa v len : ℕ) → Machine → Machine
stored pa v len m = record m { host = store m.host (host_address m pa) v len }

translated_write_lem :
    (a pa v len : ℕ) (m : Machine)
    → page_translate a m ≡ some (pa, m)
    → map_inside m.pmem_map pa ≡ true
    → translated_write a v len m ≡ some (tt, stored pa v len m)
translated_write_lem a pa v len m e inside =
    after_bind (page_translate a) _ m e ∙ paddr_write_lem pa v len m inside

middle : (addr : ℕ) → addr % 4096 ≡ 4094 → addr + 4 ≤ 2 ^ 32 → (crossing addr 0 3 == 1) ≡ true
middle addr e le = ground arith

middle_crosses : (addr : ℕ) → addr % 4096 ≡ 4094 → addr + 4 ≤ 2 ^ 32 → crosses addr 4 ≡ true
middle_crosses addr e le = ground arith

-- Writing four bytes of which two are in one page and two in the next puts the halves at the physical
-- addresses of the two pages, and then the whole value again at the first address: the two bytes
-- behind the first frame, which belong to another frame, get the upper half of the value.
pub crossing_write :
    (addr pa pb v : ℕ) (m : Machine)
    → addr % 4096 ≡ 4094
    → addr + 4 ≤ 2 ^ 32
    → page_translate addr m ≡ some (pa, m)
    → page_translate (u32 (addr + 2)) (stored pa (v % 2 ^ 16) 2 m)
      ≡ some (pb, stored pa (v % 2 ^ 16) 2 m)
    → page_translate addr (stored pb (v / 2 ^ 16) 2 (stored pa (v % 2 ^ 16) 2 m))
      ≡ some (pa, stored pb (v / 2 ^ 16) 2 (stored pa (v % 2 ^ 16) 2 m))
    → map_inside m.pmem_map pa ≡ true
    → map_inside m.pmem_map pb ≡ true
    → (isa_vaddr_write addr v 4 m
        ≡ some (tt, stored pa v 4 (stored pb (v / 2 ^ 16) 2 (stored pa (v % 2 ^ 16) 2 m))))
      × (load
            (stored pa v 4 (stored pb (v / 2 ^ 16) 2 (stored pa (v % 2 ^ 16) 2 m))).host
            (host_address m pa + 2)
            2
          ≡ v / 2 ^ 16 % 2 ^ 16)
unfolding isa_vaddr_write
crossing_write addr pa pb v m e le ta tb ta' ia ib = (
  ap (λ b. (if b then write_across addr v 4 else translated_write addr v 4) m)
        (middle_crosses addr e le)
      ∙ ap (λ b. (assert b >> (assert (4 == 4) >> writes)) m) (middle addr e le)
      ∙ after (translated_write addr (v % 2 ^ 16) 2) _ m
          (translated_write_lem addr pa (v % 2 ^ 16) 2 m ta ia)
      ∙ after (translated_write (u32 (addr + 2)) (v / 2 ^ 16) 2) _ (stored pa (v % 2 ^ 16) 2 m) (
          translated_write_lem (u32 (addr + 2)) pb (v / 2 ^ 16) 2 (stored pa (v % 2 ^ 16) 2 m) tb
            ib)
      ∙ translated_write_lem addr pa v 4 (stored pb (v / 2 ^ 16) 2 (stored pa (v % 2 ^ 16) 2 m)) ta'
          ia,
  load_upper (stored pb (v / 2 ^ 16) 2 (stored pa (v % 2 ^ 16) 2 m)).host (host_address m pa) v,
)
  where
    writes : Run (Unit {0})
    writes =
        translated_write addr (v % 2 ^ 16) 2
        >> (translated_write (u32 (addr + 2)) (v / 2 ^ 16) 2 >> translated_write addr v 4)
