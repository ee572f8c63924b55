-- ===== src/Nemu/Paging.antt =====
-- Virtual memory: Emulator/nemu/src/isa/x86/mmu.c.
pub mod Laws
pub mod Parts
pub mod Overwrite
mod Tests
use Prim.Native.Nat.{bit_or}
use projects_demonstration.Base.{
  ℕ, zero, suc, ◌+◌, ◌-◌, ◌*◌, ◌/◌, ◌%◌, ◌^◌, Bool, true, false, not, Option, none, some,
  if◌then◌else◌, ◌==◌,
}
use projects_demonstration.Nemu.{Machine, Run, ◌>>=◌, ◌>>◌, pure, get, assert, fail}
use projects_demonstration.Nemu.Memory.{paddr_read, paddr_write}
use projects_demonstration.Nemu.Rtl.{u32}

-- The page directory's index, the page table's index, the page, the offset in it, and the page that
-- an entry of a table names.
abbrev pub pdx : ℕ → ℕ
pdx va = va / 2 ^ 22 % 2 ^ 10

abbrev pub ptx : ℕ → ℕ
ptx va = va / 2 ^ 12 % 2 ^ 10

abbrev pub pagediff : ℕ → ℕ
pagediff va = va / 2 ^ 12

abbrev pub off : ℕ → ℕ
off va = va % 2 ^ 12

abbrev pub pte_addr : ℕ → ℕ
pte_addr pte = pte - pte % 2 ^ 12

-- The page directory and the page table of the address; both entries must be present.
abbrev pub page_walk : ℕ → Run ℕ
page_walk va = do
  pd_addr ← get (λ m. m.cr3)
  pde ← paddr_read (u32 (pd_addr + pdx va * 4)) 4
  assert (pde % 2 == 1)
  pte ← paddr_read (u32 (pte_addr pde + ptx va * 4)) 4
  assert (pte % 2 == 1)
  pure (bit_or (pte_addr pte) (off va))

unfoldable pub page_translate : ℕ → Run ℕ
page_translate va = do
  paging ← get (λ m. m.cr0 / 2 ^ 31 == 1)
  (if paging then page_walk va else pure va)

-- A read through the page table.
abbrev pub translated_read : (addr len : ℕ) → Run ℕ
translated_read addr len = page_translate addr >>= λ pa. paddr_read pa len

abbrev pub translated_write : (addr value len : ℕ) → Run (Unit {0})
translated_write addr value len = page_translate addr >>= λ pa. paddr_write pa value len

-- The loop over `i`: the first byte whose successor is in another page, or `len - 1`.
abbrev pub crossing : (addr i left : ℕ) → ℕ
crossing addr i zero = i
crossing addr i (suc left) =
    let next = crossing addr (i + 1) left in
    if pagediff (u32 (addr + i)) == pagediff (u32 (addr + i + 1)) then next else i

abbrev pub crosses : (addr len : ℕ) → Bool
crosses addr len = not (pagediff addr == pagediff (u32 (addr + len + 2 ^ 32 - 1)))

-- The accesses from lower to higher addresses; the parts of the value do not overlap.
unfoldable pub read_across : (addr i : ℕ) → Run ℕ
read_across addr zero = do
  fore ← translated_read addr 1
  mid ← translated_read (u32 (addr + 1)) 2
  back ← translated_read (u32 (addr + 3)) 1
  pure (bit_or (bit_or (u32 (back * 2 ^ 24)) (u32 (mid * 2 ^ 8))) fore)
read_across addr (suc zero) = do
  fore ← translated_read addr 2
  back ← translated_read (u32 (addr + 2)) 2
  pure (bit_or (u32 (back * 2 ^ 16)) fore)
read_across addr (suc (suc zero)) = do
  fore ← translated_read addr 2
  mid ← translated_read (u32 (addr + 2)) 1
  back ← translated_read (u32 (addr + 3)) 1
  pure (bit_or (bit_or (u32 (back * 2 ^ 24)) (u32 (mid * 2 ^ 16))) fore)
read_across addr (suc (suc (suc i))) = fail

unfoldable pub isa_vaddr_read : (addr len : ℕ) → Run ℕ
isa_vaddr_read addr len =
    if crosses addr len
    then (assert (len == 4) >> read_across addr (crossing addr 0 (len - 1)))
    else translated_read addr len

-- After the two halves the code goes on to the write of the whole value.
abbrev pub write_across : (addr value len : ℕ) → Run (Unit {0})
write_across addr value len = do
  assert (crossing addr 0 (len - 1) == 1)
  assert (len == 4)
  translated_write addr (value % 2 ^ 16) 2
  translated_write (u32 (addr + 2)) (value / 2 ^ 16) 2
  translated_write addr value len

unfoldable pub isa_vaddr_write : (addr value len : ℕ) → Run (Unit {0})
isa_vaddr_write addr value len =
    if crosses addr len then write_across addr value len else translated_write addr value len
