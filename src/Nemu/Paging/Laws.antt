-- ===== src/Nemu/Paging/Laws.antt =====
-- Reads and writes with paging off: Emulator/nemu/src/isa/x86/mmu.c.
use projects_demonstration.Base.{
  ℕ, zero, suc, ◌+◌, ◌-◌, ◌/◌, ◌%◌, ◌^◌, ◌<◌, ◌≤◌, ◌≡◌, ◌⊎◌, inl, inr, ap, ◌∙◌, Bool, true, false,
  none, some, if◌then◌else◌, ◌==◌, arith, refl,
}
use projects_demonstration.Nemu.{Machine, Run, ◌>>◌, pure, assert}
use projects_demonstration.Nemu.Memory.{load, store, map_inside}
use projects_demonstration.Nemu.Memory.Laws.{host_address, paddr_read_lem, paddr_write_lem}
use projects_demonstration.Nemu.Paging.{
  page_translate, page_walk, translated_read, crossing, crosses, read_across, write_across,
  isa_vaddr_read, isa_vaddr_write, translated_write,
}
use projects_demonstration.Nemu.Paging.Parts.{IsBytes, join_two, join_zero, join_three}
use projects_demonstration.Nemu.Rtl.{u32}
use projects_demonstration.Nemu.Steps.{after_bind, fails}

-- Paging is off.
abbrev pub IsFlat : Machine → Type 0
IsFlat m = m.cr0 < 2 ^ 31

-- The bytes are in the physical memory and below 2 ^ 32.
pub record InMemory (m : Machine) (addr len : ℕ) : Type 0 where
  pub low-le : m.pmem_map.low ≤ addr
  pub le-high : addr + len ≤ m.pmem_map.high + 1
  pub le-space : addr + len ≤ 2 ^ 32

pub translate_flat : (va : ℕ) (m : Machine) → IsFlat m → page_translate va m ≡ some (va, m)
unfolding page_translate
translate_flat va m flat = ap (λ b. (if b then page_walk va else pure va) m) off
  where
    off : (m.cr0 / 2 ^ 31 == 1) ≡ false
    off = ground arith

inside_of :
    (m : Machine) (addr len i : ℕ)
    → InMemory m addr len
    → i < len
    → map_inside m.pmem_map (addr + i) ≡ true
inside_of m addr len i h lt = ground arith

inside_first :
    (m : Machine) (addr len : ℕ) → InMemory m addr len → 0 < len → map_inside m.pmem_map addr ≡ true
inside_first m addr len h lt = ground arith

same_page : (addr : ℕ) → addr % 4096 ≤ 4092 → addr + 4 ≤ 2 ^ 32 → crosses addr 4 ≡ false
same_page addr p q = ground arith

across : (addr : ℕ) → 4093 ≤ addr % 4096 → addr + 4 ≤ 2 ^ 32 → crosses addr 4 ≡ true
across addr p q = ground arith

crossing_at :
    (addr i : ℕ) → addr % 4096 + i ≡ 4095 → i < 3 → addr + 4 ≤ 2 ^ 32 → crossing addr 0 3 ≡ i
crossing_at addr i e lt q = ground arith

flat_access :
    (addr len : ℕ) (m : Machine)
    → IsFlat m
    → map_inside m.pmem_map addr ≡ true
    → translated_read addr len m ≡ some (load m.host (host_address m addr) len, m)
flat_access addr len m flat inside =
    after_bind (page_translate addr) _ m (translate_flat addr m flat)
    ∙ paddr_read_lem addr len m inside

piece :
    (addr i len : ℕ) (m : Machine)
    → IsFlat m
    → InMemory m addr 4
    → i < 4
    → translated_read (u32 (addr + i)) len m ≡ some (load m.host (host_address m addr + i) len, m)
piece addr i len m flat h lt =
    ap (λ a. translated_read a len m) no_wrap
    ∙ flat_access (addr + i) len m flat (inside_of m addr 4 i h lt)
    ∙ ap (λ a. some (load m.host a len, m)) host_place
  where
    no_wrap : u32 (addr + i) ≡ addr + i
    no_wrap = ground arith

    host_place : host_address m (addr + i) ≡ host_address m addr + i
    host_place = ground arith

across_flat :
    (addr i : ℕ) (m : Machine)
    → IsFlat m
    → IsBytes m.host
    → InMemory m addr 4
    → i < 3
    → read_across addr i m ≡ some (load m.host (host_address m addr) 4, m)
unfolding read_across
across_flat addr zero m flat bytes h lt =
    after_bind (translated_read addr 1) _ m
      (flat_access addr 1 m flat (inside_first m addr 4 h (omega arith)))
    ∙ after_bind (translated_read (u32 (addr + 1)) 2) _ m (piece addr 1 2 m flat h (omega arith))
    ∙ after_bind (translated_read (u32 (addr + 3)) 1) _ m (piece addr 3 1 m flat h (omega arith))
    ∙ ap (λ x. some (x, m)) (join_zero m.host (host_address m addr) bytes)
across_flat addr (suc zero) m flat bytes h lt =
    after_bind (translated_read addr 2) _ m
      (flat_access addr 2 m flat (inside_first m addr 4 h (omega arith)))
    ∙ after_bind (translated_read (u32 (addr + 2)) 2) _ m (piece addr 2 2 m flat h (omega arith))
    ∙ ap (λ x. some (x, m)) (join_two m.host (host_address m addr) bytes)
across_flat addr (suc (suc zero)) m flat bytes h lt =
    after_bind (translated_read addr 2) _ m
      (flat_access addr 2 m flat (inside_first m addr 4 h (omega arith)))
    ∙ after_bind (translated_read (u32 (addr + 2)) 1) _ m (piece addr 2 1 m flat h (omega arith))
    ∙ after_bind (translated_read (u32 (addr + 3)) 1) _ m (piece addr 3 1 m flat h (omega arith))
    ∙ ap (λ x. some (x, m)) (join_three m.host (host_address m addr) bytes)
across_flat addr (suc (suc (suc i))) m flat bytes h lt = absurd (omega arith)

abbrev read_long : Bool → ℕ → ℕ → Run ℕ
read_long crossed i addr =
    if crossed then (assert (4 == 4) >> read_across addr i) else translated_read addr 4

-- With paging off, a read of four bytes of the physical memory gives its four bytes, also where the code
-- splits it because it crosses into another page.
pub flat_read :
    (addr : ℕ) (m : Machine)
    → IsFlat m
    → IsBytes m.host
    → InMemory m addr 4
    → isa_vaddr_read addr 4 m ≡ some (load m.host (host_address m addr) 4, m)
unfolding isa_vaddr_read
flat_read addr m flat bytes h = elim (page_end (addr % 4096) (omega arith)) [
  | inl le ↦
      ap (λ b. read_long b (crossing addr 0 3) addr m) (same_page addr le h.le-space)
      ∙ flat_access addr 4 m flat (inside_first m addr 4 h (omega arith))
  | inr (i, e, lt) ↦
      ap (λ b. read_long b (crossing addr 0 3) addr m) (across addr (omega arith) h.le-space)
      ∙ ap (λ i. read_across addr i m) (crossing_at addr i e lt h.le-space)
      ∙ across_flat addr i m flat bytes h lt
]
  where
    at_most_or_more : (a b : ℕ) → (a ≤ b) ⊎ (b < a)
    at_most_or_more a b = ground arith

    page_end : (o : ℕ) → o < 4096 → (o ≤ 4092) ⊎ ((i : ℕ) × (o + i ≡ 4095) × (i < 3))
    page_end o lt = elim (at_most_or_more o 4092) [
      | inl le ↦ inl le
      | inr gt ↦ inr (4095 - o, omega arith, omega arith)
    ]

-- A write of any length that crosses a page at another place than after two bytes fails.
misplaced_write :
    (addr value len i : ℕ) (m : Machine)
    → crosses addr len ≡ true
    → crossing addr 0 (len - 1) ≡ i
    → (i == 1) ≡ false
    → isa_vaddr_write addr value len m ≡ none
unfolding isa_vaddr_write
misplaced_write addr value len i m c at e =
    ap (λ b. (if b then write_across addr value len else translated_write addr value len) m) c
    ∙ fails (assert (crossing addr 0 (len - 1) == 1)) _ m
        (ap (λ j. assert (j == 1) m) at ∙ ap (λ b. assert b m) e)

-- A read or write of two bytes fails that begins at the last byte of a page, and a write of four bytes
-- that begins three bytes or one byte before the end of a page.
pub crossing_fails :
    (addr quad value : ℕ) (m : Machine)
    → addr % 4096 ≡ 4095
    → addr + 2 ≤ 2 ^ 32
    → (quad % 4096 ≡ 4093) ⊎ (quad % 4096 ≡ 4095)
    → quad + 4 ≤ 2 ^ 32
    → (isa_vaddr_read addr 2 m ≡ none)
      × (isa_vaddr_write addr value 2 m ≡ none)
      × (isa_vaddr_write quad value 4 m ≡ none)
unfolding isa_vaddr_read
crossing_fails addr quad value m e le e4 le4 = (
  ap
      (λ b.
        (if b
            then (assert (2 == 4) >> read_across addr (crossing addr 0 1))
            else translated_read addr 2)
          m)
      crossed,
  misplaced_write addr value 2 0 m crossed first refl,
  elim e4 [
    | inl p ↦
        misplaced_write quad value 4 2 m (across quad (omega arith) le4)
          (crossing_at quad 2 (omega arith) (omega arith) le4) refl
    | inr p ↦
        misplaced_write quad value 4 0 m (across quad (omega arith) le4)
          (crossing_at quad 0 (omega arith) (omega arith) le4) refl
  ],
)
  where
    crossed : crosses addr 2 ≡ true
    crossed = ground arith

    first : crossing addr 0 1 ≡ 0
    first = ground arith

in_page :
    (addr len : ℕ)
    → 1 ≤ len
    → addr % 4096 + len ≤ 4096
    → addr + len ≤ 2 ^ 32
    → crosses addr len ≡ false
in_page addr len pos fits le = ground arith

pub in_page_read :
    (addr len : ℕ) (m : Machine)
    → IsFlat m
    → 1 ≤ len
    → addr % 4096 + len ≤ 4096
    → InMemory m addr len
    → isa_vaddr_read addr len m ≡ some (load m.host (host_address m addr) len, m)
unfolding isa_vaddr_read
in_page_read addr len m flat pos fits h =
    ap
      (λ b.
        (if b
            then (assert (len == 4) >> read_across addr (crossing addr 0 (len - 1)))
            else translated_read addr len)
          m)
      (in_page addr len pos fits h.le-space)
    ∙ flat_access addr len m flat (inside_first m addr len h pos)

-- With paging off, a write within one page of the physical memory stores the bytes of the value.
pub in_page_write :
    (addr v len : ℕ) (m : Machine)
    → IsFlat m
    → 1 ≤ len
    → addr % 4096 + len ≤ 4096
    → InMemory m addr len
    → isa_vaddr_write addr v len m
      ≡ some (tt, record m { host = store m.host (host_address m addr) v len })
unfolding isa_vaddr_write
in_page_write addr v len m flat pos fits h =
    ap (λ b. (if b then write_across addr v len else translated_write addr v len) m)
      (in_page addr len pos fits h.le-space)
    ∙ after_bind (page_translate addr) _ m (translate_flat addr m flat)
    ∙ paddr_write_lem addr v len m (inside_first m addr len h pos)
