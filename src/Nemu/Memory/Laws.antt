-- ===== src/Nemu/Memory/Laws.antt =====
-- The physical memory: `paddr_read` and `paddr_write` of
-- Emulator/nemu/src/memory/memory.c.
use projects_demonstration.Base.{
  ℕ, ◌+◌, ◌-◌, ◌*◌, ◌%◌, ◌^◌, ◌≤◌, ◌≡◌, ◌⊎◌, inl, inr, ap, ◌∙◌, true, some, if◌then◌else◌, arith,
}
use projects_demonstration.Nemu.{Machine, ◌>>=◌, ◌>>◌, lift}
use projects_demonstration.Nemu.Memory.{
  load, store, map_inside, find_map, map_read, map_write, load_host, store_host, paddr_read,
  paddr_write,
}
use projects_demonstration.Nemu.Memory.Bytes.{load_stored, load_other}
use projects_demonstration.Nemu.Steps.{after}

-- The address in the host of an address of the physical memory.
abbrev pub host_address : Machine → ℕ → ℕ
host_address m addr = m.pmem_map.space + (addr - m.pmem_map.low)

pub paddr_read_lem :
    (addr len : ℕ) (m : Machine)
    → map_inside m.pmem_map addr ≡ true
    → paddr_read addr len m ≡ some (load m.host (host_address m addr) len, m)
unfolding paddr_read
paddr_read_lem addr len m inside =
    ap
      (λ b.
        (if b
            then load_host (host_address m addr) len
            else (lift (find_map m.mmio_maps addr) >>= map_read addr len))
          m)
      inside

pub paddr_write_lem :
    (addr v len : ℕ) (m : Machine)
    → map_inside m.pmem_map addr ≡ true
    → paddr_write addr v len m
      ≡ some (tt, record m { host = store m.host (host_address m addr) v len })
unfolding paddr_write
paddr_write_lem addr v len m inside =
    ap
      (λ b.
        (if b
            then store_host (host_address m addr) v len
            else (lift (find_map m.mmio_maps addr) >>= map_write addr v len))
          m)
      inside

-- In the physical memory, reading the bytes that were just written gives the value modulo 2 to its
-- bits, and reading bytes at other addresses gives what they held before; the read changes nothing.
pub paddr_write_then_read :
    (addr v len addr' len' : ℕ) (m : Machine)
    → map_inside m.pmem_map addr ≡ true
    → map_inside m.pmem_map addr' ≡ true
    → 1 ≤ len
    → len ≤ 4
    → len' ≤ 4
    → (addr + len ≤ addr') ⊎ (addr' + len' ≤ addr)
    → ((paddr_write addr v len >> paddr_read addr len) m
        ≡ some (v % 2 ^ (8 * len), record m { host = store m.host (host_address m addr) v len }))
      × ((paddr_write addr v len >> paddr_read addr' len') m
          ≡ some (
            load m.host (host_address m addr') len',
            record m { host = store m.host (host_address m addr) v len },
          ))
paddr_write_then_read addr v len addr' len' m inside inside' p q q' o = (
  after (paddr_write addr v len) (paddr_read addr len) m (paddr_write_lem addr v len m inside)
      ∙ paddr_read_lem addr len (written m) inside
      ∙ ap (λ x. some (x, written m)) (load_stored m.host (host_address m addr) v len p q),
  after (paddr_write addr v len) (paddr_read addr' len') m (paddr_write_lem addr v len m inside)
      ∙ paddr_read_lem addr' len' (written m) inside'
      ∙ ap (λ x. some (x, written m))
          (load_other m.host (host_address m addr) v len (host_address m addr') len' (host_apart o)
            q'),
)
  where
    written : Machine → Machine
    written m = record m { host = store m.host (host_address m addr) v len }

    host_apart :
        (addr + len ≤ addr') ⊎ (addr' + len' ≤ addr)
        → (host_address m addr + len ≤ host_address m addr')
          ⊎ (host_address m addr' + len' ≤ host_address m addr)
    host_apart (inl p) = inl (ground arith)
    host_apart (inr p) = inr (ground arith)
