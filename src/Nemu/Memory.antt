-- ===== src/Nemu/Memory.antt =====
-- Physical memory and device maps: Emulator/nemu/src/memory/memory.c, Emulator/nemu/src/device/io/map.c,
-- mmio.c and port-io.c there, and Emulator/nemu/include/device/map.h. A byte of the host is a number below 256; an
-- access past the end of a space reads or writes what follows it in the host.
pub mod Bytes
pub mod Laws
mod Tests
use projects_demonstration.Base.{
  ℕ, zero, suc, ◌+◌, ◌-◌, ◌*◌, ◌/◌, ◌%◌, ◌^◌, Bool, true, false, ◌&&◌, Option, none, some, List, [],
  ◌∷◌, ◌++◌, if◌then◌else◌, ltb, leb, update, length,
}
use projects_demonstration.Nemu.{
  IoMap, Machine, Run, ◌>>=◌, ◌>>◌, pure, get, modify, lift, assert, fail,
}

-- `*(uint32_t *)a & (~0u >> ((4 - len) << 3))`
abbrev pub load : (ℕ → ℕ) → (a len : ℕ) → ℕ
load h a len = (h a + 2 ^ 8 * h (a + 1) + 2 ^ 16 * h (a + 2) + 2 ^ 24 * h (a + 3)) % 2 ^ (8 * len)

-- `memcpy(a, &data, len)`
abbrev pub store : (ℕ → ℕ) → (a value len : ℕ) → ℕ → ℕ
store h a value zero = h
store h a value (suc len) = store (update h a (value % 256)) (a + 1) (value / 256) len

abbrev pub map_inside : IoMap → ℕ → Bool
map_inside map addr = leb map.low addr && leb addr map.high

-- The first map that the address is in; the code returns its index, or -1.
abbrev pub find_map : List IoMap → ℕ → Option IoMap
find_map [] addr = none
find_map (map ∷ maps) addr = if map_inside map addr then some map else find_map maps addr

abbrev pub invoke_callback : IoMap → (offset len : ℕ) → Bool → Run (Unit {0})
invoke_callback map offset len is_write = elim map.callback [
  | none ↦ pure tt
  | some c ↦ modify (λ m. record m { host = c offset len is_write m.host })
]

abbrev pub load_host : (a len : ℕ) → Run ℕ
load_host a len = get (λ m. load m.host a len)

abbrev pub store_host : (a value len : ℕ) → Run (Unit {0})
store_host a value len = modify (λ m. record m { host = store m.host a value len })

unfoldable pub map_read : (addr len : ℕ) → IoMap → Run ℕ
map_read addr len map = do
  assert (leb 1 len && leb len 4)
  assert (map_inside map addr)
  invoke_callback map (addr - map.low) len false
  load_host (map.space + (addr - map.low)) len

unfoldable pub map_write : (addr value len : ℕ) → IoMap → Run (Unit {0})
map_write addr value len map = do
  assert (leb 1 len && leb len 4)
  assert (map_inside map addr)
  store_host (map.space + (addr - map.low)) value len
  invoke_callback map (addr - map.low) len true

-- A map with a callback or without, in `high` the last address of its `len` bytes.
abbrev pub new_map : (addr space len : ℕ) → Option (ℕ → ℕ → Bool → (ℕ → ℕ) → ℕ → ℕ) → IoMap
new_map addr space len callback = record {
  low = addr;
  high = (addr + len + 2 ^ 32 - 1) % 2 ^ 32;
  space = space;
  callback = callback;
}

-- The tables have room for 8 maps each.
abbrev pub nr_map : ℕ
nr_map = 8

unfoldable pub add_mmio_map :
    (addr space len : ℕ) → Option (ℕ → ℕ → Bool → (ℕ → ℕ) → ℕ → ℕ) → Run (Unit {0})
add_mmio_map addr space len callback = do
  maps ← get (λ m. m.mmio_maps)
  assert (ltb (length maps) nr_map)
  modify (λ m. record m { mmio_maps = maps ++ (new_map addr space len callback ∷ []) })

abbrev pub fetch_mmio_map : ℕ → Run (Option IoMap)
fetch_mmio_map addr = get (λ m. find_map m.mmio_maps addr)

abbrev pub port_io_space_max : ℕ
port_io_space_max = 65535

unfoldable pub add_pio_map :
    (addr space len : ℕ) → Option (ℕ → ℕ → Bool → (ℕ → ℕ) → ℕ → ℕ) → Run (Unit {0})
add_pio_map addr space len callback = do
  maps ← get (λ m. m.pio_maps)
  assert (ltb (length maps) nr_map)
  assert (leb (addr + len) port_io_space_max)
  modify (λ m. record m { pio_maps = maps ++ (new_map addr space len callback ∷ []) })

-- A port is a number of 16 bits.
unfoldable pub pio_read_common : (addr len : ℕ) → Run ℕ
unfolding map_read
pio_read_common addr len = do
  assert (ltb (addr + len - 1) port_io_space_max)
  maps ← get (λ m. m.pio_maps)
  map ← lift (find_map maps addr)
  map_read addr len map

unfoldable pub pio_write_common : (addr value len : ℕ) → Run (Unit {0})
unfolding map_write
pio_write_common addr value len = do
  assert (ltb (addr + len - 1) port_io_space_max)
  maps ← get (λ m. m.pio_maps)
  map ← lift (find_map maps addr)
  map_write addr value len map

abbrev pub pio_read_l : ℕ → Run ℕ
pio_read_l addr = pio_read_common (addr % 2 ^ 16) 4

abbrev pub pio_read_w : ℕ → Run ℕ
pio_read_w addr = pio_read_common (addr % 2 ^ 16) 2

abbrev pub pio_read_b : ℕ → Run ℕ
pio_read_b addr = pio_read_common (addr % 2 ^ 16) 1

abbrev pub pio_write_l : (addr value : ℕ) → Run (Unit {0})
pio_write_l addr value = pio_write_common (addr % 2 ^ 16) value 4

abbrev pub pio_write_w : (addr value : ℕ) → Run (Unit {0})
pio_write_w addr value = pio_write_common (addr % 2 ^ 16) value 2

abbrev pub pio_write_b : (addr value : ℕ) → Run (Unit {0})
pio_write_b addr value = pio_write_common (addr % 2 ^ 16) value 1

-- `PMEM_SIZE`
abbrev pub pmem_size : ℕ
pmem_size = 128 * 1024 * 1024

unfoldable pub register_pmem : ℕ → Run (Unit {0})
register_pmem base =
    let high = (base + pmem_size + 2 ^ 32 - 1) % 2 ^ 32 in
    modify (λ m. record m { pmem_map = record m.pmem_map { low = base; high = high } })

-- An address in no map at all fails the check of its bounds.
unfoldable pub paddr_read : (addr len : ℕ) → Run ℕ
unfolding map_read
paddr_read addr len = do
  pmem ← get (λ m. m.pmem_map)
  maps ← get (λ m. m.mmio_maps)
  (if map_inside pmem addr
      then load_host (pmem.space + (addr - pmem.low)) len
      else (lift (find_map maps addr) >>= map_read addr len))

unfoldable pub paddr_write : (addr value len : ℕ) → Run (Unit {0})
unfolding map_write
paddr_write addr value len = do
  pmem ← get (λ m. m.pmem_map)
  maps ← get (λ m. m.mmio_maps)
  (if map_inside pmem addr
      then store_host (pmem.space + (addr - pmem.low)) value len
      else (lift (find_map maps addr) >>= map_write addr value len))
