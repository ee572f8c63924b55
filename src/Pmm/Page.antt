-- ===== src/Pmm/Page.antt =====
-- A page of OSkernel/kernel/src/pmm.c: `page_t`, `init_page`, `loc`, the body of the search loop
-- of `kalloc_unsafe` and the switch of `kfree_unsafe`.
pub mod Bitmap
pub mod Init
pub mod Take
pub mod Give
use Prim.Native.Nat.{bit_and, bit_or}
use projects_demonstration.Base.{
  ℕ, zero, suc, ◌+◌, ◌-◌, ◌*◌, ◌/◌, ◌%◌, ◌^◌, Bool, true, false, ◌&&◌, ◌||◌, not, Option, none,
  some, List, if◌then◌else◌, ◌==◌, get_or, set, replicate,
}
use projects_demonstration.Word.{ctz, complement, mask}
use projects_demonstration.Pmm.Layout.{
  Arch, bits32, bits64, Undefined, ptr_bytes, width, num_bitmap, hdr_size,
}

-- `unsafe_spinlock_t`; a `cpu_id` of -1 is `none`.
pub record Spinlock : Type 0 where
  pub locked : ℕ
  pub cpu_id : Option ℕ

-- `unsafe_init_lock`
abbrev pub init_lock : Spinlock
init_lock = record { locked = 0; cpu_id = none }

-- The header of a page; `page_list` is an address, 0 for NULL.
pub record Page : Type 0 where
  pub page_list : ℕ
  pub is_full : Bool
  pub lock : Spinlock
  pub type : ℕ
  pub bitmap : List ℕ

abbrev pub word : Page → ℕ → ℕ
word p i = get_or p.bitmap i 0

-- `__builtin_ctzl`, or `__builtin_ctz` on 32 bits.
unfoldable pub builtin_ctz : Undefined → Arch → ℕ → ℕ
builtin_ctz u a x = if x == 0 then u.ctz_zero else ctz (width a) x

-- `loc`; the subtraction wraps.
unfoldable pub loc : Undefined → Arch → ℕ → ℕ → ℕ
unfolding builtin_ctz
loc u bits64 map type =
    if type == 4096
    then (builtin_ctz u bits64 map + 2 ^ 64 - 48) % 2 ^ 64
    else if type == 2048
    then (builtin_ctz u bits64 map + 2 ^ 64 - 32) % 2 ^ 64
    else builtin_ctz u bits64 map
loc u bits32 map type =
    if type == 4096
    then (builtin_ctz u bits32 map + 2 ^ 32 - 16) % 2 ^ 32
    else builtin_ctz u bits32 map

-- What `init_page` stores into the words of the bitmap, if the type is one of its cases. The case
-- of 4 stands under `#if __SIZEOF_POINER__==4`, a macro that is never defined.
unfoldable pub init_word : Arch → ℕ → Option ℕ
init_word bits64 type =
    if type == 4096
    then some 0xffff000000000000
    else if type == 2048
    then some 0xffffffff00000000
    else if type == 8
        || type == 16
        || type == 32
        || type == 64
        || type == 128
        || type == 256
        || type == 512
        || type == 1024
    then some 0xffffffffffffffff
    else none
init_word bits32 type =
    if type == 4096
    then some 0xffff0000
    else if type == 8
        || type == 16
        || type == 32
        || type == 64
        || type == 128
        || type == 256
        || type == 512
        || type == 1024
        || type == 2048
    then some 0xffffffff
    else none

-- `for (i = 0; i < n; i++) bitmap[i] = v`, with `left` rounds to go.
unfoldable pub fill : ℕ → ℕ → ℕ → List ℕ → List ℕ
fill zero i v xs = xs
fill (suc left) i v xs = fill left (i + 1) v (set xs i v)

-- `init_page`, over a page whose memory holds anything.
unfoldable pub init_page : Arch → Page → ℕ → Page
unfolding init_word fill
init_page a page type = record {
  page_list = 0;
  is_full = false;
  lock = init_lock;
  type = type;
  bitmap = elim (init_word a type) [
    | none ↦ page.bitmap
    | some v ↦ fill (num_bitmap a type) 0 v page.bitmap
  ];
}

-- The position of the last block, as the switch on `size` has it.
unfoldable pub last_loc : Arch → ℕ → ℕ
last_loc bits64 size = if size == 4096 then 63 - 48 else if size == 2048 then 63 - 32 else 63
last_loc bits32 size = if size == 4096 then 31 - 16 else 31

-- `bitmap[i] &= ~(MASK(bitmap[i]))`
unfoldable pub clear_lowest : Arch → ℕ → ℕ
clear_lowest a x = bit_and x (complement (width a) (mask (width a) x))

-- The loop over the words, at word `i` with `left` rounds to go: the offset of the block from the
-- start of the data, and the page.
unfoldable pub scan : Undefined → Arch → ℕ → ℕ → ℕ → Page → Option ℕ × Page
unfolding clear_lowest loc last_loc
scan u a size zero i page = (none, page)
scan u a size (suc left) i page =
    let rest = scan u a size left (i + 1) page in
    let x = word page i in
    let x' = clear_lowest a x in
    if mask (width a) x == 0 then rest else (
      some (loc u a x size * size + i * ptr_bytes a * 8 * size),
      record page {
        is_full =
            if i == num_bitmap a size - 1
            then (if loc u a x' size == last_loc a size then true else page.is_full)
            else page.is_full;
        bitmap = set page.bitmap i x';
      },
    )

-- `unsafe_acquire`: it comes back only if the lock is free, or once another CPU frees it.
unfoldable pub acquire : Spinlock → Option Spinlock
acquire lk = if lk.locked == 0 then some (record lk { locked = 1 }) else none

-- `unsafe_release`
unfoldable pub release : Spinlock → Spinlock
release lk = record lk { locked = 0 }

-- One round of the search in `kalloc_unsafe`; `none` if it waits for the lock of the page.
unfoldable pub try_page : Undefined → Arch → ℕ → Page → Option (Option ℕ × Page)
unfolding acquire release scan
try_page u a size page = elim (acquire page.lock) [
  | none ↦ none
  | some held ↦
      let locked_page = record page { lock = held } in
      let found = scan u a size (num_bitmap a size) 0 locked_page in
      let (res, page') =
        if page.type == size && not page.is_full then found else (none, locked_page) in
      some (res, record page' { lock = release page'.lock })
]

-- The word and the bit that `kfree_unsafe` sets, for a block at an offset from the data.
unfoldable pub give_word : Arch → ℕ → ℕ → ℕ
give_word a type off =
    if type == 4096 || type == 2048 || type == 1024 then 0 else off / type / 8 / ptr_bytes a

unfoldable pub give_bit : Arch → ℕ → ℕ → ℕ
give_bit bits64 type off =
    let n_b = off / type % (8 * ptr_bytes bits64) in
    if type == 4096 then n_b + 48 else if type == 2048 then n_b + 32 else n_b
give_bit bits32 type off =
    let n_b = off / type % (8 * ptr_bytes bits32) in if type == 4096 then n_b + 16 else n_b

-- The switch of `kfree_unsafe`; `none` if it waits for the lock of the page.
unfoldable pub give : Arch → ℕ → Page → Option Page
unfolding acquire release
give a off page = elim (acquire page.lock) [
  | none ↦ none
  | some held ↦
      let i = give_word a page.type off in
      some (record page {
        is_full = false;
        lock = release held;
        bitmap =
            set page.bitmap i (bit_or (word page i) (2 ^ give_bit a page.type off % 2 ^ width a));
      })
]
