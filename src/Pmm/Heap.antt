-- ===== src/Pmm/Heap.antt =====
-- The state and the entry points of OSkernel/kernel/src/pmm.c: `pmm_init`, `kalloc` and `kfree`.
-- `cpu` is `_cpu()`, and the record's `intr` is the interrupt flag of that CPU.
pub mod Chain
pub mod Search
pub mod Grow
pub mod Grown
pub mod Alloc
pub mod Kalloc
pub mod Blocks
pub mod Separate
pub mod Free
pub mod Init
use projects_demonstration.Base.{
  ℕ, zero, suc, ◌+◌, ◌-◌, ◌*◌, ◌/◌, ◌%◌, ◌^◌, Bool, true, false, Option, none, some, if◌then◌else◌,
  ◌==◌, leb, set, update,
}
use projects_demonstration.Pmm.Layout.{
  Arch, Undefined, ptr_bytes, width, page_sz, hdr_size, up_pow2,
}
use projects_demonstration.Pmm.Page.{
  Spinlock, init_lock, Page, word, loc, init_page, clear_lowest, acquire, release, try_page, give,
}

-- `mem` has the page header at each address, also where none was set up.
pub record Heap : Type 0 where
  pub start : ℕ
  pub end : ℕ
  pub ncpu : ℕ
  pub page_senti : ℕ → ℕ
  pub tail_page : ℕ → ℕ
  pub last_page_addr : ℕ
  pub global_lk : Spinlock
  pub mem : ℕ → Page
  pub intr : Bool

-- How a call ends: it returns, it waits for a lock that is held, its fuel runs out, or it divides
-- by zero.
pub data Run (A : Type 0) : Type 0 where
  done : A → Run A
  waits no_fuel fault : Run A

-- `uintptr_t` arithmetic.
abbrev pub add_ptr : Arch → ℕ → ℕ → ℕ
add_ptr a x y = (x + y) % 2 ^ width a

abbrev pub sub_ptr : Arch → ℕ → ℕ → ℕ
sub_ptr a x y = (x + 2 ^ width a - y) % 2 ^ width a

-- `pmm_init` for the CPUs from `i` on, with `left` to go.
unfoldable pub init_cpus : Arch → ℕ → ℕ → Heap → Heap
init_cpus a zero i s = s
init_cpus a (suc left) i s =
    let page = add_ptr a s.start (i * page_sz) in
    init_cpus a left (i + 1) (record s {
      page_senti = update s.page_senti i page;
      tail_page = update s.tail_page i page;
      mem = update s.mem page (init_page a (s.mem page) (ptr_bytes a));
    })

unfoldable pub pmm_init : Arch → Heap → Heap
unfolding init_cpus
pmm_init a s =
    let s' = init_cpus a s.ncpu 0 (record s { global_lk = init_lock }) in
    record s' { last_page_addr = add_ptr a s.start (s.ncpu * page_sz) }

-- The search of `kalloc_unsafe` from a page on, along the list: the block, if one was found.
unfoldable pub search : Undefined → Arch → ℕ → ℕ → ℕ → Heap → Run (Option ℕ × Heap)
search u a size zero page s = no_fuel
search u a size (suc fuel) page s =
    if page == 0 then done (none, s) else elim (try_page u a size (s.mem page)) [
      | none ↦ waits
      | some (some off, p') ↦
          done (some (add_ptr a (page + hdr_size) off), record s { mem = update s.mem page p' })
      | some (none, p') ↦
          search u a size fuel p'.page_list (record s { mem = update s.mem page p' })
    ]

-- The new page of `kalloc_unsafe` at `last_page_addr`: it is set up, gives its first block, and
-- is put behind the last page of the CPU.
unfoldable pub install : Undefined → Arch → ℕ → ℕ → (tail new_page : ℕ) → Heap → ℕ × Heap
install u a cpu size tail new_page s =
    let page = init_page a (s.mem new_page) size in
    let res = add_ptr a (new_page + hdr_size) (loc u a (word page 0) size * size) in
    let taken = record page { bitmap = set page.bitmap 0 (clear_lowest a (word page 0)) } in
    let mem' = update s.mem new_page taken in
    (
      res,
      record s {
        last_page_addr = add_ptr a new_page page_sz;
        mem = update mem' tail (record (mem' tail) { page_list = new_page });
        tail_page = update s.tail_page cpu new_page;
      },
    )

-- The rest of `kalloc_unsafe`, where no page had a block: a new page, or NULL.
unfoldable pub grow_locked : Undefined → Arch → ℕ → ℕ → Spinlock → Heap → Run (ℕ × Heap)
grow_locked u a cpu size held s =
    let s' = record s { global_lk = release held } in
    if leb (sub_ptr a s.end page_sz) s.last_page_addr
    then done (0, s')
    else done (install u a cpu size (s.tail_page cpu) s.last_page_addr s')

unfoldable pub grow : Undefined → Arch → ℕ → ℕ → Heap → Run (ℕ × Heap)
grow u a cpu size s = elim (acquire s.global_lk) [
  | none ↦ waits
  | some held ↦ grow_locked u a cpu size held s
]

-- A round of the search for every page that was ever set up, and one for the end of the list.
abbrev pub search_fuel : Heap → ℕ
search_fuel s = (s.last_page_addr - s.start) / page_sz + 1

unfoldable pub after_search : Undefined → Arch → ℕ → ℕ → Run (Option ℕ × Heap) → Run (ℕ × Heap)
after_search u a cpu size (done (some res, s)) = done (res, s)
after_search u a cpu size (done (none, s)) = grow u a cpu size s
after_search u a cpu size waits = waits
after_search u a cpu size no_fuel = no_fuel
after_search u a cpu size fault = fault

unfoldable pub kalloc_unsafe : Undefined → Arch → ℕ → ℕ → Heap → Run (ℕ × Heap)
unfolding after_search
kalloc_unsafe u a cpu size s =
    let content_size = up_pow2 u a size in
    if size == 0
    then done (0, s)
    else after_search u a cpu content_size
        (search u a content_size (search_fuel s) (s.page_senti cpu) s)

-- `kalloc`: interrupts are off during the call, and then as they were.
unfoldable pub after_kalloc : Bool → Run (ℕ × Heap) → Run (ℕ × Heap)
after_kalloc intr_val (done (ret, s)) =
    done (ret, (if intr_val then record s { intr = true } else s))
after_kalloc intr_val waits = waits
after_kalloc intr_val no_fuel = no_fuel
after_kalloc intr_val fault = fault

unfoldable pub kalloc : Undefined → Arch → ℕ → ℕ → Heap → Run (ℕ × Heap)
unfolding after_kalloc
kalloc u a cpu size s = after_kalloc s.intr (kalloc_unsafe u a cpu size (record s { intr = false }))

-- The page that `kfree_unsafe` takes a pointer to belong to.
abbrev pub page_of : Arch → Heap → ℕ → ℕ
page_of a s ptr = add_ptr a (sub_ptr a ptr s.start / page_sz * page_sz) s.start

unfoldable pub kfree_unsafe : Arch → ℕ → Heap → Run Heap
kfree_unsafe a ptr s =
    let page = page_of a s ptr in
    if (s.mem page).type == 0
    then fault
    else elim (give a (sub_ptr a ptr (page + hdr_size)) (s.mem page)) [
      | none ↦ waits
      | some p' ↦ done (record s { mem = update s.mem page p' })
    ]

unfoldable pub after_kfree : Bool → Run Heap → Run Heap
after_kfree intr_val (done s) = done (if intr_val then record s { intr = true } else s)
after_kfree intr_val waits = waits
after_kfree intr_val no_fuel = no_fuel
after_kfree intr_val fault = fault

unfoldable pub kfree : Arch → ℕ → Heap → Run Heap
unfolding after_kfree
kfree a ptr s = after_kfree s.intr (kfree_unsafe a ptr (record s { intr = false }))
