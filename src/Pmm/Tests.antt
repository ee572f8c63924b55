-- ===== src/Pmm/Tests.antt =====
-- Runs of the memory manager, and its theorems at concrete heaps.
mod Faults
use projects_demonstration.Base.{
  ℕ, zero, suc, ◌+◌, ◌*◌, ◌<◌, ◌≡◌, ◌≢◌, inl, refl, arith, true, false, none, some, replicate,
  get_or, Option,
}
use projects_demonstration.Word.{ctz, mask}
use projects_demonstration.Pmm.Layout.{bits32, bits64, Undefined, page_sz, up_pow2}
use projects_demonstration.Pmm.Layout.Classes.{Class, c64, c1024, bytes}
use projects_demonstration.Pmm.Layout.Pow2.{IsLeast, up_pow2-IsLeast}
use projects_demonstration.Pmm.Page.{
  Page, init_lock, init_page, give, word, loc, try_page, clear_lowest,
}
use projects_demonstration.Pmm.Page.Bitmap.{IsRaw, IsFree, offset}
use projects_demonstration.Pmm.Page.Init.{init_page-IsPage, init_page-IsOpen}
use projects_demonstration.Pmm.Heap.{
  Heap, Run, done, pmm_init, init_cpus, kalloc, kalloc_unsafe, search, grow, grow_locked, install,
  kfree,
}
use projects_demonstration.Pmm.Heap.Chain.{IsHeap, block_addr}
use projects_demonstration.Pmm.Heap.Search.{NoBlock}
use projects_demonstration.Pmm.Heap.Init.{first_pages, pmm_init-IsHeap}
use projects_demonstration.Pmm.Heap.Alloc.{Allocates, Allocated, null, block_at, grown-Allocates}
use projects_demonstration.Pmm.Heap.Grow.{grown, first_block}
use projects_demonstration.Pmm.Heap.Grow.Lists.{one_more}
use projects_demonstration.Pmm.Heap.Kalloc.{kalloc-Allocated}
use projects_demonstration.Pmm.Heap.Free.{Frees, kfree-Frees}
use projects_demonstration.Pmm.Heap.Blocks.{IsLive}
use projects_demonstration.Pmm.Heap.Separate.{Separate, kalloc-Apart}
use projects_demonstration.Pmm.History.{
  Step, frees, here, then_call, InOrder, Reaches-InOrder, Restores, kalloc-kfree,
}
use projects_demonstration.Pmm.Faults.{init_page_unserved, give_misplaced}

abbrev pub machine : Undefined
machine = record { ctz_zero = 64; shift_over = λ _. 0 }

abbrev pub zero_page : Page
zero_page = record {
  page_list = 0;
  is_full = false;
  lock = init_lock;
  type = 0;
  bitmap = replicate 128 0;
}

pub all_zero : (n i : ℕ) → ◌≡◌ {A = ℕ} (get_or (replicate n 0) i 0) 0
all_zero zero i = refl
all_zero (suc n) zero = refl
all_zero (suc n) (suc i) = all_zero n i

zero_page-IsRaw : IsRaw bits64 zero_page
zero_page-IsRaw = record { sized = refl; small = λ i. omega (arith, all_zero 128 i) }

-- Four pages of memory for two CPUs.
abbrev memory : Heap
memory = record {
  start = 0x1000;
  end = 0x1000 + 5 * page_sz;
  ncpu = 2;
  page_senti = λ _. 0;
  tail_page = λ _. 0;
  last_page_addr = 0;
  global_lk = init_lock;
  mem = λ _. zero_page;
  intr = true;
}

booted : Heap
booted = pmm_init bits64 memory

booted-IsHeap : IsHeap bits64 booted (first_pages 2)
unfolding booted
booted-IsHeap =
    pmm_init-IsHeap memory (λ x. zero_page-IsRaw) (omega arith) (omega arith) (omega arith)
      (omega arith)

two_cpus : 0 < booted.ncpu
unfolding booted pmm_init init_cpus
two_cpus = omega arith

pmm_init_example : IsHeap bits64 (pmm_init bits64 memory) (first_pages 2)
pmm_init_example =
    pmm_init-IsHeap memory (λ x. zero_page-IsRaw) (omega arith) (omega arith) (omega arith)
      (omega arith)

up_pow2_example : IsLeast bits64 24 (up_pow2 machine bits64 24)
up_pow2_example = up_pow2-IsLeast machine bits64 24 (omega arith)

ran : Run (ℕ × Heap) → Option ℕ
ran (done (p, s)) = some p
ran _ = none

first_alloc :
    ran (kalloc machine bits64 0 24 (pmm_init bits64 memory)) ≡ some (0x1000 + 2 * page_sz + 0x1000)
unfolding pmm_init kalloc kalloc_unsafe search grow grow_locked install try_page init_page loc ctz
    mask clear_lowest up_pow2 ran
first_alloc = refl

-- A page of 64-byte blocks for CPU 0, then one of 16-byte blocks.
abbrev once : Heap
once = grown machine c64 booted-IsHeap 0 two_cpus

-- The first pages hold blocks of 8 bytes.
none_of_64 : NoBlock bits64 c64 booted (first_pages 2) 0 0 2
unfolding booted pmm_init init_cpus init_page
none_of_64 zero lo hi own = inl (λ e. omega arith)
none_of_64 (suc zero) lo hi own = inl (λ e. omega arith)
none_of_64 (suc (suc k)) lo hi own = absurd (omega arith)

first :
    Allocates bits64 c64 0 booted
      (first_pages 2)
      once
      (one_more (first_pages 2) 0)
      2
      0
      (first_block machine c64 booted-IsHeap 0 two_cpus)
first =
    grown-Allocates machine c64 booted-IsHeap 0 two_cpus (unfold booted pmm_init in omega arith)
      none_of_64

first-IsLive :
    IsLive bits64 once
      (one_more (first_pages 2) 0)
      2
      c64
      0
      (first_block machine c64 booted-IsHeap 0 two_cpus)
first-IsLive = record {
  in_heap = first.in_heap;
  class = first.class;
  block = first.block;
  used = first.taken;
}

still_two : 0 < once.ncpu
unfolding booted pmm_init init_cpus
still_two = omega arith

-- What a call returned.
abbrev ptr_of : Run (ℕ × Heap) → ℕ
ptr_of (done (p, s)) = p
ptr_of _ = 0

abbrev heap_of : Run (ℕ × Heap) → Heap
heap_of (done (p, s)) = s
heap_of _ = memory

abbrev second_run : Run (ℕ × Heap)
second_run = kalloc machine bits64 0 16 once

Allocated-done :
    {c : Class} {r : Run (ℕ × Heap)}
    → Allocated bits64 c 0 once (one_more (first_pages 2) 0) r
    → r ≡ done (ptr_of r, heap_of r)
Allocated-done (null before full) = refl
Allocated-done (block_at k i j t) = refl

Allocated-ptr_of :
    {c : Class} {r : Run (ℕ × Heap)}
    → Allocated bits64 c 0 once (one_more (first_pages 2) 0) r
    → once.start ≡ 0x1000
    → once.end ≡ 0x1000 + 5 * page_sz
    → ptr_of r ≢ 0
Allocated-ptr_of (null before full) low high e = omega arith
Allocated-ptr_of (block_at k i j t) low high e = omega arith

second_Allocated :
    (c : Class) × (up_pow2 machine bits64 16 ≡ bytes c)
    × Allocated bits64 c 0 once (one_more (first_pages 2) 0) second_run
second_Allocated =
    kalloc-Allocated machine 16 0 first.kept still_two (λ e. omega arith) (omega arith)
      (inl (omega arith))

second_returns : second_run ≡ done (ptr_of second_run, heap_of second_run)
second_returns = Allocated-done second_Allocated.2

second_ptr : ptr_of second_run ≢ 0
unfolding booted pmm_init init_cpus
second_ptr = Allocated-ptr_of second_Allocated.2 refl refl

kalloc-Apart_example :
    Separate bits64 once
      (heap_of second_run)
      (ptr_of second_run)
      (up_pow2 machine bits64 16)
      2
      c64
      0
      (first_block machine c64 booted-IsHeap 0 two_cpus)
kalloc-Apart_example =
    kalloc-Apart machine 16 0 (ptr_of second_run) 2 first.kept still_two (λ e. omega arith)
      (omega arith) (inl (omega arith)) first-IsLive second_returns second_ptr

kfree_example :
    (s' : Heap) × (kfree bits64
        (block_addr bits64 once 2 c64 0 (first_block machine c64 booted-IsHeap 0 two_cpus))
        once
      ≡ done s')
    × Frees bits64 once
        (one_more (first_pages 2) 0)
        s'
        2
        0
        (first_block machine c64 booted-IsHeap 0 two_cpus)
kfree_example = kfree-Frees first.kept first.in_heap first.class first.block (λ e. e)

kalloc-kfree_example :
    Restores bits64 once (one_more (first_pages 2) 0) (ptr_of second_run) (heap_of second_run)
kalloc-kfree_example =
    kalloc-kfree machine 16 0 (ptr_of second_run) first.kept still_two (λ e. omega arith)
      (omega arith) (inl (omega arith)) (inl (omega arith)) second_returns second_ptr

-- That block is freed again.
freed :
    (s' : Heap) × (kfree bits64
        (block_addr bits64 once 2 c64 0 (first_block machine c64 booted-IsHeap 0 two_cpus))
        once
      ≡ done s')
    × Frees bits64 once
        (one_more (first_pages 2) 0)
        s'
        2
        0
        (first_block machine c64 booted-IsHeap 0 two_cpus)
freed = kfree-Frees first.kept first.in_heap first.class first.block (λ e. e)

freeing : Step machine bits64 once freed.0
freeing =
    frees 2 0 (first_block machine c64 booted-IsHeap 0 two_cpus) c64
      (unfold booted pmm_init init_cpus in omega arith) first.class first.block (λ e. e) freed.1

Reaches-InOrder_example : InOrder bits64 freed.0
Reaches-InOrder_example =
    Reaches-InOrder (then_call here freeing) (one_more (first_pages 2) 0, first.kept)
