-- ===== src/Pmm/Heap/Init.antt =====
-- `pmm_init` sets up a heap with one page for each CPU, on 64 bits.
use projects_demonstration.Base.{
  ℕ, zero, suc, ◌+◌, ◌*◌, ◌^◌, ◌≤◌, ◌<◌, ◌≡◌, ◌≢◌, refl, sym, ap, ◌∙◌, arith, inl, inr, eq-cases,
  update, update-eq, update-ne, ne→==,
}
use mathlib.Core.Path.{subst}
use native.Mathlib.Nat.{mod-eq_of_lt}
use projects_demonstration.Pmm.Layout.{bits64, page_sz, ptr_bytes}
use projects_demonstration.Pmm.Layout.Classes.{c8, bytes}
use projects_demonstration.Pmm.Page.{Page, init_lock, init_page}
use projects_demonstration.Pmm.Page.Bitmap.{IsRaw, IsPage, IsOpen}
use projects_demonstration.Pmm.Page.Init.{init_page-IsPage, init_page-IsOpen}
use projects_demonstration.Pmm.Heap.{Heap, add_ptr, init_cpus, pmm_init}
use projects_demonstration.Pmm.Heap.Chain.{
  Pages, IsHeap, ends, page_addr, page_at, page_addr-injective,
}

-- A page of the CPU with no page behind it.
record IsFirst (s : Heap) (k : ℕ) : Type 0 where
  page : IsPage bits64 c8 (page_at s k)
  opened : IsOpen (page_at s k)
  alone : (page_at s k).page_list ≡ 0
  senti : s.page_senti k ≡ page_addr s k
  tail : s.tail_page k ≡ page_addr s k

-- The heap that the loop of `pmm_init` works on, after `i` rounds.
record Inited (s : Heap) (i : ℕ) : Type 0 where
  raw : (x : ℕ) → IsRaw bits64 (s.mem x)
  first : (k : ℕ) → k < i → IsFirst s k

abbrev one_cpu : Heap → ℕ → Heap
one_cpu s i =
    let page = add_ptr bits64 s.start (i * page_sz) in
    record s {
      page_senti = update s.page_senti i page;
      tail_page = update s.tail_page i page;
      mem = update s.mem page (init_page bits64 (s.mem page) (ptr_bytes bits64));
    }

module _ (s : Heap) (i : ℕ) (p : Inited s i) (fits : page_addr s i < 2 ^ 64) where
  address : add_ptr bits64 s.start (i * page_sz) ≡ page_addr s i
  address = mod-eq_of_lt fits

  abbrev new : Page
  new = init_page bits64 (s.mem (page_addr s i)) (bytes c8)

  at_new : page_at (one_cpu s i) i ≡ new
  at_new = rw address (ground arith)

  at_old : (k : ℕ) → k ≢ i → page_at (one_cpu s i) k ≡ page_at s k
  at_old k ne = rw address (ground (arith, page_addr-injective s k i))

  IsRaw-after : (x : ℕ) → IsRaw bits64 ((one_cpu s i).mem x)
  IsRaw-after x = elim (eq-cases x (page_addr s i)) [
    | inl same ↦
        rw same
          (subst (IsRaw bits64) (sym at_new) (init_page-IsPage c8 (p.raw (page_addr s i))).raw)
    | inr other ↦ rw address (rw (ne→== x (page_addr s i) other) (p.raw x))
  ]

  new-IsFirst : IsFirst (one_cpu s i) i
  new-IsFirst =
      let facts = init_page-IsOpen c8 (p.raw (page_addr s i)) in
      record {
        page = subst (IsPage bits64 c8) (sym at_new) (init_page-IsPage c8 (p.raw (page_addr s i)));
        opened = subst IsOpen (sym at_new) facts.0;
        alone = ap (λ (q : Page). q.page_list) at_new ∙ facts.1;
        senti = update-eq s.page_senti i (add_ptr bits64 s.start (i * page_sz)) ∙ address;
        tail = update-eq s.tail_page i (add_ptr bits64 s.start (i * page_sz)) ∙ address;
      }

  old-IsFirst : (k : ℕ) → k < i → IsFirst (one_cpu s i) k
  old-IsFirst k lt =
      let ne : k ≢ i = λ e. omega arith in
      let f = p.first k lt in
      record {
        page = subst (IsPage bits64 c8) (sym (at_old k ne)) f.page;
        opened = subst IsOpen (sym (at_old k ne)) f.opened;
        alone = ap (λ (q : Page). q.page_list) (at_old k ne) ∙ f.alone;
        senti = update-ne s.page_senti i k (add_ptr bits64 s.start (i * page_sz)) ne ∙ f.senti;
        tail = update-ne s.tail_page i k (add_ptr bits64 s.start (i * page_sz)) ne ∙ f.tail;
      }

  one_cpu-Inited : Inited (one_cpu s i) (i + 1)
  one_cpu-Inited = record {
    raw = IsRaw-after;
    first = λ k lt. elim (eq-cases k i) [
      | inl same ↦ rw same new-IsFirst
      | inr other ↦ old-IsFirst k (omega arith)
    ];
  }

abbrev SameArea : Heap → Heap → Type 0
SameArea s' s =
    (s'.start ≡ s.start) × (s'.end ≡ s.end) × (s'.ncpu ≡ s.ncpu) × (s'.global_lk ≡ s.global_lk)

init_cpus-Inited :
    (left i n : ℕ) (s : Heap)
    → i + left ≡ n
    → page_addr s n < 2 ^ 64
    → Inited s i
    → Inited (init_cpus bits64 left i s) n × SameArea (init_cpus bits64 left i s) s
unfolding init_cpus
init_cpus-Inited zero i n s e fits p =
    let same : i ≡ n = omega arith in (subst (Inited s) same p, (refl, refl, refl, refl))
init_cpus-Inited (suc left) i n s e fits p =
    init_cpus-Inited left (i + 1) n (one_cpu s i) (omega arith) fits
      (one_cpu-Inited s i p (omega arith))

-- One page for each CPU.
abbrev pub first_pages : ℕ → Pages
first_pages n = record { count = n; owner = λ k. k }

module _ (s : Heap) (pos : 0 < s.start) (room : page_sz ≤ s.end) (fits : s.end < 2 ^ 64)
    (inside : page_addr s s.ncpu ≤ s.end) where
  finish :
      (s' : Heap)
      → Inited s' s.ncpu
      → SameArea s' (record s { global_lk = init_lock })
      → IsHeap bits64
          (record s' { last_page_addr = add_ptr bits64 s.start (s.ncpu * page_sz) })
          (first_pages s.ncpu)
  finish s' p same = record {
    area = record {
      not_null = omega (arith, same.0);
      room = omega (arith, same.1);
      fits = omega (arith, same.1);
      next_page = mod-eq_of_lt (omega arith) ∙ omega (arith, same.0);
      inside = omega (arith, same.0, same.1);
    };
    raw = p.raw;
    class = λ k lt. (c8, (p.first k lt).page);
    opened = λ k lt. (p.first k lt).opened;
    global_free = ap (λ lk. lk.locked) same.3;
    owners = λ k lt. omega (arith, same.2);
    lists = λ cpu lt.
        let lt' : cpu < s.ncpu = omega (arith, same.2) in
        let f = p.first cpu lt' in
        record {
          first = cpu;
          last = cpu;
          first_at = f.senti;
          last_at = f.tail;
          none_before = λ x x_lt q. absurd (omega arith);
          chain = ends lt' refl (λ x lo hi q. absurd (omega arith)) f.alone;
        };
  }

-- On 64 bits `pmm_init` brings any memory into a heap in order with a page for each CPU, if the pages
-- fit the area and the area does not begin at address 0 or reach the end of the address space.
pub pmm_init-IsHeap :
    (s : Heap)
    → ((x : ℕ) → IsRaw bits64 (s.mem x))
    → 0 < s.start
    → page_sz ≤ s.end
    → s.end < 2 ^ 64
    → page_addr s s.ncpu ≤ s.end
    → IsHeap bits64 (pmm_init bits64 s) (first_pages s.ncpu)
unfolding pmm_init
pmm_init-IsHeap s raw pos room fits inside =
    let s0 : Heap = record s { global_lk = init_lock } in
    let (p, same) =
      init_cpus-Inited s.ncpu 0 s.ncpu s0 (omega arith) (omega arith)
        (record { raw = raw; first = λ k lt. absurd (omega arith) }) in
    finish s pos room fits inside (init_cpus bits64 s.ncpu 0 s0) p same
