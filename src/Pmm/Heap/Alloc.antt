-- ===== src/Pmm/Heap/Alloc.antt =====
-- `kalloc` returns a block that was free, takes it and no other, and keeps the heap.
use projects_demonstration.Base.{
  ℕ, suc, ◌+◌, ◌*◌, ◌≤◌, ◌<◌, ◌≡◌, ◌≢◌, refl, ap, sym, ◌∙◌, arith, update-eq, if◌then◌else◌, ◌==◌,
  ◌&&◌, Option, inl, inr, eq-cases, ne→==, false,
}
use mathlib.Core.Path.{subst}
use native.Mathlib.Decide.{dec_lt}
use projects_demonstration.Word.{bit}
use projects_demonstration.Pmm.Layout.{Arch, Undefined, width, up_pow2}
use projects_demonstration.Pmm.Layout.Classes.{Class, bytes}
use projects_demonstration.Pmm.Page.{Page, word}
use projects_demonstration.Pmm.Page.Bitmap.{IsPage, IsBlock, IsFree, IsOpen}
use projects_demonstration.Pmm.Page.Init.{init_page-IsFree}
use projects_demonstration.Pmm.Page.Take.{Takes}
use projects_demonstration.Pmm.Heap.{
  Heap, Run, done, search, search_fuel, grow, after_search, kalloc_unsafe,
}
use projects_demonstration.Pmm.Heap.Chain.{
  page_addr, page_at, block_addr, Pages, IsHeap, last-lt, put_page, put_page-IsHeap, page_at-put,
}
use projects_demonstration.Pmm.Heap.Search.{
  NoBlock, Searched, Outcome, missed, found, search-Searched, Searched-first,
}
use projects_demonstration.Pmm.Heap.Grow.{grown, fresh, first_block, grow-full, grow-grown}
use projects_demonstration.Pmm.Heap.Grow.Fresh.{page, fresh_page-Takes}
use projects_demonstration.Pmm.Heap.Grow.Lists.{one_more}
use projects_demonstration.Pmm.Heap.Grown.{grown-IsHeap, at_new_lem, old_bits}

-- `s'` is `s` with block `j` of word `i` of page `k` taken, for a CPU. The page is one of its
-- old ones, or a new one whose other blocks are free; no page of the CPU before it gives a block, and no
-- block before it in the page is free.
pub record Allocates (a : Arch) (c : Class) (cpu : ℕ) (s : Heap) (g : Pages) (s' : Heap)
    (g' : Pages) (k i j : ℕ) : Type 0 where
  pub kept : IsHeap a s' g'
  pub in_heap : k < g'.count
  pub grows : g.count ≤ g'.count
  pub owned : g'.owner k ≡ cpu
  pub class : IsPage a c (page_at s' k)
  pub block : IsBlock a c i j
  pub was_free : k < g.count → IsFree (page_at s k) i j
  pub first_fit : (k ≤ g.count) × NoBlock a c s g cpu 0 k
  pub first_bit :
      (x y : ℕ)
      → k < g.count
      → x * width a + y < i * width a + j
      → y < width a
      → bit (word (page_at s k) x) y ≡ 0
  pub new_free :
      g.count ≤ k
      → (x y : ℕ) → IsBlock a c x y
      → (x == i && y == j) ≡ false
      → IsFree (page_at s' k) x y
  pub taken : bit (word (page_at s' k) i) j ≡ 0
  pub others :
      (m x y : ℕ)
      → m < g.count
      → bit (word (page_at s' m) x) y
        ≡ (if m == k && (x == i && y == j) then 0 else bit (word (page_at s m) x) y)
  pub same_area : (s'.start ≡ s.start) × (s'.end ≡ s.end) × (s'.ncpu ≡ s.ncpu)
  pub same_intr : s'.intr ≡ s.intr
  pub same_classes : (m : ℕ) → m < g.count → (page_at s' m).type ≡ (page_at s m).type

-- NULL with nothing changed, where no page of the CPU gives a block and no page fits any more; or a
-- block.
pub data Allocated (a : Arch) (c : Class) (cpu : ℕ) (s : Heap) (g : Pages)
    : Run (ℕ × Heap) → Type 0 where
  null :
      NoBlock a c s g cpu 0 g.count
      → s.end ≤ page_addr s (suc g.count)
      → Allocated a c cpu s g (done (0, s))
  block_at :
      {s' : Heap} {g' : Pages} (k i j : ℕ)
      → Allocates a c cpu s g s' g' k i j
      → Allocated a c cpu s g (done (block_addr a s k c i j, s'))

module _ (u : Undefined) {a : Arch} (c : Class) {s : Heap} {g : Pages} (h : IsHeap a s g) (cpu : ℕ)
    (cpu_lt : cpu < s.ncpu) where
  module _ {p' : Page} (k i j : ℕ) (lt : k < g.count) (t : Takes a c (page_at s k) p' i j)
      (o : IsOpen p') where
    abbrev put : Heap
    put = put_page h k lt t.kept o t.linked

    at_k : (m : ℕ) → m ≡ k → page_at put m ≡ p'
    at_k m e = page_at-put h k lt t.kept o t.linked m ∙ ground arith

    at_rest : (m : ℕ) → m ≢ k → page_at put m ≡ page_at s m
    at_rest m e = page_at-put h k lt t.kept o t.linked m ∙ ground arith

    put_bits :
        (m x y : ℕ)
        → bit (word (page_at put m) x) y
          ≡ (if m == k && (x == i && y == j) then 0 else bit (word (page_at s m) x) y)
    put_bits m x y = elim (eq-cases m k) [
      | inl same ↦
          ap (λ (p : Page). bit (word p x) y) (at_k m same) ∙ t.bits x y ∙ rw same (ground arith)
      | inr other ↦ ap (λ (p : Page). bit (word p x) y) (at_rest m other) ∙ ground arith
    ]

    put_types : (m : ℕ) → (page_at put m).type ≡ (page_at s m).type
    put_types m = elim (eq-cases m k) [
      | inl same ↦ ap (λ (p : Page). p.type) (at_k m same) ∙ t.same_type ∙ rw same refl
      | inr other ↦ ap (λ (p : Page). p.type) (at_rest m other)
    ]

    found-Allocates : g.owner k ≡ cpu → NoBlock a c s g cpu 0 k → Allocates a c cpu s g put g k i j
    found-Allocates own before = record {
      kept = put_page-IsHeap h k lt t.kept o t.linked;
      in_heap = lt;
      grows = omega arith;
      owned = own;
      class = subst (IsPage a c) (sym (at_k k refl)) t.kept;
      block = t.block;
      was_free = λ _. t.was_free;
      first_fit = (omega arith, before);
      first_bit = λ x y _. t.first x y;
      new_free = λ ge. absurd (omega arith);
      taken = put_bits k i j ∙ ground arith;
      others = λ m x y _. put_bits m x y;
      same_area = (refl, refl, refl);
      same_intr = refl;
      same_classes = λ m _. put_types m;
    }

  abbrev new_takes :
      Takes a c
        (page u a c (h.raw (page_addr s g.count)))
        (fresh u c h cpu cpu_lt)
        0
        (first_block u c h cpu cpu_lt)
  new_takes = fresh_page-Takes u a c (h.raw (page_addr s g.count))

  new_bits :
      (x y : ℕ)
      → bit (word (page_at (grown u c h cpu cpu_lt) g.count) x) y ≡ (
          if x == 0 && y == first_block u c h cpu cpu_lt
          then 0
          else bit (word (page u a c (h.raw (page_addr s g.count))) x) y)
  new_bits x y =
      ap (λ (p : Page). bit (word p x) y) (at_new_lem u c h cpu cpu_lt) ∙ new_takes.bits x y

  pub grown-Allocates :
      page_addr s (suc g.count) < s.end
      → NoBlock a c s g cpu 0 g.count
      → Allocates a c cpu s g
          (grown u c h cpu cpu_lt)
          (one_more g cpu)
          g.count
          0
          (first_block u c h cpu cpu_lt)
  grown-Allocates room before = record {
    kept = grown-IsHeap u c h cpu cpu_lt room;
    in_heap = omega arith;
    grows = omega arith;
    owned = update-eq g.owner g.count cpu;
    class = subst (IsPage a c) (sym (at_new_lem u c h cpu cpu_lt)) new_takes.kept;
    block = new_takes.block;
    was_free = λ lt. absurd (omega arith);
    first_fit = (omega arith, before);
    first_bit = λ x y lt. absurd (omega arith);
    new_free = λ _ x y b other.
        new_bits x y ∙ rw other (init_page-IsFree c (h.raw (page_addr s g.count)) x y b);
    taken = new_bits 0 (first_block u c h cpu cpu_lt) ∙ ground arith;
    others = λ m x y lt.
        ap (λ (w : ℕ). bit w y) ((old_bits u c h cpu cpu_lt m lt).0 x)
        ∙ rw (ne→== m g.count (λ e. omega arith)) refl;
    same_area = (refl, refl, refl);
    same_intr = refl;
    same_classes = λ m lt. (old_bits u c h cpu cpu_lt m lt).1;
  }

  enough_fuel : (k : ℕ) → k < g.count → k + 1 < search_fuel s
  enough_fuel k lt = rw h.area.next_page (omega arith)

  grow-Allocated : NoBlock a c s g cpu 0 g.count → Allocated a c cpu s g (grow u a cpu (bytes c) s)
  grow-Allocated before = elim (dec_lt (page_addr s (suc g.count)) s.end) [
    | yes room ↦
        rw (grow-grown u c h cpu cpu_lt room)
          (block_at g.count 0 (first_block u c h cpu cpu_lt) (grown-Allocates room before))
    | no none_left ↦ rw (grow-full u c h cpu cpu_lt (omega arith)) (null before (omega arith))
  ]

  after_search-Allocated :
      {r : Option ℕ × Heap}
      → Searched a c s g cpu 0 r
      → Allocated a c cpu s g (after_search u a cpu (bytes c) (done r))
  unfolding after_search
  after_search-Allocated (missed before) = grow-Allocated before
  after_search-Allocated (found k i j lt le before own t o) =
      block_at k i j (found-Allocates k i j lt t o own before)

  searched : Outcome u a c cpu h 0 (search_fuel s) (s.page_senti cpu)
  searched =
      let l = h.lists cpu cpu_lt in
      let (r, e, ended) =
        search-Searched u a c cpu h (search_fuel s) l.chain
          (omega (arith, enough_fuel l.last (last-lt l.chain))) in
      (
        r,
        ap (λ p. search u a (bytes c) (search_fuel s) p s) l.first_at ∙ e,
        Searched-first a c s g cpu l.first l.none_before ended,
      )

  -- A request that `UP_POW2` takes to a class comes back, with a block of the class that was
  -- free, or with NULL.
  pub kalloc_unsafe-Allocated :
      (size : ℕ)
      → size ≢ 0
      → up_pow2 u a size ≡ bytes c
      → Allocated a c cpu s g (kalloc_unsafe u a cpu size s)
  unfolding kalloc_unsafe
  kalloc_unsafe-Allocated size ne e =
      rw (ne→== size 0 ne, e, searched.1) (after_search-Allocated searched.2)
