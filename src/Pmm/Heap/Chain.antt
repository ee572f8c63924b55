-- ===== src/Pmm/Heap/Chain.antt =====
-- The pages of the heap, and the list of pages that each CPU searches.
use projects_demonstration.Base.{
  ℕ, ◌+◌, ◌-◌, ◌*◌, ◌^◌, ◌≤◌, ◌<◌, ◌≡◌, ◌≢◌, refl, ap, sym, ◌∙◌, arith, update, if◌then◌else◌, ◌==◌,
  inl, inr, eq-cases, eq→==, ne→==, Bool,
}
use projects_demonstration.Pmm.Layout.{Arch, bits32, bits64, width, page_sz, hdr_size}
use projects_demonstration.Pmm.Layout.Classes.{Class, bytes_pos}
use projects_demonstration.Pmm.Page.{Page}
use projects_demonstration.Pmm.Page.Bitmap.{IsRaw, IsPage, IsBlock, IsOpen, offset, offset-le}
use projects_demonstration.Pmm.Heap.{Heap, sub_ptr}

-- The address of page `k`.
abbrev pub page_addr : Heap → ℕ → ℕ
page_addr s k = s.start + k * page_sz

abbrev pub page_at : Heap → ℕ → Page
page_at s k = s.mem (page_addr s k)

-- The address of block `j` of word `i` of page `k`, of a class.
abbrev pub block_addr : Arch → Heap → ℕ → Class → ℕ → ℕ → ℕ
block_addr a s k c i j = page_addr s k + hdr_size + offset a c i j

-- Which CPU each page belongs to, and how many pages are set up.
pub record Pages : Type 0 where
  pub count : ℕ
  pub owner : ℕ → ℕ

-- No page strictly between the two belongs to the CPU.
abbrev pub Skips : (g : Pages) (cpu low high : ℕ) → Type 0
Skips g cpu low high = (x : ℕ) → low < x → x < high → g.owner x ≢ cpu

-- From page `k` the list leads through the pages of the CPU, each of them, at rising addresses, to
-- `last`.
pub data Chain (s : Heap) (g : Pages) (cpu : ℕ) (last : ℕ) : ℕ → Type 0 where
  ends :
      last < g.count
      → g.owner last ≡ cpu
      → Skips g cpu last g.count
      → (page_at s last).page_list ≡ 0
      → Chain s g cpu last last
  next :
      {k : ℕ} (m : ℕ)
      → k < m
      → g.owner k ≡ cpu
      → Skips g cpu k m
      → (page_at s k).page_list ≡ page_addr s m
      → Chain s g cpu last m
      → Chain s g cpu last k

-- The list of a CPU: every page that belongs to it, from the first to the last.
pub record IsList (s : Heap) (g : Pages) (cpu : ℕ) : Type 0 where
  pub first : ℕ
  pub last : ℕ
  pub first_at : s.page_senti cpu ≡ page_addr s first
  pub last_at : s.tail_page cpu ≡ page_addr s last
  pub none_before : (x : ℕ) → x < first → g.owner x ≢ cpu
  pub chain : Chain s g cpu last first

-- The bounds of the heap.
pub record IsArea (a : Arch) (s : Heap) (n : ℕ) : Type 0 where
  pub not_null : 0 < s.start
  pub room : page_sz ≤ s.end
  pub fits : s.end < 2 ^ width a
  pub next_page : s.last_page_addr ≡ page_addr s n
  pub inside : page_addr s n ≤ s.end

-- A state between two calls. Every page that is set up belongs to a CPU, and is on its list alone.
pub record IsHeap (a : Arch) (s : Heap) (g : Pages) : Type 0 where
  pub area : IsArea a s g.count
  pub raw : (x : ℕ) → IsRaw a (s.mem x)
  pub class : (k : ℕ) → k < g.count → (c : Class) × IsPage a c (page_at s k)
  pub opened : (k : ℕ) → k < g.count → IsOpen (page_at s k)
  pub global_free : s.global_lk.locked ≡ 0
  pub owners : (k : ℕ) → k < g.count → g.owner k < s.ncpu
  pub lists : (cpu : ℕ) → cpu < s.ncpu → IsList s g cpu

pub sub_ptr_lem : (a : Arch) (x y : ℕ) → y ≤ x → x < 2 ^ width a → sub_ptr a x y ≡ x - y
sub_ptr_lem bits32 x y le lt = omega arith
sub_ptr_lem bits64 x y le lt = omega arith

pub page_addr-injective : (s : Heap) (k m : ℕ) → page_addr s k ≡ page_addr s m → k ≡ m
page_addr-injective s k m e = omega arith

pub page_at-update_ne :
    (s : Heap) (k m : ℕ) (p : Page)
    → k ≢ m
    → update s.mem (page_addr s m) p (page_addr s k) ≡ page_at s k
page_at-update_ne s k m p ne = grind (arith, page_addr-injective s k m)

-- The blocks of the pages that are set up are below the end of the address space.
pub block_addr-lt :
    {a : Arch} {s : Heap} {g : Pages} {k i j : ℕ} {c : Class}
    → IsHeap a s g
    → k < g.count
    → IsBlock a c i j
    → block_addr a s k c i j < 2 ^ width a
block_addr-lt {a} {i = i} {j = j} {c = c} h lt b =
    omega (arith, h.area.inside, h.area.fits, offset-le a c i j b, bytes_pos c)

module _ {s : Heap} {g : Pages} {cpu last : ℕ} where
  pub Chain-le : {k : ℕ} → Chain s g cpu last k → k ≤ last
  Chain-le (ends lt own gap e) = omega arith
  Chain-le (next m lt own gap e rest) = omega (arith, Chain-le rest)

  pub last-lt : {k : ℕ} → Chain s g cpu last k → last < g.count
  last-lt (ends lt own gap e) = lt
  last-lt (next m lt own gap e rest) = last-lt rest

  pub last-owner : {k : ℕ} → Chain s g cpu last k → g.owner last ≡ cpu
  last-owner (ends lt own gap e) = own
  last-owner (next m lt own gap e rest) = last-owner rest

  pub Chain-owner : {k : ℕ} → Chain s g cpu last k → g.owner k ≡ cpu
  Chain-owner (ends lt own gap e) = own
  Chain-owner (next m lt own gap e rest) = own

-- A change that keeps the links of the pages keeps the lists.
module _ {s s' : Heap} (g : Pages) (same_start : s'.start ≡ s.start)
    (links : (k : ℕ) → k < g.count → (page_at s' k).page_list ≡ (page_at s k).page_list) where
  pub Chain-links : {cpu last k : ℕ} → Chain s g cpu last k → Chain s' g cpu last k
  Chain-links {last} (ends lt own gap e) = ends lt own gap (links last lt ∙ e)
  Chain-links {k} (next m lt own gap e rest) =
      next m lt own gap
        (links k (omega (arith, Chain-le rest, last-lt rest, lt))
          ∙ e
          ∙ ap (λ x. x + m * page_sz) (sym same_start))
        (Chain-links rest)

-- Taking or giving a block of a page keeps the heap, with the same pages.
module _ {a : Arch} {s : Heap} {g : Pages} (h : IsHeap a s g) (m : ℕ) (lt : m < g.count) {c : Class}
    {p' : Page} (kept : IsPage a c p') (open' : IsOpen p')
    (linked : p'.page_list ≡ (page_at s m).page_list) where
  abbrev pub put_page : Heap
  put_page = record s { mem = update s.mem (page_addr s m) p' }

  pub page_at-put : (k : ℕ) → page_at put_page k ≡ (if k == m then p' else page_at s k)
  page_at-put k = grind (arith, page_addr-injective s k m)

  links-put : (k : ℕ) → k < g.count → (page_at put_page k).page_list ≡ (page_at s k).page_list
  links-put k k_lt = elim (eq-cases k m) [
    | inl same ↦ rw (page_at-put k, same, eq→== m m refl) linked
    | inr other ↦ rw (page_at-put k, ne→== k m other) refl
  ]

  class-put : (k : ℕ) → k < g.count → (d : Class) × IsPage a d (page_at put_page k)
  class-put k k_lt = elim (eq-cases k m) [
    | inl same ↦ (c, rw (page_at-put k, same, eq→== m m refl) kept)
    | inr other ↦ rw (page_at-put k, ne→== k m other) (h.class k k_lt)
  ]

  IsRaw-put : (x : ℕ) → IsRaw a (put_page.mem x)
  IsRaw-put x = elim (eq-cases x (page_addr s m)) [
    | inl same ↦ rw (eq→== x (page_addr s m) same) kept.raw
    | inr other ↦ rw (ne→== x (page_addr s m) other) (h.raw x)
  ]

  pub put_page-IsHeap : IsHeap a put_page g
  put_page-IsHeap = record {
    area = record {
      not_null = h.area.not_null;
      room = h.area.room;
      fits = h.area.fits;
      next_page = h.area.next_page;
      inside = h.area.inside;
    };
    raw = IsRaw-put;
    class = class-put;
    opened = λ k k_lt. ground (arith, page_at-put k, h.opened k);
    global_free = h.global_free;
    owners = h.owners;
    lists = λ cpu c_lt.
        let l = h.lists cpu c_lt in
        record {
          first = l.first;
          last = l.last;
          first_at = l.first_at;
          last_at = l.last_at;
          none_before = l.none_before;
          chain = Chain-links g refl links-put l.chain;
        };
  }

abbrev pub with_intr : Bool → Heap → Heap
with_intr b s = record s { intr = b }

-- The interrupt flag is no part of the invariant.
pub intr-IsHeap :
    {a : Arch} {s : Heap} {g : Pages} (b : Bool) → IsHeap a s g → IsHeap a (with_intr b s) g
intr-IsHeap {g} b h = record {
  area = record {
    not_null = h.area.not_null;
    room = h.area.room;
    fits = h.area.fits;
    next_page = h.area.next_page;
    inside = h.area.inside;
  };
  raw = h.raw;
  class = h.class;
  opened = h.opened;
  global_free = h.global_free;
  owners = h.owners;
  lists = λ cpu lt.
      let l = h.lists cpu lt in
      record {
        first = l.first;
        last = l.last;
        first_at = l.first_at;
        last_at = l.last_at;
        none_before = l.none_before;
        chain = Chain-links g refl (λ k _. refl) l.chain;
      };
}
