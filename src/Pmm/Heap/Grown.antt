-- ===== src/Pmm/Heap/Grown.antt =====
-- The heap after a new page is a heap again, with one more page for the CPU.
use projects_demonstration.Base.{
  ℕ, suc, ◌<◌, ◌≡◌, ◌≢◌, refl, ap, sym, ◌∙◌, arith, update-eq, update-ne, inl, inr, eq-cases, ne→==,
}
use mathlib.Core.Path.{subst}
use projects_demonstration.Pmm.Layout.{Arch, Undefined}
use projects_demonstration.Pmm.Layout.Classes.{Class}
use projects_demonstration.Pmm.Page.{Page, word}
use projects_demonstration.Pmm.Page.Bitmap.{IsRaw, IsPage, IsOpen}
use projects_demonstration.Pmm.Heap.{Heap}
use projects_demonstration.Pmm.Heap.Chain.{
  page_addr, page_at, Pages, IsList, IsHeap, Chain, Chain-le, last-lt, last-owner,
}
use projects_demonstration.Pmm.Heap.Grow.{grown, fresh, mine, page_at-grown, last-ne}
use projects_demonstration.Pmm.Heap.Grow.Fresh.{fresh_page-Takes, fresh_page-IsOpen}
use projects_demonstration.Pmm.Heap.Grow.Lists.{one_more, none_before-old, other_list, own_list}

relink-IsPage :
    {a : Arch} {c : Class} {p : Page} (x : ℕ)
    → IsPage a c p
    → IsPage a c (record p { page_list = x })
relink-IsPage x ok = record {
  raw = record { sized = ok.raw.sized; small = ok.raw.small };
  typed = ok.typed;
  padded = ok.padded;
  full = ok.full;
}

module _ (u : Undefined) {a : Arch} (c : Class) {s : Heap} {g : Pages} (h : IsHeap a s g) (cpu : ℕ)
    (cpu_lt : cpu < s.ncpu) where
  abbrev after : Heap
  after = grown u c h cpu cpu_lt

  abbrev list : IsList s g cpu
  list = mine u c h cpu cpu_lt

  abbrev tail_page : Page
  tail_page = record (page_at s list.last) { page_list = page_addr s g.count }

  at_last : page_at after list.last ≡ tail_page
  at_last = page_at-grown u c h cpu cpu_lt list.last ∙ ground arith

  at_new : page_at after g.count ≡ fresh u c h cpu cpu_lt
  at_new = page_at-grown u c h cpu cpu_lt g.count ∙ ground (arith, last-ne u c h cpu cpu_lt)

  at_other : (k : ℕ) → k < g.count → k ≢ list.last → page_at after k ≡ page_at s k
  at_other k lt ne = page_at-grown u c h cpu cpu_lt k ∙ ground arith

  -- A property of every page that relinking keeps.
  every_page :
      (P : Page → Type 0)
      → P tail_page
      → P (fresh u c h cpu cpu_lt)
      → ((k : ℕ) → k < g.count → P (page_at s k))
      → (k : ℕ) → k < suc g.count
      → P (page_at after k)
  every_page P tail new old k lt = elim (eq-cases k list.last) [
    | inl same ↦ rw same (subst P (sym at_last) tail)
    | inr other ↦ elim (eq-cases k g.count) [
      | inl same ↦ rw same (subst P (sym at_new) new)
      | inr inside ↦ subst P (sym (at_other k (omega arith) other)) (old k (omega arith))
    ]
  ]

  IsRaw-grown : (x : ℕ) → IsRaw a (after.mem x)
  IsRaw-grown x = elim (eq-cases x (page_addr s list.last)) [
    | inl same ↦ rw same (
        subst (IsRaw a) (sym at_last) (record {
          sized = (h.raw (page_addr s list.last)).sized;
          small = (h.raw (page_addr s list.last)).small;
        }))
    | inr other ↦ elim (eq-cases x (page_addr s g.count)) [
      | inl same ↦ rw same (
          subst (IsRaw a) (sym at_new)
            (fresh_page-Takes u a c (h.raw (page_addr s g.count))).kept.raw)
      | inr outside ↦ rw (ne→== x _ other, ne→== x _ outside) (h.raw x)
    ]
  ]

  links-grown :
      (k : ℕ) → k < g.count → k ≢ list.last → (page_at after k).page_list ≡ (page_at s k).page_list
  links-grown k lt ne = ap (λ (p : Page). p.page_list) (at_other k lt ne)

  last_inside : list.last < g.count
  last_inside = last-lt list.chain

  first_inside : {x last first : ℕ} → Chain s g x last first → first < g.count
  first_inside ch = omega (arith, Chain-le ch, last-lt ch)

  owners-grown : (k : ℕ) → k < suc g.count → (one_more g cpu).owner k < s.ncpu
  owners-grown k lt = elim (eq-cases k g.count) [
    | inl same ↦ rw (same, update-eq g.owner g.count cpu) cpu_lt
    | inr inside ↦ rw (update-ne g.owner g.count k cpu inside) (h.owners k (omega arith))
  ]

  lists-grown : (x : ℕ) → x < s.ncpu → IsList after (one_more g cpu) x
  lists-grown x lt = elim (eq-cases x cpu) [
    | inl same ↦ rw same (record {
      first = list.first;
      last = g.count;
      first_at = list.first_at;
      last_at = update-eq s.tail_page cpu (page_addr s g.count);
      none_before = none_before-old s after g cpu refl list.none_before (first_inside list.chain);
      chain =
          own_list s after g cpu refl links-grown (ap (λ (p : Page). p.page_list) at_last)
            (ap (λ (p : Page). p.page_list) at_new
              ∙ (fresh_page-IsOpen u a c (h.raw (page_addr s g.count))).1)
            list.chain;
    })
    | inr other ↦
        let l = h.lists x lt in
        record {
          first = l.first;
          last = l.last;
          first_at = l.first_at;
          last_at = update-ne s.tail_page cpu x (page_addr s g.count) other ∙ l.last_at;
          none_before = none_before-old s after g cpu refl l.none_before (first_inside l.chain);
          chain =
              other_list s after g cpu refl other
                (λ k k_lt own.
                  links-grown k k_lt (λ e. other (sym own ∙ ap g.owner e ∙ last-owner list.chain)))
                l.chain;
        }
  ]

  -- The invariant, after a new page.
  pub grown-IsHeap : page_addr s (suc g.count) < s.end → IsHeap a after (one_more g cpu)
  grown-IsHeap room = record {
    area = record {
      not_null = h.area.not_null;
      room = h.area.room;
      fits = h.area.fits;
      next_page = refl;
      inside = omega arith;
    };
    raw = IsRaw-grown;
    class =
        every_page (λ p. (x : Class) × IsPage a x p)
          (
            (h.class list.last last_inside).0,
            relink-IsPage (page_addr s g.count) (h.class list.last last_inside).1,
          )
          (c, (fresh_page-Takes u a c (h.raw (page_addr s g.count))).kept) h.class;
    opened =
        every_page IsOpen (h.opened list.last last_inside)
          (fresh_page-IsOpen u a c (h.raw (page_addr s g.count))).0 h.opened;
    global_free = h.global_free;
    owners = owners-grown;
    lists = lists-grown;
  }

  pub at_new_lem : page_at after g.count ≡ fresh u c h cpu cpu_lt
  at_new_lem = at_new

  -- The blocks and the classes of the old pages are as they were.
  pub old_bits :
      (k : ℕ)
      → k < g.count
      → ((i : ℕ) → word (page_at after k) i ≡ word (page_at s k) i)
        × ((page_at after k).type ≡ (page_at s k).type)
  old_bits k lt = elim (eq-cases k list.last) [
    | inl same ↦
        rw same ((λ i. ap (λ (p : Page). word p i) at_last), ap (λ (p : Page). p.type) at_last)
    | inr other ↦ (
      (λ i. ap (λ (p : Page). word p i) (at_other k lt other)),
      ap (λ (p : Page). p.type) (at_other k lt other),
    )
  ]
