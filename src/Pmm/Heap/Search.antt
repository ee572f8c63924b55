-- ===== src/Pmm/Heap/Search.antt =====
-- The search of `kalloc_unsafe` along the list of a CPU.
use projects_demonstration.Base.{
  ℕ, zero, suc, ◌+◌, ◌≤◌, ◌<◌, ◌≡◌, ◌≢◌, refl, sym, inl, inr, eq-cases, ap, ◌∙◌, arith, update,
  update_self, Option, none, some, ne→==,
}
use mathlib.Core.Path.{subst}
use native.Mathlib.Decide.{dec_lt}
use native.Mathlib.Nat.{mod-eq_of_lt}
use projects_demonstration.Pmm.Layout.{Arch, Undefined, hdr_size}
use projects_demonstration.Pmm.Layout.Classes.{Class, bytes}
use projects_demonstration.Pmm.Page.{Page, try_page}
use projects_demonstration.Pmm.Page.Bitmap.{IsOpen}
use projects_demonstration.Pmm.Page.Take.{Takes}
use projects_demonstration.Pmm.Page.Take.Search.{Useless, Tried, useless, useful, try_page-Tried}
use projects_demonstration.Pmm.Heap.{Heap, done, add_ptr, search}
use projects_demonstration.Pmm.Heap.Chain.{
  page_addr, page_at, block_addr, block_addr-lt, Pages, Chain, Skips, ends, next, IsHeap, Chain-le,
  last-lt,
}

-- No page of the CPU from `low` on and below `high` gives a block of the class.
abbrev pub NoBlock : Arch → Class → Heap → Pages → (cpu low high : ℕ) → Type 0
NoBlock a c s g cpu low high =
    (x : ℕ) → low ≤ x → x < high → g.owner x ≡ cpu → Useless a c (page_at s x)

-- The search from page `k` on ends with the first free block of the first page that gives one, or with
-- nothing changed, where no page does.
pub data Searched (a : Arch) (c : Class) (s : Heap) (g : Pages) (cpu k : ℕ)
    : Option ℕ × Heap → Type 0 where
  missed : NoBlock a c s g cpu k g.count → Searched a c s g cpu k (none, s)
  found :
      {p' : Page} (m i j : ℕ) (lt : m < g.count)
      → k ≤ m
      → NoBlock a c s g cpu k m
      → g.owner m ≡ cpu
      → Takes a c (page_at s m) p' i j
      → IsOpen p'
      → Searched a c s g cpu k
          (some (block_addr a s m c i j), record s { mem = update s.mem (page_addr s m) p' })

-- No page of the CPU is before the first of its list.
module _ (a : Arch) (c : Class) (s : Heap) (g : Pages) (cpu k : ℕ)
    (none_before : (x : ℕ) → x < k → g.owner x ≢ cpu) where
  NoBlock-first : (high : ℕ) → NoBlock a c s g cpu k high → NoBlock a c s g cpu 0 high
  NoBlock-first high b x lo hi own = elim (dec_lt x k) [
    | yes before ↦ absurd (none_before x before own)
    | no beyond ↦ b x (omega arith) hi own
  ]

  pub Searched-first : {r : Option ℕ × Heap} → Searched a c s g cpu k r → Searched a c s g cpu 0 r
  Searched-first (missed rest) = missed (NoBlock-first g.count rest)
  Searched-first (found n i j lt le rest own t o) =
      found n i j lt (omega arith) (NoBlock-first n rest) own t o

module _ (u : Undefined) (a : Arch) (size fuel page : ℕ) (s : Heap) (ne : page ≢ 0) where
  search_found :
      {off : ℕ} {p' : Page}
      → try_page u a size (s.mem page) ≡ some (some off, p')
      → search u a size (suc fuel) page s
        ≡ done (some (add_ptr a (page + hdr_size) off), record s { mem = update s.mem page p' })
  unfolding search
  search_found e = rw (ne→== page 0 ne, e, search)

  search_missed :
      try_page u a size (s.mem page) ≡ some (none, s.mem page)
      → search u a size (suc fuel) page s ≡ search u a size fuel (s.mem page).page_list s
  unfolding search
  search_missed e =
      rw (ne→== page 0 ne, e, search)
        (ap (λ mem. search u a size fuel (s.mem page).page_list (record s { mem = mem }))
          (update_self s.mem page))

search_null :
    (u : Undefined) (a : Arch) (size fuel : ℕ) (s : Heap)
    → search u a size (suc fuel) 0 s ≡ done (none, s)
unfolding search
search_null u a size fuel s = refl

module _ (u : Undefined) (a : Arch) (c : Class) {s : Heap} {g : Pages} (cpu : ℕ)
    (h : IsHeap a s g) where
  -- A page without a block is passed over.
  NoBlock-cons :
      (k m high : ℕ)
      → Useless a c (page_at s k)
      → k < m
      → Skips g cpu k m
      → NoBlock a c s g cpu m high
      → NoBlock a c s g cpu k high
  NoBlock-cons k m high why lt gap rest x lo hi own = elim (eq-cases x k) [
    | inl same ↦ subst (λ y. Useless a c (page_at s y)) (sym same) why
    | inr later ↦ elim (dec_lt x m) [
      | yes before ↦ absurd (gap x (omega arith) before own)
      | no beyond ↦ rest x (omega arith) hi own
    ]
  ]

  Searched-cons :
      (k m : ℕ) {r : Option ℕ × Heap}
      → Useless a c (page_at s k)
      → k < m
      → Skips g cpu k m
      → Searched a c s g cpu m r
      → Searched a c s g cpu k r
  Searched-cons k m why lt gap (missed rest) = missed (NoBlock-cons k m g.count why lt gap rest)
  Searched-cons k m why lt gap (found n i j n_lt le rest own t o) =
      found n i j n_lt (omega arith) (NoBlock-cons k m n why lt gap rest) own t o

  abbrev pub Outcome : (k fuel page : ℕ) → Type 0
  Outcome k fuel page =
      (r : Option ℕ × Heap) × (search u a (bytes c) fuel page s ≡ done r) × Searched a c s g cpu k r

  abbrev Round : ℕ → Type 0
  Round k =
      (r : Option ℕ × Page) × (try_page u a (bytes c) (page_at s k) ≡ some r)
      × Tried a c (page_at s k) r

  round : (k : ℕ) → k < g.count → Round k
  round k lt = let (d, ok) = h.class k lt in try_page-Tried u a c d ok (h.opened k lt)

  addr-ne : (k : ℕ) → page_addr s k ≢ 0
  addr-ne k e = omega (arith, h.area.not_null)

  after_round :
      (fuel k m : ℕ)
      → k < g.count
      → g.owner k ≡ cpu
      → k < m
      → Skips g cpu k m
      → Outcome m fuel (page_at s k).page_list
      → {r : Option ℕ × Page} → try_page u a (bytes c) (page_at s k) ≡ some r
      → Tried a c (page_at s k) r
      → Outcome k (suc fuel) (page_addr s k)
  after_round fuel k m lt own before gap rest e (useless why) = (
    rest.0,
    search_missed u a (bytes c) fuel (page_addr s k) s (addr-ne k) e ∙ rest.1,
    Searched-cons k m why before gap rest.2,
  )
  after_round fuel k m lt own before gap rest e (useful {p'} i j t o) = (
    _,
    search_found u a (bytes c) fuel (page_addr s k) s (addr-ne k) e
        ∙ ap (λ p. done (some p, record s { mem = update s.mem (page_addr s k) p' }))
            (mod-eq_of_lt (block_addr-lt h lt t.block)),
    found k i j lt (omega arith) (λ x lo hi. absurd (omega arith)) own t o,
  )

  pub search-Searched :
      {last k : ℕ} (fuel : ℕ)
      → Chain s g cpu last k
      → last + 1 < k + fuel
      → Outcome k fuel (page_addr s k)
  search-Searched zero ch enough = absurd (omega (arith, Chain-le ch))
  search-Searched {last} (suc zero) ch enough = absurd (omega (arith, Chain-le ch))
  search-Searched {last} (suc (suc fuel)) (ends lt own gap e) enough =
      let (r, tried, t) = round last lt in
      after_round (suc fuel) last g.count lt own lt gap
        (rw e
          ((none, s), search_null u a (bytes c) fuel s, missed (λ x lo hi. absurd (omega arith))))
        tried t
  search-Searched {k} (suc (suc fuel)) (next m lt own gap e rest) enough =
      let k_lt : k < g.count = omega (arith, Chain-le rest, last-lt rest) in
      let (r, tried, t) = round k k_lt in
      after_round (suc fuel) k m k_lt own lt gap
        (rw e (search-Searched (suc fuel) rest (omega arith))) tried t
