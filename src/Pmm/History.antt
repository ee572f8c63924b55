-- ===== src/Pmm/History.antt =====
-- Sequences of calls of `kalloc` and `kfree`.
use projects_demonstration.Base.{
  ℕ, ◌≤◌, ◌<◌, ◌≡◌, ◌≢◌, ◌⊎◌, arith, ◌∙◌, ap, sym, refl, inl, inr, Bool-cases, ◌==◌, ◌&&◌,
  if◌then◌else◌, true,
}
use mathlib.Core.Path.{subst}
use projects_demonstration.Word.{bit}
use projects_demonstration.Pmm.Layout.{Arch, bits32, bits64, Undefined, ptr_bytes, up_pow2}
use projects_demonstration.Pmm.Layout.Classes.{Class, bytes, c1024}
use projects_demonstration.Pmm.Page.{word}
use projects_demonstration.Pmm.Page.Bitmap.{IsPage, IsBlock, IsFree}
use projects_demonstration.Pmm.Page.Give.{IsMisplaced}
use projects_demonstration.Pmm.Heap.{Heap, Run, done, waits, no_fuel, fault, kalloc, kfree}
use projects_demonstration.Pmm.Heap.Chain.{Pages, IsHeap, page_addr, page_at, block_addr}
use projects_demonstration.Pmm.Heap.Alloc.{Allocates, Allocated, null, block_at}
use projects_demonstration.Pmm.Heap.Kalloc.{kalloc-Allocated}
use projects_demonstration.Pmm.Heap.Free.{kfree-Frees}

-- A call of a client that asks for sizes that are served, and frees blocks that kfree finds.
pub data Step (u : Undefined) (a : Arch) (s s' : Heap) : Type 0 where
  allocates :
      (cpu size ptr : ℕ)
      → cpu < s.ncpu
      → size ≢ 0
      → size ≤ 4096
      → (4 < ptr_bytes a) ⊎ (4 < size)
      → kalloc u a cpu size s ≡ done (ptr, s')
      → Step u a s s'
  frees :
      (k i j : ℕ) (c : Class)
      → page_addr s k < s.last_page_addr
      → IsPage a c (page_at s k)
      → IsBlock a c i j
      → ¬ IsMisplaced a c i
      → kfree a (block_addr a s k c i j) s ≡ done s'
      → Step u a s s'

pub data Reaches (u : Undefined) (a : Arch) (s : Heap) : Heap → Type 0 where
  here : Reaches u a s s
  then_call : {t v : Heap} → Reaches u a s t → Step u a t v → Reaches u a s v

abbrev pub InOrder : Arch → Heap → Type 0
InOrder a s = (g : Pages) × IsHeap a s g

abbrev Keeps : Arch → Run (ℕ × Heap) → Type 0
Keeps a (done (ptr, s)) = InOrder a s
Keeps a waits = ⊥
Keeps a no_fuel = ⊥
Keeps a fault = ⊥

Allocated-Keeps :
    {a : Arch} {c : Class} {cpu : ℕ} {s : Heap} {g : Pages} {r : Run (ℕ × Heap)}
    → IsHeap a s g
    → Allocated a c cpu s g r
    → Keeps a r
Allocated-Keeps {g} h (null before full) = (g, h)
Allocated-Keeps h (block_at {g'} k i j t) = (g', t.kept)

abbrev freed_heap : Heap → Run Heap → Heap
freed_heap s (done t) = t
freed_heap s waits = s
freed_heap s no_fuel = s
freed_heap s fault = s

Step-InOrder : {u : Undefined} {a : Arch} {s s' : Heap} → Step u a s s' → InOrder a s → InOrder a s'
Step-InOrder {u} {a} (allocates cpu size ptr lt ne le wide e) (g, h) =
    let (c, _, r) = kalloc-Allocated u size cpu h lt ne le wide in
    subst (Keeps a) e (Allocated-Keeps h r)
Step-InOrder {a} {s} (frees k i j c lt ok b placed e) (g, h) =
    let (t, e', f) = kfree-Frees h (omega (arith, h.area.next_page)) ok b placed in
    subst (InOrder a) (ap (freed_heap s) (sym e' ∙ e)) (g, f.kept)

-- Let a client allocate 1 to 4096 bytes at a time, on 32 bits more than 4, and free blocks of pages that
-- are set up, on 32 bits none of the upper half of a page of blocks of 1024 bytes. Whatever such calls
-- it makes, a heap in order stays in order: every page that is set up is on the list of one CPU, the
-- lists are at rising addresses and complete, every lock is free after a call, and every page is as
-- its class wants it.
pub Reaches-InOrder :
    {u : Undefined} {a : Arch} {s s' : Heap} → Reaches u a s s' → InOrder a s → InOrder a s'
Reaches-InOrder here o = o
Reaches-InOrder (then_call r st) o = Step-InOrder st (Reaches-InOrder r o)

Allocates-kfree :
    {a : Arch} {c : Class} {cpu k i j : ℕ} {s s' : Heap} {g g' : Pages}
    → Allocates a c cpu s g s' g' k i j
    → ¬ IsMisplaced a c i
    → (s'' : Heap) × (kfree a (block_addr a s k c i j) s' ≡ done s'')
      × IsHeap a s'' g'
      × ((m x y : ℕ) → m < g.count → bit (word (page_at s'' m) x) y ≡ bit (word (page_at s m) x) y)
Allocates-kfree {a} {c} {k} {i} {j} {s} {s'} {g} t placed =
    let (s'', e, f) = kfree-Frees t.kept t.in_heap t.class t.block placed in
    (
      s'',
      ap (λ p. kfree a p s') (omega (arith, t.same_area.0)) ∙ e,
      f.kept,
      λ m x y lt. f.bits m x y ∙ back m x y lt,
    )
  where
    all_equal :
        (m k x i y j : ℕ) → (m == k && (x == i && y == j)) ≡ true → (m ≡ k) × (x ≡ i) × (y ≡ j)
    all_equal m k x i y j h = ground arith

    back :
        (m x y : ℕ)
        → m < g.count
        → (if m == k && (x == i && y == j) then 1 else bit (word (page_at s' m) x) y)
          ≡ bit (word (page_at s m) x) y
    back m x y lt = elim (Bool-cases (m == k && (x == i && y == j))) [
      | inl hit ↦
          let (p, q, r) = all_equal m k x i y j hit in
          let free : IsFree (page_at s k) i j = t.was_free (omega arith) in
          rw hit (sym (rw (← p, ← q, ← r) at free))
      | inr miss ↦ rw miss (t.others m x y lt ∙ rw miss refl)
    ]

-- The blocks that kfree finds, by their class.
not-IsMisplaced :
    (a : Arch) (c : Class) (i : ℕ) → (4 < ptr_bytes a) ⊎ (bytes c ≢ 1024) → ¬ IsMisplaced a c i
not-IsMisplaced bits64 c i placed e = e
not-IsMisplaced bits32 c1024 i (inl wide) e = omega arith
not-IsMisplaced bits32 c1024 i (inr ne) e = ne refl
not-IsMisplaced bits32 _ i placed e = e

-- What a call left, when the block that it returned is freed.
module _ (a : Arch) (s : Heap) (g : Pages) where
  abbrev pub Restores : ℕ → Heap → Type 0
  Restores ptr s' =
      (s'' : Heap) × (kfree a ptr s' ≡ done s'')
      × InOrder a s''
      × ((m x y : ℕ) → m < g.count → bit (word (page_at s'' m) x) y ≡ bit (word (page_at s m) x) y)

  abbrev Undone : Run (ℕ × Heap) → Type 0
  Undone (done (ptr, s')) = (ptr ≡ 0) ⊎ Restores ptr s'
  Undone waits = ⊥
  Undone no_fuel = ⊥
  Undone fault = ⊥

  Allocated-Undone :
      {c : Class} {cpu : ℕ} {r : Run (ℕ × Heap)}
      → (4 < ptr_bytes a) ⊎ (bytes c ≢ 1024)
      → Allocated a c cpu s g r
      → Undone r
  Allocated-Undone placed (null before full) = inl refl
  Allocated-Undone {c} placed (block_at {g'} k i j t) =
      let (s'', e, kept, same) = Allocates-kfree t (not-IsMisplaced a c i placed) in
      inr (s'', e, (g', kept), same)

-- On a heap in order, let kalloc return an address that is not NULL for a request of 1 to 4096 bytes,
-- on 32 bits of more than 4 and not of 513 to 1024, which UP_POW2 takes to 1024. Then kfree of the
-- address returns, the heap is in order, and every block of the pages that were there is what it was
-- before the two calls.
pub kalloc-kfree :
    (u : Undefined) {a : Arch} {s s' : Heap} {g : Pages} (size cpu ptr : ℕ)
    → IsHeap a s g
    → cpu < s.ncpu
    → size ≢ 0
    → size ≤ 4096
    → (4 < ptr_bytes a) ⊎ (4 < size)
    → (4 < ptr_bytes a) ⊎ (up_pow2 u a size ≢ 1024)
    → kalloc u a cpu size s ≡ done (ptr, s')
    → ptr ≢ 0
    → Restores a s g ptr s'
kalloc-kfree u {a} {s} {g} size cpu ptr h lt ne le wide placed e not_null =
    let (c, sized, r) = kalloc-Allocated u size cpu h lt ne le wide in
    let found : (4 < ptr_bytes a) ⊎ (bytes c ≢ 1024) = elim placed [
      | inl p ↦ inl p
      | inr p ↦ inr (λ q. p (sized ∙ q))
    ] in
    elim (subst (Undone a s g) e (Allocated-Undone a s g found r)) [
      | inl null_ptr ↦ absurd (not_null null_ptr)
      | inr restored ↦ restored
    ]
