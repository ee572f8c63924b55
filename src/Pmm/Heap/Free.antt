-- ===== src/Pmm/Heap/Free.antt =====
-- `kfree` gives back the block that its pointer names, and no other.
use projects_demonstration.Base.{
  ℕ, ◌+◌, ◌*◌, ◌/◌, ◌^◌, ◌<◌, ◌≡◌, ◌≢◌, refl, sym, ap, ◌∙◌, arith, update, inl, inr, eq-cases,
  false, if◌then◌else◌, ◌==◌, ◌&&◌, some,
}
use mathlib.Core.Path.{subst}
use native.Mathlib.Nat.{mod-eq_of_lt}
use projects_demonstration.Word.{bit}
use projects_demonstration.Pmm.Layout.{Arch, width, page_sz, hdr_size}
use projects_demonstration.Pmm.Layout.Classes.{Class, bytes_pos}
use projects_demonstration.Pmm.Page.{Page, word, give}
use projects_demonstration.Pmm.Page.Bitmap.{IsPage, IsBlock, IsOpen, offset, offset-le}
use projects_demonstration.Pmm.Page.Give.{IsMisplaced, Gives, give-Gives}
use projects_demonstration.Pmm.Heap.{Heap, done, kfree_unsafe, kfree, after_kfree, page_of, sub_ptr}
use projects_demonstration.Pmm.Heap.Chain.{
  Pages, IsHeap, page_addr, page_at, block_addr, block_addr-lt, sub_ptr_lem, put_page,
  put_page-IsHeap, page_at-put, with_intr, intr-IsHeap,
}
use projects_demonstration.Pmm.Heap.Kalloc.{restored}

-- `s'` is `s` with block `j` of word `i` of page `k` given back.
pub record Frees (a : Arch) (s : Heap) (g : Pages) (s' : Heap) (k i j : ℕ) : Type 0 where
  pub kept : IsHeap a s' g
  pub bits :
      (m x y : ℕ)
      → bit (word (page_at s' m) x) y
        ≡ (if m == k && (x == i && y == j) then 1 else bit (word (page_at s m) x) y)
  pub same_area : (s'.start ≡ s.start) × (s'.end ≡ s.end) × (s'.ncpu ≡ s.ncpu)
  pub same_last : s'.last_page_addr ≡ s.last_page_addr
  pub same_intr : s'.intr ≡ s.intr

module _ {a : Arch} {s : Heap} {g : Pages} (h : IsHeap a s g) {k i j : ℕ} {c : Class}
    (lt : k < g.count) (ok : IsPage a c (page_at s k)) (b : IsBlock a c i j) where
  abbrev ptr : ℕ
  ptr = block_addr a s k c i j

  ptr-lt : ptr < 2 ^ width a
  ptr-lt = block_addr-lt h lt b

  page_of-ptr : page_of a s ptr ≡ page_addr s k
  page_of-ptr =
      let e : sub_ptr a ptr s.start / page_sz * page_sz + s.start ≡ page_addr s k =
        rw (sub_ptr_lem a ptr s.start (omega arith) ptr-lt)
          (omega (arith, offset-le a c i j b, bytes_pos c)) in
      rw e (mod-eq_of_lt (omega (arith, ptr-lt)))

  typed_ne : ((page_at s k).type == 0) ≡ false
  typed_ne = ground (arith, ok.typed, bytes_pos c)

  offset-ptr : sub_ptr a ptr (page_addr s k + hdr_size) ≡ offset a c i j
  offset-ptr = sub_ptr_lem a ptr (page_addr s k + hdr_size) (omega arith) ptr-lt ∙ omega arith

  module _ (placed : ¬ IsMisplaced a c i) where
    given :
        (p' : Page) × (give a (offset a c i j) (page_at s k) ≡ some p')
        × Gives a c (page_at s k) p' i j
    given = give-Gives ok b (h.opened k lt) placed

    abbrev put : Heap
    put =
        put_page h k lt given.2.kept
          (subst (λ lk. lk.locked ≡ 0) (sym given.2.same_lock) (h.opened k lt)) given.2.linked

    kfree_unsafe-put : kfree_unsafe a ptr s ≡ done put
    unfolding kfree_unsafe
    kfree_unsafe-put =
        rw (page_of-ptr, typed_ne, offset-ptr, given.1)
          (ap (λ x. done (record s { mem = update s.mem x given.0 })) page_of-ptr)

    abbrev opened' : IsOpen given.0
    opened' = subst (λ lk. lk.locked ≡ 0) (sym given.2.same_lock) (h.opened k lt)

    at_k : (m : ℕ) → m ≡ k → page_at put m ≡ given.0
    at_k m e = page_at-put h k lt given.2.kept opened' given.2.linked m ∙ ground arith

    at_rest : (m : ℕ) → m ≢ k → page_at put m ≡ page_at s m
    at_rest m e = page_at-put h k lt given.2.kept opened' given.2.linked m ∙ ground arith

    put_bits :
        (m x y : ℕ)
        → bit (word (page_at put m) x) y
          ≡ (if m == k && (x == i && y == j) then 1 else bit (word (page_at s m) x) y)
    put_bits m x y = elim (eq-cases m k) [
      | inl same ↦
          ap (λ (p : Page). bit (word p x) y) (at_k m same)
          ∙ given.2.bits x y
          ∙ rw same (ground arith)
      | inr other ↦ ap (λ (p : Page). bit (word p x) y) (at_rest m other) ∙ ground arith
    ]

    put-Frees : Frees a s g put k i j
    put-Frees = record {
      kept = put_page-IsHeap h k lt given.2.kept opened' given.2.linked;
      bits = put_bits;
      same_area = (refl, refl, refl);
      same_last = refl;
      same_intr = refl;
    }

module _ {a : Arch} {s : Heap} {g : Pages} where
  intr-Frees :
      {s' : Heap} {k i j : ℕ}
      → Frees a (with_intr false s) g s' k i j
      → Frees a s g (with_intr s.intr s') k i j
  intr-Frees t = record {
    kept = intr-IsHeap s.intr t.kept;
    bits = t.bits;
    same_area = t.same_area;
    same_last = t.same_last;
    same_intr = refl;
  }

  -- On a heap in order, `kfree` of the address of a block gives that block back and changes no other;
  -- the heap stays in order, with the interrupt flag as it was. It holds for every class and both
  -- pointer widths, but for the upper half of a page of blocks of 1024 bytes on 32 bits.
  pub kfree-Frees :
      IsHeap a s g
      → {k i j : ℕ} {c : Class} → k < g.count
      → IsPage a c (page_at s k)
      → IsBlock a c i j
      → ¬ IsMisplaced a c i
      → (s' : Heap) × (kfree a (block_addr a s k c i j) s ≡ done s') × Frees a s g s' k i j
  unfolding kfree
  kfree-Frees h {k} {i} {j} lt ok b placed =
      let h' = intr-IsHeap false h in
      (
        with_intr s.intr (put h' lt ok b placed),
        ap (after_kfree s.intr) (kfree_unsafe-put h' lt ok b placed)
            ∙ ap done (sym (restored s.intr (put h' lt ok b placed) refl)),
        intr-Frees (put-Frees h' lt ok b placed),
      )
