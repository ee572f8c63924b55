-- ===== src/Pmm/Heap/Kalloc.antt =====
-- `kalloc`, the entry with the interrupts off, and the least class for a size.
use projects_demonstration.Base.{
  ℕ, ◌≤◌, ◌<◌, ◌≡◌, ◌≢◌, ◌⊎◌, refl, sym, ap, Bool, true, false, if◌then◌else◌,
}
use mathlib.Core.Path.{subst}
use projects_demonstration.Pmm.Layout.{Arch, Undefined, ptr_bytes, up_pow2}
use projects_demonstration.Pmm.Layout.Classes.{Class, bytes}
use projects_demonstration.Pmm.Layout.Pow2.{up_pow2-class}
use projects_demonstration.Pmm.Heap.{Heap, Run, done, after_kalloc, kalloc}
use projects_demonstration.Pmm.Heap.Chain.{Pages, IsHeap, block_addr, with_intr, intr-IsHeap}
use projects_demonstration.Pmm.Heap.Alloc.{
  Allocates, Allocated, null, block_at, kalloc_unsafe-Allocated,
}

pub restored :
    (b : Bool) (s : Heap) → s.intr ≡ false → with_intr b s ≡ (if b then with_intr true s else s)
restored true s e = refl
restored false s e = ap (λ b. with_intr b s) (sym e)

module _ {a : Arch} {c : Class} {cpu : ℕ} {s : Heap} {g : Pages} where
  intr-Allocates :
      {s' : Heap} {g' : Pages} {k i j : ℕ}
      → Allocates a c cpu (with_intr false s) g s' g' k i j
      → Allocates a c cpu s g (with_intr s.intr s') g' k i j
  intr-Allocates t = record {
    kept = intr-IsHeap s.intr t.kept;
    in_heap = t.in_heap;
    grows = t.grows;
    owned = t.owned;
    class = t.class;
    block = t.block;
    was_free = t.was_free;
    first_fit = t.first_fit;
    first_bit = t.first_bit;
    new_free = t.new_free;
    taken = t.taken;
    others = t.others;
    same_area = t.same_area;
    same_intr = refl;
    same_classes = t.same_classes;
  }

  intr-Allocated :
      {r : Run (ℕ × Heap)}
      → Allocated a c cpu (with_intr false s) g r
      → Allocated a c cpu s g (after_kalloc s.intr r)
  unfolding after_kalloc
  intr-Allocated (null before full) =
      subst (λ x. Allocated a c cpu s g (done (0, x))) (restored s.intr (with_intr false s) refl)
        (null before full)
  intr-Allocated (block_at {s'} k i j t) =
      subst (λ x. Allocated a c cpu s g (done (block_addr a s k c i j, x)))
        (restored s.intr s' t.same_intr) (block_at k i j (intr-Allocates t))

pub kalloc-Allocated :
    (u : Undefined) {a : Arch} {s : Heap} {g : Pages} (size cpu : ℕ)
    → IsHeap a s g
    → cpu < s.ncpu
    → size ≢ 0
    → size ≤ 4096
    → (4 < ptr_bytes a) ⊎ (4 < size)
    → (c : Class) × (up_pow2 u a size ≡ bytes c) × Allocated a c cpu s g (kalloc u a cpu size s)
unfolding kalloc
kalloc-Allocated u {a} size cpu h lt ne le wide =
    let (c, e) = up_pow2-class u a size le wide in
    (c, e, intr-Allocated (kalloc_unsafe-Allocated u c (intr-IsHeap false h) cpu lt size ne e))
