-- ===== src/Pmm/Heap/Separate.antt =====
-- `kalloc` hands out blocks that are apart from those in use: `kalloc` of OSkernel/kernel/src/pmm.c.
use projects_demonstration.Base.{ℕ, ◌≤◌, ◌<◌, ◌≡◌, ◌≢◌, ◌⊎◌, refl, sym, arith, inl, inr}
use mathlib.Core.Path.{subst}
use projects_demonstration.Pmm.Layout.{Arch, Undefined, ptr_bytes, up_pow2}
use projects_demonstration.Pmm.Layout.Classes.{Class, bytes}
use projects_demonstration.Pmm.Heap.{Heap, Run, done, waits, no_fuel, fault, kalloc}
use projects_demonstration.Pmm.Heap.Chain.{Pages, IsHeap, block_addr}
use projects_demonstration.Pmm.Heap.Alloc.{Allocated, null, block_at}
use projects_demonstration.Pmm.Heap.Kalloc.{kalloc-Allocated}
use projects_demonstration.Pmm.Heap.Blocks.{IsLive, Apart, Allocates-Apart}

-- A block at an address is in use, another one too, and they do not overlap.
pub record Separate (a : Arch) (s s' : Heap) (ptr size m : ℕ) (d : Class) (x y : ℕ) : Type 0 where
  pub pages : Pages
  pub kept : IsHeap a s' pages
  pub page : ℕ
  pub class : Class
  pub i : ℕ
  pub j : ℕ
  pub at_ptr : ptr ≡ block_addr a s' page class i j
  pub sized : size ≡ bytes class
  pub new_live : IsLive a s' pages page class i j
  pub old_live : IsLive a s' pages m d x y
  pub apart : Apart ptr size (block_addr a s m d x y) (bytes d)

module _ (a : Arch) (s : Heap) (g : Pages) (size m : ℕ) (d : Class) (x y : ℕ) where
  abbrev Separates : Run (ℕ × Heap) → Type 0
  Separates (done (ptr, s')) = (ptr ≡ 0) ⊎ Separate a s s' ptr size m d x y
  Separates waits = ⊥
  Separates no_fuel = ⊥
  Separates fault = ⊥

  Allocated-Separates :
      {c : Class} {cpu : ℕ} {r : Run (ℕ × Heap)}
      → size ≡ bytes c
      → IsLive a s g m d x y
      → Allocated a c cpu s g r
      → Separates r
  Allocated-Separates e l (null before full) = inl refl
  Allocated-Separates {c} e l (block_at {g'} k i j t) =
      let (new, old, apart) = Allocates-Apart t l in
      inr (record {
        pages = g';
        kept = t.kept;
        page = k;
        class = c;
        i = i;
        j = j;
        at_ptr = omega (arith, t.same_area.0);
        sized = e;
        new_live = new;
        old_live = old;
        apart =
            subst (λ n. Apart (block_addr a s k c i j) n (block_addr a s m d x y) (bytes d)) (sym e)
              apart;
      })

-- On a heap in order, let kalloc return an address that is not NULL for a request of 1 to 4096 bytes,
-- on 32 bits of more than 4, while another block is in use, of any class and any CPU. Then the
-- address is that of a block of UP_POW2 of the size that is in use now, the other block is still in
-- use, and the two do not overlap; the heap is in order.
pub kalloc-Apart :
    (u : Undefined) {a : Arch} {s s' : Heap} {g : Pages} (size cpu ptr m : ℕ) {d : Class} {x y : ℕ}
    → IsHeap a s g
    → cpu < s.ncpu
    → size ≢ 0
    → size ≤ 4096
    → (4 < ptr_bytes a) ⊎ (4 < size)
    → IsLive a s g m d x y
    → kalloc u a cpu size s ≡ done (ptr, s')
    → ptr ≢ 0
    → Separate a s s' ptr (up_pow2 u a size) m d x y
kalloc-Apart u {a} {s} {g} size cpu ptr m {d} {x} {y} h lt ne le wide l e not_null =
    let (c, sized, r) = kalloc-Allocated u size cpu h lt ne le wide in
    elim (subst (Separates a s g (up_pow2 u a size) m d x y) e
      (Allocated-Separates a s g (up_pow2 u a size) m d x y sized l r)) [
        | inl null_ptr ↦ absurd (not_null null_ptr)
        | inr separate ↦ separate
      ]
