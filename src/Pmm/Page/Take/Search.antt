-- ===== src/Pmm/Page/Take/Search.antt =====
-- The loop over the words of a page, and one round of the search of `kalloc_unsafe`.
use projects_demonstration.Base.{
  ℕ, zero, suc, ◌+◌, ◌-◌, ◌*◌, ◌<◌, ◌≡◌, ◌≢◌, ◌⊎◌, refl, true, arith, Option, none, some, ◌==◌, inl,
  inr, Bool-cases, sym, ap, ◌∙◌, not, eq-cases, ==→eq, ◌&&◌, if◌then◌else◌,
}
use mathlib.Core.Path.{subst}
use mathlib.Core.Path.{subst}
use projects_demonstration.Word.{bit, ctz}
use projects_demonstration.Word.Laws.{bit-zero}
use projects_demonstration.Pmm.Layout.{Arch, bits32, bits64, Undefined, width, ptr_bytes}
use projects_demonstration.Pmm.Layout.Classes.{Class, bytes, words, skip, bytes-injective}
use projects_demonstration.Pmm.Page.{Page, word, loc, scan, try_page, release}
use projects_demonstration.Pmm.Page.Bitmap.{IsPage, IsOpen, offset, padded_word, loc-ctz}
use projects_demonstration.Pmm.Page.Take.{
  Takes, IsEmpty, taken_page, taken_page-Takes, lowest, mask-zero_iff,
}

-- A search that found nothing, or took the first free block.
pub data Scanned (a : Arch) (c : Class) (p : Page) : Option ℕ × Page → Type 0 where
  nothing : IsEmpty a c p → Scanned a c p (none, p)
  took : {p' : Page} (i j : ℕ) → Takes a c p p' i j → Scanned a c p (some (offset a c i j), p')

block_offset : (a : Arch) (i l s : ℕ) → l * s + i * ptr_bytes a * 8 * s ≡ (l + i * width a) * s
block_offset bits32 i l s = grind arith
block_offset bits64 i l s = grind arith

module _ (u : Undefined) (a : Arch) (c : Class) {p : Page} (ok : IsPage a c p) where
  before_suc :
      {i : ℕ}
      → word p i ≡ 0
      → ((k l : ℕ) → k < i → bit (word p k) l ≡ 0)
      → (k l : ℕ) → k < i + 1
      → bit (word p k) l ≡ 0
  before_suc {i} zeroed before k l lt = elim (eq-cases k i) [
    | inl same ↦ rw (same, zeroed) (bit-zero l)
    | inr other ↦ before k l (omega arith)
  ]

  scanned_offset :
      (i : ℕ)
      → i < words a c
      → 0 < word p i
      → loc u a (word p i) (bytes c) * bytes c + i * ptr_bytes a * 8 * bytes c
        ≡ offset a c i (ctz (width a) (word p i))
  scanned_offset i lt pos =
      rw (loc-ctz u a c (word p i) (λ j. padded_word ok i j lt) pos (ok.raw.small i))
        (block_offset a i (ctz (width a) (word p i) - skip a c) (bytes c))

  pub scan-Scanned :
      (left i : ℕ)
      → i + left ≡ words a c
      → ((k l : ℕ) → k < i → bit (word p k) l ≡ 0)
      → Scanned a c p (scan u a (bytes c) left i p)
  unfolding scan
  scan-Scanned zero i e before = nothing (λ k l lt. before k l (omega arith))
  scan-Scanned (suc left) i e before = elim (Bool-cases (word p i == 0)) [
    | inl empty ↦
        rw (mask-zero_iff a (word p i) (ok.raw.small i), empty)
          (scan-Scanned left (i + 1) (omega arith) (before_suc (==→eq _ _ empty) before))
    | inr full ↦
        let lt : i < words a c = omega arith in
        let pos : 0 < word p i = ground arith in
        rw (mask-zero_iff a (word p i) (ok.raw.small i), full)
          (subst (λ o. Scanned a c p (some o, taken_page u a c i p)) (sym (scanned_offset i lt pos))
            (took i (lowest u a c ok i lt pos before) (taken_page-Takes u a c ok i lt pos before)))
  ]

-- Why a page gives no block: it is of another class, marked full, or has no free block.
abbrev pub Useless : Arch → Class → Page → Type 0
Useless a c p = (p.type ≢ bytes c) ⊎ ((p.is_full ≡ true) ⊎ IsEmpty a c p)

-- One round of the search: the page is left as it was, or its first free block is taken.
pub data Tried (a : Arch) (c : Class) (p : Page) : Option ℕ × Page → Type 0 where
  useless : Useless a c p → Tried a c p (none, p)
  useful :
      {p' : Page} (i j : ℕ)
      → Takes a c p p' i j
      → IsOpen p'
      → Tried a c p (some (offset a c i j), p')

abbrev relock : Option ℕ × Page → Option ℕ × Page
relock (res, p) = (res, record p { lock = release p.lock })

abbrev lock_page : Page → Page
lock_page p = record p { lock = record p.lock { locked = 1 } }

relock-lock_page : (res : Option ℕ) (p : Page) → IsOpen p → relock (res, lock_page p) ≡ (res, p)
unfolding release
relock-lock_page res p o = ground arith

lock_page-IsPage : {a : Arch} {c : Class} {p : Page} → IsPage a c p → IsPage a c (lock_page p)
lock_page-IsPage ok = record {
  raw = record { sized = ok.raw.sized; small = ok.raw.small };
  typed = ok.typed;
  padded = ok.padded;
  full = ok.full;
}

relock-Takes :
    {a : Arch} {c : Class} {p p' : Page} {i j : ℕ}
    → IsOpen p
    → Takes a c (lock_page p) p' i j
    → Takes a c p (record p' { lock = release p'.lock }) i j
unfolding release
relock-Takes o t = record {
  block = t.block;
  was_free = t.was_free;
  first = t.first;
  bits = t.bits;
  kept = record {
    raw = record { sized = t.kept.raw.sized; small = t.kept.raw.small };
    typed = t.kept.typed;
    padded = t.kept.padded;
    full = t.kept.full;
  };
  linked = t.linked;
  same_lock = rw t.same_lock (ground arith);
  same_type = t.same_type;
}

module _ (u : Undefined) (a : Arch) (c d : Class) {p : Page} (ok : IsPage a d p)
    (o : IsOpen p) where
  try_page-locked :
      (r : Option ℕ × Page)
      → (if p.type == bytes c && not p.is_full
          then scan u a (bytes c) (words a c) 0 (lock_page p)
          else (none, lock_page p))
        ≡ r
      → try_page u a (bytes c) p ≡ some (relock r)
  unfolding try_page
  try_page-locked r e = rw (o, try_page) (ap (λ x. some (relock x)) e)

  Scanned-Tried : {r : Option ℕ × Page} → Scanned a c (lock_page p) r → Tried a c p (relock r)
  Scanned-Tried (nothing e) = rw (relock-lock_page none p o) (useless (inr (inr e)))
  Scanned-Tried (took i j t) = useful i j (relock-Takes o t) (unfold release in refl)

  -- One round of the search in `kalloc_unsafe` comes back with the lock free.
  pub try_page-Tried : (r : Option ℕ × Page) × (try_page u a (bytes c) p ≡ some r) × Tried a c p r
  try_page-Tried = elim (Bool-cases (p.type == bytes c && not p.is_full)) [
    | inl go ↦
        let e : d ≡ c = bytes-injective d c (ground (arith, ok.typed)) in
        let ok' : IsPage a c p = subst (λ x. IsPage a x p) e ok in
        let s =
          scan-Scanned u a c (lock_page-IsPage ok') (words a c) 0 (omega arith)
            (λ k l lt. absurd (omega arith)) in
        (
          relock (scan u a (bytes c) (words a c) 0 (lock_page p)),
          try_page-locked _ (rw go),
          Scanned-Tried s,
        )
    | inr stop ↦ (
      (none, p),
      try_page-locked (none, lock_page p) (rw stop) ∙ ap some (relock-lock_page none p o),
      useless (ground arith),
    )
  ]
