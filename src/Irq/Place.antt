-- ===== src/Irq/Place.antt =====
-- The place that the loop of `os_on_irq` finds, in OSkernel/kernel/src/os.c, and the ring behind the
-- insertion.
use projects_demonstration.Base.{
  ℕ, zero, suc, ◌≤◌, ◌<◌, ◌≡◌, ◌≢◌, refl, sym, true, false, List, [], ◌∷◌, ◌==◌, leb, length,
  update, eq→==, ne→==, arith, Fresh,
}
use native.Mathlib.Decide.{dec_lt}
use projects_demonstration.Irq.{Wrapper, Irq, returns, link_after, belongs_after, insert_from}
use projects_demonstration.Irq.Ring.{Seg, Ordered, Seg-update}

-- `ys` is `xs` with `x` put in at one place.
pub data Inserts (x : ℕ) : List ℕ → List ℕ → Type 0 where
  first : {xs : List ℕ} → Inserts x xs (x ∷ xs)
  later : {y : ℕ} {xs ys : List ℕ} → Inserts x xs ys → Inserts x (y ∷ xs) (y ∷ ys)

module _ {S C : Type 0} where
  -- The place that the loop finds: behind a wrapper `c` that is not above `seq`, and before wrappers
  -- that are not below it.
  pub data Placed (mem : ℕ → Wrapper S C) (seq x c : ℕ) : List ℕ → List ℕ → Type 0 where
    here :
        {post : List ℕ}
        → (mem c).seq ≤ seq
        → Ordered mem seq post
        → Placed mem seq x c (c ∷ post) (c ∷ x ∷ post)
    there :
        {y : ℕ} {xs ys : List ℕ} → Placed mem seq x c xs ys → Placed mem seq x c (y ∷ xs) (y ∷ ys)

  pub Placed-Inserts :
      {mem : ℕ → Wrapper S C} {seq x c : ℕ} {xs ys : List ℕ}
      → Placed mem seq x c xs ys
      → Inserts x xs ys
  Placed-Inserts (here le o) = later first
  Placed-Inserts (there p) = later (Placed-Inserts p)

  pub Placed-ne :
      {mem : ℕ → Wrapper S C} {seq x c y : ℕ} {xs ys : List ℕ}
      → Placed mem seq x c xs ys
      → Fresh y xs
      → y ≢ c
  Placed-ne (here le o) (ne, f) = ne
  Placed-ne (there p) (ne, f) = Placed-ne p f

  pub Placed-Fresh :
      {mem : ℕ → Wrapper S C} {seq x c y : ℕ} {xs ys : List ℕ}
      → Placed mem seq x c xs ys
      → y ≢ x
      → Fresh y xs
      → Fresh y ys
  Placed-Fresh (here le o) ne (nc, f) = (nc, (ne, f))
  Placed-Fresh (there p) ne (ny, f) = (ny, Placed-Fresh p ne f)

  pub Placed-Ordered :
      {mem : ℕ → Wrapper S C} {x c : ℕ} {xs ys : List ℕ} (last : ℕ)
      → Placed mem (mem x).seq x c xs ys
      → Ordered mem last xs
      → Ordered mem last ys
  Placed-Ordered last (here le o) (lo, _) = (lo, (le, o))
  Placed-Ordered {mem} last (there {y} p) (lo, o) = (lo, Placed-Ordered (mem y).seq p o)

  pub Ordered-same :
      (mem mem' : ℕ → Wrapper S C) (last : ℕ) (xs : List ℕ)
      → ((k : ℕ) → (mem' k).seq ≡ (mem k).seq)
      → Ordered mem last xs
      → Ordered mem' last xs
  Ordered-same mem mem' last [] e o = tt
  Ordered-same mem mem' last (x ∷ xs) e (le, o) =
      rw (e x) (le, Ordered-same mem mem' (mem x).seq xs e o)

  module _ (s : Irq S C) (x : ℕ) where
    pub linked_seq : (c k : ℕ) → ((link_after x c s).mem k).seq ≡ (s.mem k).seq
    linked_seq c k = ground arith

    pub linked_self : (c : ℕ) → x ≢ c → ((link_after x c s).mem x).next ≡ (s.mem c).next
    linked_self c ne = ground arith

    pub linked_at : (c : ℕ) → ((link_after x c s).mem c).next ≡ x
    linked_at c = ground arith

    pub linked_other : (c k : ℕ) → k ≢ x → k ≢ c → ((link_after x c s).mem k).next ≡ (s.mem k).next
    linked_other c k nx nc = ground arith

    pub linked_Seg :
        (c cur : ℕ) (xs : List ℕ)
        → Fresh x xs
        → Fresh c xs
        → Seg s.mem s.head cur xs
        → Seg (link_after x c s).mem s.head cur xs
    linked_Seg c cur xs fx fc seg =
        let w : Wrapper S C = record (s.mem x) { next = (s.mem c).next } in
        Seg-update (update s.mem x w) s.head cur c (record (update s.mem x w c) { next = x }) xs fc
          (Seg-update s.mem s.head cur x w xs fx seg)

    pub Placed-Seg :
        {seq c : ℕ} {xs ys : List ℕ} (cur : ℕ)
        → x ≢ s.head
        → Placed s.mem seq x c xs ys
        → Fresh x xs
        → Seg s.mem s.head cur xs
        → Seg (link_after x c s).mem s.head cur ys
    Placed-Seg {c} cur off (here {post} le o) (nc, fx) (e, nh, fc, seg) = (
      e,
      nh,
      (λ q. nc (sym q), fc),
      (linked_at c, off, fx, rw (linked_self c nc) (linked_Seg c (s.mem c).next post fx fc seg)),
    )
    Placed-Seg {c} cur off (there {y} p) (ny, fx) (e, nh, fy, seg) = (
      e,
      nh,
      Placed-Fresh p (λ q. ny (sym q)) fy,
      rw (linked_other c y (λ q. ny (sym q)) (Placed-ne p fy))
          (Placed-Seg (s.mem y).next off p fx seg),
    )

    -- The loop finds a place, if the first wrapper is not above the new one.
    pub insert_from-Placed :
        (seq fuel cur y : ℕ) (xs : List ℕ)
        → length (y ∷ xs) < fuel
        → Seg s.mem s.head cur (y ∷ xs)
        → Ordered s.mem (s.mem y).seq xs
        → (s.mem y).seq ≤ seq
        → (c : ℕ) × (ys : List ℕ) × Placed s.mem seq x c (y ∷ xs) ys
          × (insert_from fuel x seq cur s ≡ returns (link_after x c s))
    unfolding insert_from belongs_after
    insert_from-Placed seq zero cur y xs lt seg o le = absurd (omega arith)
    insert_from-Placed seq (suc fuel) cur y [] lt (e, off, f, seg) o le =
        let ne : (y == s.head) ≡ false = ne→== y s.head off in
        let at : ((s.mem y).next == s.head) ≡ true = eq→== (s.mem y).next s.head seg in
        let up : leb (s.mem y).seq seq ≡ true = ground arith in
        (y, y ∷ x ∷ [], here le tt, rw (e, ne, up, at) (ground arith))
    insert_from-Placed seq (suc fuel) cur y (z ∷ zs) lt (e, off, f, (e', off', f', seg)) (lo, o)
          le =
        let ne : (y == s.head) ≡ false = ne→== y s.head off in
        let at : ((s.mem y).next == s.head) ≡ false = rw e' (ne→== z s.head off') in
        let up : leb (s.mem y).seq seq ≡ true = ground arith in
        elim (dec_lt (s.mem z).seq seq) [
          | yes below ↦
              let more : leb seq (s.mem (s.mem y).next).seq ≡ false = rw e' (ground arith) in
              let (c, ys, p, run) =
                insert_from-Placed seq fuel (s.mem y).next z zs (omega arith) (e', off', f', seg) o
                  (omega arith) in
              (c, y ∷ ys, there p, rw (e, ne, up, more, at) run)
          | no above ↦
              let more : leb seq (s.mem (s.mem y).next).seq ≡ true = rw e' (ground arith) in
              (y, y ∷ x ∷ z ∷ zs, here le (omega arith, o), rw (e, ne, up, more) refl)
        ]
