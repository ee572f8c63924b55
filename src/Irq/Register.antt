-- ===== src/Irq/Register.antt =====
-- `os_on_irq` inserts the new wrapper into the ring and keeps it in order.
use projects_demonstration.Base.{
  ℕ, zero, suc, ◌≤◌, ◌<◌, ◌≡◌, ◌≢◌, refl, ap, sym, ◌∙◌, true, false, List, [], ◌∷◌, ◌==◌, leb,
  length, update, update-ne, eq→==, ne→==, arith, Option, Fresh,
}
use projects_demonstration.Irq.{
  Wrapper, Irq, returns, link_after, belongs_after, insert_from, register, os_on_irq,
}
use projects_demonstration.Irq.Ring.{
  Seg, Ordered, IsRing, Seg-update, Ordered-update, check_seq-IsRing,
}
use projects_demonstration.Irq.Place.{
  Inserts, first, Placed, Placed-Inserts, Placed-ne, Placed-Ordered, Ordered-same, linked_seq,
  linked_self, linked_at, linked_other, Placed-Seg, insert_from-Placed,
}

module _ {S C : Type 0} where
  -- What a registration does: the wrapper `x` is in the ring, with its fields, and the wrappers that
  -- were there keep theirs.
  pub record Registers (s s' : Irq S C) (xs ys : List ℕ) (x seq event : ℕ)
      (handler : ℕ → Option C → S → Option C × S) : Type 0 where
    pub ring : IsRing s' ys
    pub inserted : Inserts x xs ys
    pub has_seq : (s'.mem x).seq ≡ seq
    pub has_event : (s'.mem x).event ≡ event
    pub has_handler : (s'.mem x).handler ≡ handler
    pub same_seq : (k : ℕ) → k ≢ x → (s'.mem k).seq ≡ (s.mem k).seq
    pub same_event : (k : ℕ) → k ≢ x → (s'.mem k).event ≡ (s.mem k).event
    pub same_handler : (k : ℕ) → k ≢ x → (s'.mem k).handler ≡ (s.mem k).handler
    pub same_head : s'.head ≡ s.head

  -- The ring is empty, or its first wrapper is not above `seq`.
  abbrev pub Admits : Irq S C → ℕ → List ℕ → Type 0
  Admits s seq [] = Unit
  Admits s seq (y ∷ ys) = (s.mem y).seq ≤ seq

  module _ (s : Irq S C) (x seq event : ℕ) (handler : ℕ → Option C → S → Option C × S) where
    made : Wrapper S C
    made = record (s.mem x) { event = event; handler = handler; seq = seq }

    abbrev stored : Irq S C
    stored = record s { mem = update s.mem x made }

    stored_seq : (stored.mem x).seq ≡ seq
    unfolding made
    stored_seq = ground arith

    stored-IsRing : {xs : List ℕ} → x ≢ s.head → Fresh x xs → IsRing s xs → IsRing stored xs
    stored-IsRing {xs} off f r =
        let ne : s.head ≢ x = λ e. off (sym e) in
        record {
          linked =
              rw (update-ne s.mem x s.head made ne)
                (Seg-update s.mem s.head (s.mem s.head).next x made xs f r.linked);
          ordered = Ordered-update s.mem 0 x made xs f r.ordered;
          head_seq = rw (update-ne s.mem x s.head made ne) r.head_seq;
        }

    placed-Registers :
        (xs ys : List ℕ) (c : ℕ)
        → IsRing (link_after x c stored) ys
        → Inserts x xs ys
        → Registers s (link_after x c stored) xs ys x seq event handler
    unfolding made
    placed-Registers xs ys c r i = record {
      ring = r;
      inserted = i;
      has_seq = ground arith;
      has_event = ground arith;
      has_handler = ground arith;
      same_seq = λ k ne. ground arith;
      same_event = λ k ne. ground arith;
      same_handler = λ k ne. ground arith;
      same_head = refl;
    }

    first-IsRing : x ≢ s.head → IsRing stored [] → IsRing (link_after x s.head stored) (x ∷ [])
    first-IsRing off r = record {
      linked = (linked_at stored x s.head, off, tt, linked_self stored x s.head off ∙ r.linked);
      ordered = (omega arith, tt);
      head_seq = linked_seq stored x s.head s.head ∙ r.head_seq;
    }

    -- The ring after the loop has found its place.
    Placed-IsRing :
        {c : ℕ} {xs ys : List ℕ}
        → x ≢ s.head
        → Fresh x xs
        → Fresh s.head xs
        → Placed stored.mem seq x c xs ys
        → IsRing stored xs
        → IsRing (link_after x c stored) ys
    Placed-IsRing {c} {xs} {ys} off f fh p r =
        let p' : Placed stored.mem (stored.mem x).seq x c xs ys = rw stored_seq p in
        let at_head = linked_other stored x c s.head (λ e. off (sym e)) (Placed-ne p fh) in
        record {
          linked = rw at_head (Placed-Seg stored x (stored.mem s.head).next off p f r.linked);
          ordered =
              Ordered-same stored.mem (link_after x c stored).mem 0 ys (linked_seq stored x c)
                (Placed-Ordered 0 p' r.ordered);
          head_seq = linked_seq stored x c s.head ∙ r.head_seq;
        }

    Seg-off :
        (mem : ℕ → Wrapper S C) (head cur : ℕ) (xs : List ℕ) → Seg mem head cur xs → Fresh head xs
    Seg-off mem head cur [] seg = tt
    Seg-off mem head cur (y ∷ ys) (e, off, f, seg) =
        ((λ q. off (sym q)), Seg-off mem head (mem y).next ys seg)

    register-Registers :
        (fuel : ℕ) (xs : List ℕ)
        → length xs < fuel
        → x ≢ s.head
        → Fresh x xs
        → IsRing s xs
        → Admits s seq xs
        → (s' : Irq S C) × (ys : List ℕ) × (register fuel x seq event handler s ≡ returns s')
          × Registers s s' xs ys x seq event handler
    unfolding register made
    register-Registers fuel [] lt off f r a =
        let r' = stored-IsRing off f r in
        let at : ((stored.mem s.head).next == s.head) ≡ true =
          eq→== (stored.mem s.head).next s.head r'.linked in
        (
          link_after x s.head stored,
          x ∷ [],
          rw at refl,
          placed-Registers [] (x ∷ []) s.head (first-IsRing off r') first,
        )
    register-Registers fuel (y ∷ ys) lt off f r a =
        let r' = stored-IsRing off f r in
        let (e, nh, fy, seg) = r'.linked in
        let at : ((stored.mem s.head).next == s.head) ≡ false = rw e (ne→== y s.head nh) in
        let same : (stored.mem y).seq ≡ (s.mem y).seq =
          ap (λ (w : Wrapper S C). w.seq) (update-ne s.mem x y made (λ q. f.0 (sym q))) in
        let (c, zs, p, run) =
          insert_from-Placed stored x seq fuel (stored.mem s.head).next y ys lt r'.linked
            r'.ordered.1 (omega arith) in
        (
          link_after x c stored,
          zs,
          rw at run,
          placed-Registers (y ∷ ys) zs c
              (Placed-IsRing off f
                (Seg-off stored.mem s.head (stored.mem s.head).next (y ∷ ys) r'.linked) p r')
              (Placed-Inserts p),
        )

    -- Below every handler, the loop runs to the end of the ring and links nothing.
    insert_from-above :
        (fuel cur : ℕ) (xs : List ℕ)
        → length xs < fuel
        → Seg stored.mem s.head cur xs
        → Ordered stored.mem (suc seq) xs
        → insert_from fuel x seq cur stored ≡ returns stored
    unfolding insert_from belongs_after
    insert_from-above zero cur xs lt seg o = absurd (omega arith)
    insert_from-above (suc fuel) cur [] lt seg o = rw (eq→== cur s.head seg) refl
    insert_from-above (suc fuel) cur (y ∷ ys) lt (e, nh, f, seg) (le, o) =
        let ne : (y == s.head) ≡ false = ne→== y s.head nh in
        let up : leb (stored.mem y).seq seq ≡ false = ground arith in
        rw (e, ne, up)
          (insert_from-above fuel (stored.mem y).next ys (omega arith) seg
            (lower ys (stored.mem y).seq le o))
      where
        lower :
            (zs : List ℕ) (lo : ℕ)
            → suc seq ≤ lo
            → Ordered stored.mem lo zs
            → Ordered stored.mem (suc seq) zs
        lower [] lo le o = tt
        lower (z ∷ zs) lo le (up, o) = (omega arith, o)

  -- On a ring in order, registering a wrapper that is not in it returns, with enough fuel to pass the
  -- ring; if the ring is empty or its first handler is not above `seq`, the wrapper is put in at one
  -- place with its fields, the ring stays in order of `seq`, and the other wrappers keep theirs.
  pub os_on_irq-Registers :
      (s : Irq S C) (x seq event : ℕ) (handler : ℕ → Option C → S → Option C × S) (fuel : ℕ)
      {xs : List ℕ}
      → length xs < fuel
      → x ≢ s.head
      → Fresh x xs
      → IsRing s xs
      → Admits s seq xs
      → (s' : Irq S C) × (ys : List ℕ) × (os_on_irq fuel x seq event handler s ≡ returns s')
        × Registers s s' xs ys x seq event handler
  unfolding os_on_irq
  os_on_irq-Registers s x seq event handler fuel {xs} lt off f r a =
      let (s', ys, run, done) = register-Registers s x seq event handler fuel xs lt off f r a in
      (s', ys, rw (check_seq-IsRing fuel lt r) run, done)

  -- On a ring in order whose first handler is above `seq`, registering returns with the ring as it
  -- was: the new handler is not in it.
  pub os_on_irq_dropped :
      (s : Irq S C) (x seq event : ℕ) (handler : ℕ → Option C → S → Option C × S) (fuel y : ℕ)
      {xs : List ℕ}
      → length (y ∷ xs) < fuel
      → x ≢ s.head
      → Fresh x (y ∷ xs)
      → IsRing s (y ∷ xs)
      → seq < (s.mem y).seq
      → (s' : Irq S C) × (os_on_irq fuel x seq event handler s ≡ returns s')
        × IsRing s' (y ∷ xs)
        × (s'.head ≡ s.head)
  unfolding os_on_irq register made
  os_on_irq_dropped s x seq event handler fuel y {xs} lt off f r above =
      let r' = stored-IsRing s x seq event handler off f r in
      let s' = stored s x seq event handler in
      let at : ((s'.mem s.head).next == s.head) ≡ false =
        rw r'.linked.0 (ne→== y s.head r'.linked.1) in
      let same : (s'.mem y).seq ≡ (s.mem y).seq =
        ap (λ (w : Wrapper S C). w.seq)
          (update-ne s.mem x y (made s x seq event handler) (λ q. f.0 (sym q))) in
      (
        s',
        rw (check_seq-IsRing fuel lt r, at)
            (insert_from-above s x seq event handler fuel (s'.mem s.head).next (y ∷ xs) lt r'.linked
              (omega arith, r'.ordered.1)),
        r',
        refl,
      )
