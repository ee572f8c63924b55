-- ===== src/Nemu/Watch/Give.antt =====
-- `free_wp` takes a node out of those in use and puts it among the free ones.
use mathlib.Core.Path.{subst}
use projects_demonstration.Base.{
  ℕ, suc, ◌-◌, ◌≤◌, ◌≡◌, ◌≢◌, refl, ap, sym, ◌∙◌, true, false, List, [], ◌∷◌, ◌++◌, Option, none,
  some, inl, inr, arith, length, length-append, Fresh, Distinct, In, In-ne, update, update-ne, ltb,
  ◌==◌, if◌then◌else◌,
}
use projects_demonstration.Nemu.Watch.{
  WpPool, nr_wp, deref, before_wp, unlink, place_wp, link_free, free_wp,
}
use projects_demonstration.Nemu.Watch.Links.{
  Links, IsPool, Links-same, In-left, In-right, Fresh-left, Fresh-right, Distinct-apart,
  Distinct-left, Distinct-right, last, last-In,
}
use projects_demonstration.Nemu.Watch.Place.{
  place, spot, spot-In, linked, linked-ne, place-Links, place_wp-spot, cut, cut-ne, cut-Links,
  before_wp-last,
}
use projects_demonstration.Nemu.Watch.Moves.{
  Moves, Moves-trans, Moves-path, append_assoc, lift-Moves, place-Moves,
}

-- The node `x` is in neither of the lists, and still counted.
record HalfPool (w : WpPool) (used : List ℕ) (x : ℕ) (free : List ℕ) : Type 0 where
  used_links : Links w.next w.head used
  free_links : Links w.next w.free_ free
  distinct : Distinct (x ∷ (used ++ free))
  count : w.count_used ≡ suc (length used)
  complete : length (x ∷ (used ++ free)) ≡ nr_wp
  numbers : (a : ℕ) → In a (x ∷ (used ++ free)) → w.no a ≡ a

data Unlinks (used : List ℕ) (x : ℕ) (free : List ℕ) : Option WpPool → Type 0 where
  unlinks : (w : WpPool) → HalfPool w used x free → Unlinks used x free (some w)

-- A node was given back: the pool is in order with these lists.
pub data Gives (used free : List ℕ) : Option WpPool → Type 0 where
  gives : (w : WpPool) → IsPool w used free → Gives used free (some w)

module _ (w : WpPool) (us : List ℕ) (x : ℕ) (vs free : List ℕ)
    (h : IsPool w (us ++ (x ∷ vs)) free) where
  taken_out : Moves ((us ++ (x ∷ vs)) ++ free) (x ∷ ((us ++ vs) ++ free))
  taken_out = Moves-trans (Moves-path (append_assoc us (x ∷ vs) free)) (
      Moves-trans (lift-Moves x us (vs ++ free))
        (Moves-path (ap (λ l. x ∷ l) (sym (append_assoc us vs free)))))

  free_ne : {b : ℕ} → In b (us ++ (x ∷ vs)) → (a : ℕ) → In a free → a ≢ b
  free_ne i a j q = Distinct-apart (us ++ (x ∷ vs)) free h.distinct i j (sym q)

  half :
      (w1 : WpPool)
      → Links w1.next w1.head (us ++ vs)
      → Links w1.next w1.free_ free
      → w1.count_used ≡ w.count_used
      → w1.no ≡ w.no
      → HalfPool w1 (us ++ vs) x free
  half w1 l r c n = record {
    used_links = l;
    free_links = r;
    distinct = taken_out.distinct h.distinct;
    count = c ∙ h.count ∙ sym ((lift-Moves x us vs).same_length);
    complete = taken_out.same_length ∙ h.complete;
    numbers = λ a i. ap (λ f. f a) n ∙ h.numbers a (taken_out.members a i);
  }

-- The node is the first of those in use.
unlink_first :
    (w : WpPool) (x : ℕ) (vs free : List ℕ)
    → IsPool w (x ∷ vs) free
    → Unlinks vs x free (unlink w x)
unlink_first w x vs free h = subst (Unlinks vs x free) (sym unlinked) (unlinks after_cut in_order)
  where
    after_cut : WpPool
    after_cut = record w { head = w.next x; next = update w.next x none }

    unlinked : unlink w x ≡ some after_cut
    unlinked =
        ap
          (λ p. deref p (λ first.
            if w.no first == w.no x
            then some (record w { head = w.next first; next = update w.next first none })
            else deref (before_wp nr_wp w (w.no x) first) (λ temp_p.
              some (record w { next = update (update w.next temp_p (w.next x)) x none }))))
          (h.used_links.0)
        ∙ ap
            (λ b.
              if b
              then some after_cut
              else deref (before_wp nr_wp w (w.no x) x) (λ temp_p.
                some (record w { next = update (update w.next temp_p (w.next x)) x none })))
            {x = w.no x == w.no x} {y = true} (ground arith)

    in_order : HalfPool after_cut vs x free
    in_order =
        half w [] x vs free h after_cut
          (Links-same (w.next x) vs
            (λ a i. update-ne w.next x a none (λ q.
              Distinct-apart (x ∷ []) (vs ++ free) h.distinct (inl refl) (In-left a vs free i)
                (sym q)))
            (h.used_links.1))
          (Links-same w.free_ free
            (λ a i. update-ne w.next x a none (free_ne w [] x vs free h (inl refl) a i))
            h.free_links)
          refl refl

-- Another one is.
unlink_later :
    (w : WpPool) (y : ℕ) (ys : List ℕ) (x : ℕ) (vs free : List ℕ)
    → IsPool w ((y ∷ ys) ++ (x ∷ vs)) free
    → Unlinks ((y ∷ ys) ++ vs) x free (unlink w x)
unfolding nr_wp
unlink_later w y ys x vs free h =
    subst (Unlinks ((y ∷ ys) ++ vs) x free) (sym unlinked) (unlinks after_cut in_order)
  where
    after_cut : WpPool
    after_cut = record w { next = cut w.next x (last y ys) }

    whole : Moves (((y ∷ ys) ++ (x ∷ vs)) ++ free) (x ∷ (((y ∷ ys) ++ vs) ++ free))
    whole = taken_out w (y ∷ ys) x vs free h

    in_list : (a : ℕ) → In a ((y ∷ ys) ++ (x ∷ vs)) → w.no a ≡ a
    in_list a i = h.numbers a (In-left a ((y ∷ ys) ++ (x ∷ vs)) free i)

    x_In : In x ((y ∷ ys) ++ (x ∷ vs))
    x_In = In-right x (y ∷ ys) (x ∷ vs) (inl refl)

    x-Fresh : Fresh x ((y ∷ ys) ++ (vs ++ free))
    x-Fresh = subst (Fresh x) (append_assoc (y ∷ ys) vs free) ((whole.distinct h.distinct).0)

    other : (w.no y == w.no x) ≡ false
    other = differ (in_list y (inl refl)) (in_list x x_In) (x-Fresh.0)
      where
        differ : {a b : ℕ} → a ≡ y → b ≡ x → x ≢ y → (a == b) ≡ false
        differ e f ne = ground arith

    found : before_wp nr_wp w (w.no x) y ≡ some (last y ys)
    found =
        ap (λ d. before_wp nr_wp w d y) (in_list x x_In)
        ∙ before_wp-last w x y 31 ys vs (h.used_links.1) (λ a i. in_list a (inr i))
            ((Fresh-left x (y ∷ ys) (vs ++ free) x-Fresh).1) short
      where
        short : length ys ≤ 31
        short = omega (
          arith,
          h.complete,
          length-append ((y ∷ ys) ++ (x ∷ vs)) free,
          length-append (y ∷ ys) (x ∷ vs),
        )

    unlinked : unlink w x ≡ some after_cut
    unlinked =
        ap
          (λ p. deref p (λ first.
            if w.no first == w.no x
            then some (record w { head = w.next first; next = update w.next first none })
            else deref (before_wp nr_wp w (w.no x) first) (λ temp_p.
              some (record w { next = update (update w.next temp_p (w.next x)) x none }))))
          (h.used_links.0)
        ∙ ap
            (λ b.
              if b
              then some (record w { head = w.next y; next = update w.next y none })
              else deref (before_wp nr_wp w (w.no x) y) (λ temp_p.
                some (record w { next = update (update w.next temp_p (w.next x)) x none })))
            other
        ∙ ap
            (λ p. deref p (λ temp_p.
              some (record w { next = update (update w.next temp_p (w.next x)) x none })))
            found

    in_order : HalfPool after_cut ((y ∷ ys) ++ vs) x free
    in_order =
        half w (y ∷ ys) x vs free h after_cut
          (cut-Links w.next w.head y x ys vs h.used_links
            (Distinct-left ((y ∷ ys) ++ (x ∷ vs)) free h.distinct))
          (Links-same w.free_ free
            (λ a i. cut-ne w.next x (last y ys) a (free_ne w (y ∷ ys) x vs free h x_In a i) (
              free_ne w (y ∷ ys) x vs free h (In-left (last y ys) (y ∷ ys) (x ∷ vs) (last-In y ys))
                a i))
            h.free_links)
          refl refl

module _ (w : WpPool) (used : List ℕ) (x f g : ℕ) (fs : List ℕ)
    (h : HalfPool w used x (f ∷ g ∷ fs)) where
  abbrev at : ℕ
  at = spot x f (g ∷ fs)

  abbrev put : WpPool
  put = record w { next = linked w.next x at; count_used = w.count_used - 1 }

  x_off : Fresh x (used ++ (f ∷ g ∷ fs))
  x_off = h.distinct.0

  put-IsPool : IsPool put used (f ∷ place x (g ∷ fs))
  put-IsPool = record {
    used_links =
        Links-same w.head used
          (λ a i.
            linked-ne w.next x at a (In-ne used (Fresh-left x used (f ∷ g ∷ fs) x_off) i)
              (Distinct-apart used (f ∷ g ∷ fs) (h.distinct.1) i (spot-In x f (g ∷ fs))))
          h.used_links;
    free_links =
        place-Links w.next w.free_ x f (g ∷ fs) h.free_links
          (Distinct-right used (f ∷ g ∷ fs) (h.distinct.1)) (Fresh-right x used (f ∷ g ∷ fs) x_off);
    distinct = moved.distinct h.distinct;
    count = omega (arith, h.count);
    complete = moved.same_length ∙ h.complete;
    numbers = λ a i. h.numbers a (moved.members a i);
  }
    where
      moved : Moves (x ∷ (used ++ (f ∷ g ∷ fs))) (used ++ (f ∷ place x (g ∷ fs)))
      moved = place-Moves x f used (g ∷ fs)

  link_free-put : link_free w x ≡ some (record w { next = linked w.next x at })
  unfolding nr_wp
  link_free-put =
      ap (λ p. deref p linked_at) (h.free_links.0)
      ∙ ap (λ o. elim o [ none ↦ alone | some q ↦ deref (place_wp nr_wp w (w.no x) f) behind ])
          (h.free_links.1.0)
      ∙ ap (λ p. deref p behind)
          (ap (λ d. place_wp nr_wp w d f) (h.numbers x (inl refl))
            ∙ place_wp-spot w x f 31 (g ∷ fs) (h.free_links.1)
                (λ a i. h.numbers a (inr (In-right a used (f ∷ g ∷ fs) (inr i)))) short)
    where
      behind : ℕ → Option WpPool
      behind n = some (record w { next = update (update w.next x (w.next n)) n (some x) })

      alone : Option WpPool
      alone =
          if ltb (w.no x) (w.no f)
          then some (record w { next = update w.next x (some f); free_ = some x })
          else some (record w { next = update (update w.next f (some x)) x none })

      linked_at : ℕ → Option WpPool
      linked_at n = elim (w.next n) [
        | none ↦
            if ltb (w.no x) (w.no n)
            then some (record w { next = update w.next x (some n); free_ = some x })
            else some (record w { next = update (update w.next n (some x)) x none })
        | some q ↦ deref (place_wp nr_wp w (w.no x) n) behind
      ]

      short : length (g ∷ fs) ≤ 31
      short = omega (arith, h.complete, length-append used (f ∷ g ∷ fs))

free_after :
    (used : List ℕ) (x f g : ℕ) (fs : List ℕ) (w : WpPool) {o : Option WpPool}
    → free_wp x w ≡ elim o as (λ o1. Option WpPool) [
      | none ↦ none
      | some w1 ↦ elim (link_free w1 x) as (λ o2. Option WpPool) [
        | none ↦ none
        | some w2 ↦ some (record w2 { count_used = w2.count_used - 1 })
      ]
    ]
    → Unlinks used x (f ∷ g ∷ fs) o
    → Gives used (f ∷ place x (g ∷ fs)) (free_wp x w)
free_after used x f g fs w e (unlinks w1 h) =
    subst (Gives used (f ∷ place x (g ∷ fs))) (sym (e ∙ done))
      (gives (put w1 used x f g fs h) (put-IsPool w1 used x f g fs h))
  where
    done :
        elim (link_free w1 x) as (λ o. Option WpPool) [
          | none ↦ none
          | some w2 ↦ some (record w2 { count_used = w2.count_used - 1 })
        ]
        ≡ some (put w1 used x f g fs h)
    done =
        ap
          (λ o. elim o [
            | none ↦ none
            | some w2 ↦ some (record w2 { count_used = w2.count_used - 1 })
          ])
          (link_free-put w1 used x f g fs h)

-- On a pool in order with two free nodes or more, free_wp of a node in use returns: the node is no
-- longer among those in use, which keep their order, it is free before the first free node but the
-- foremost that is not below it, and the pool is in order.
pub free_wp-Gives :
    (w : WpPool) (us : List ℕ) (x : ℕ) (vs : List ℕ) (f g : ℕ) (fs : List ℕ)
    → IsPool w (us ++ (x ∷ vs)) (f ∷ g ∷ fs)
    → Gives (us ++ vs) (f ∷ place x (g ∷ fs)) (free_wp x w)
unfolding free_wp
free_wp-Gives w [] x vs f g fs h =
    free_after vs x f g fs w refl (unlink_first w x vs (f ∷ g ∷ fs) h)
free_wp-Gives w (y ∷ ys) x vs f g fs h =
    free_after ((y ∷ ys) ++ vs) x f g fs w refl (unlink_later w y ys x vs (f ∷ g ∷ fs) h)
