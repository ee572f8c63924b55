-- ===== src/Nemu/Watch/Take.antt =====
-- `new_wp` takes the first free node and puts it behind the nodes in use.
use mathlib.Core.Path.{subst}
use projects_demonstration.Base.{
  ℕ, suc, ◌+◌, ◌<◌, ◌≤◌, ◌≡◌, ◌≢◌, refl, ap, sym, ◌∙◌, true, false, List, [], ◌∷◌, ◌++◌, Option,
  none, some, inl, inr, arith, length, length-append, Distinct, In, In-ne, update, update-eq,
  update-ne, ltb, ◌==◌, if◌then◌else◌,
}
use projects_demonstration.Nemu.Watch.{
  WpPool, nr_wp, last_wp, deref, new_first, new_behind, link_first, link_behind, new_wp,
}
use projects_demonstration.Nemu.Watch.Links.{
  Links, IsPool, Links-same, Distinct-apart, Distinct-left, Distinct-right, last, last-In,
  last_wp-last, Links-extend,
}

-- A node was handed out: the pool returns `x`, and `x` is now the last of the nodes in use.
pub data Takes (used : List ℕ) (x : ℕ) (free : List ℕ) : Option (ℕ × WpPool) → Type 0 where
  takes : (w : WpPool) → IsPool w (used ++ (x ∷ [])) free → Takes used x free (some (x, w))

shift : (xs ys : List ℕ) (x : ℕ) → (xs ++ (x ∷ [])) ++ ys ≡ xs ++ (x ∷ ys)
shift [] ys x = refl
shift (z ∷ zs) ys x = ap (λ l. z ∷ l) (shift zs ys x)

module _ (w : WpPool) (used : List ℕ) (x : ℕ) (free : List ℕ) (h : IsPool w used (x ∷ free)) where
  -- The free nodes are not touched by what is written at the new node and at one in use.
  free_same :
      (next : ℕ → Option ℕ) → ((a : ℕ) → In a free → next a ≡ w.next a) → Links next (w.next x) free
  free_same next same = Links-same (w.next x) free same (h.free_links.1)

  not_new : (a : ℕ) → In a free → a ≢ x
  not_new a i = In-ne free ((Distinct-right used (x ∷ free) h.distinct).0) i

  -- The fields of the pool that the lists alone decide.
  IsPool-after :
      (w' : WpPool)
      → Links w'.next w'.head (used ++ (x ∷ []))
      → Links w'.next w'.free_ free
      → w'.count_used ≡ w.count_used + 1
      → w'.no ≡ w.no
      → IsPool w' (used ++ (x ∷ [])) free
  IsPool-after w' l r c n = record {
    used_links = l;
    free_links = r;
    distinct = subst Distinct (sym (shift used free x)) h.distinct;
    count = c ∙ ap (λ k. k + 1) h.count ∙ sym (length-append used (x ∷ []));
    complete = ap length (shift used free x) ∙ h.complete;
    numbers = λ a i. ap (λ f. f a) n ∙ h.numbers a (subst (λ l. In a l) (shift used free x) i);
  }

pub first-IsPool :
    (w : WpPool) (x : ℕ) (free : List ℕ)
    → IsPool w [] (x ∷ free)
    → IsPool (link_first w x) (x ∷ []) free
first-IsPool w x free h =
    IsPool-after w [] x free h (link_first w x) (refl, update-eq w.next x none)
      (free_same w [] x free h (link_first w x).next
        (λ a i. update-ne w.next x a none (not_new w [] x free h a i)))
      refl refl

first_taken :
    (w : WpPool) (x : ℕ) (free : List ℕ) → IsPool w [] (x ∷ free) → Takes [] x free (new_first w)
first_taken w x free h =
    subst (Takes [] x free)
      (sym (ap (λ p. deref p (λ wp. some (wp, link_first w wp))) (h.free_links.0)))
      (takes (link_first w x) (first-IsPool w x free h))

module _ (w : WpPool) (y : ℕ) (ys : List ℕ) (x : ℕ) (free : List ℕ)
    (h : IsPool w (y ∷ ys) (x ∷ free)) where
  new_ne : (a : ℕ) → In a (y ∷ ys) → a ≢ x
  new_ne a i = Distinct-apart (y ∷ ys) (x ∷ free) h.distinct i (inl refl)

  free_kept : (a : ℕ) → In a free → (link_behind w (last y ys) x).next a ≡ w.next a
  free_kept a i =
      update-ne (update w.next (last y ys) (some x)) x a none (not_new w (y ∷ ys) x free h a i)
      ∙ update-ne w.next (last y ys) a (some x)
          (λ q. Distinct-apart (y ∷ ys) (x ∷ free) h.distinct (last-In y ys) (inr i) (sym q))

  free_next : (link_behind w (last y ys) x).free_ ≡ w.next x
  free_next =
      update-ne w.next (last y ys) x (some x) (λ q. new_ne (last y ys) (last-In y ys) (sym q))

  pub behind-IsPool : IsPool (link_behind w (last y ys) x) ((y ∷ ys) ++ (x ∷ [])) free
  behind-IsPool =
      IsPool-after w (y ∷ ys) x free h (link_behind w (last y ys) x)
        (Links-extend w.next w.head y x ys h.used_links
          (Distinct-left (y ∷ ys) (x ∷ free) h.distinct) new_ne)
        (subst (λ p. Links (link_behind w (last y ys) x).next p free) (sym free_next)
          (free_same w (y ∷ ys) x free h (link_behind w (last y ys) x).next free_kept))
        refl refl

  new_behind_lem : length ys ≤ 31 → new_behind w ≡ some (x, link_behind w (last y ys) x)
  unfolding nr_wp
  new_behind_lem le =
      ap
        (λ p. deref p (λ first.
          deref (last_wp 32 w.next first)
            (λ temp_p. deref w.free_ (λ wp. some (wp, link_behind w temp_p wp)))))
        (h.used_links.0)
      ∙ ap (λ p. deref p (λ temp_p. deref w.free_ (λ wp. some (wp, link_behind w temp_p wp))))
          (last_wp-last w.next y 31 ys (h.used_links.1) le)
      ∙ ap (λ p. deref p (λ wp. some (wp, link_behind w (last y ys) wp))) (h.free_links.0)

-- On a pool in order with a free node and fewer than 24 in use, new_wp returns the first free node,
-- it is the last of the nodes in use, and the pool is in order.
pub new_wp-Takes :
    (w : WpPool) (used : List ℕ) (x : ℕ) (free : List ℕ)
    → IsPool w used (x ∷ free)
    → w.count_used < 24
    → Takes used x free (new_wp w)
unfolding new_wp
new_wp-Takes w used x free h lt = subst (Takes used x free) (sym guard) (by_use used h)
  where
    guard : new_wp w ≡ (if w.count_used == 0 then new_first w else new_behind w)
    guard =
        ap (λ b. if b then (if w.count_used == 0 then new_first w else new_behind w) else none)
          {x = ltb w.count_used 24} {y = true} (ground arith)

    by_use :
        (us : List ℕ)
        → IsPool w us (x ∷ free)
        → Takes us x free (if w.count_used == 0 then new_first w else new_behind w)
    by_use [] h =
        subst (λ b. Takes [] x free (if b then new_first w else new_behind w)) {x = true}
          {y = w.count_used == 0} (sym (ap (λ k. k == 0) h.count)) (first_taken w x free h)
    by_use (y ∷ ys) h =
        subst (λ b. Takes (y ∷ ys) x free (if b then new_first w else new_behind w)) {x = false}
          {y = w.count_used == 0} (sym (some_used h.count))
          (subst (Takes (y ∷ ys) x free) (sym (new_behind_lem w y ys x free h (few h.count lt)))
            (takes (link_behind w (last y ys) x) (behind-IsPool w y ys x free h)))
      where
        few : w.count_used ≡ suc (length ys) → w.count_used < 24 → length ys ≤ 31
        few e lt = omega arith

        some_used : w.count_used ≡ suc (length ys) → (w.count_used == 0) ≡ false
        some_used e = ground arith
