-- ===== src/Nemu/Watch/Place.antt =====
-- The two walks of `free_wp`: to the node before one in use, and to the place among the free nodes.
use mathlib.Core.Path.{subst}
use projects_demonstration.Base.{
  ℕ, zero, suc, ◌≤◌, ◌≡◌, ◌≢◌, refl, ap, sym, ◌∙◌, Bool, true, false, List, [], ◌∷◌, ◌++◌, Option,
  none, some, inl, inr, arith, length, Fresh, Distinct, In, In-ne, update, update-eq, update-ne,
  ltb, ◌==◌,
}
use projects_demonstration.Nemu.Watch.{WpPool, before_wp, place_wp, deref}
use projects_demonstration.Nemu.Watch.Links.{Links, Links-same, In-left, In-right, last, last-In}

-- The free nodes `f ∷ fs` get `x` before the first node of `fs` that is not below it.
abbrev pub place : (x : ℕ) → List ℕ → List ℕ
place x [] = x ∷ []
place x (g ∷ gs) = elim (ltb g x) [ true ↦ g ∷ place x gs | false ↦ x ∷ g ∷ gs ]

-- The node behind which it goes.
abbrev pub spot : (x f : ℕ) → List ℕ → ℕ
spot x f [] = f
spot x f (g ∷ gs) = elim (ltb g x) [ true ↦ spot x g gs | false ↦ f ]

pub spot-In : (x f : ℕ) (fs : List ℕ) → In (spot x f fs) (f ∷ fs)
spot-In x f [] = inl refl
spot-In x f (g ∷ gs) = by_test (ltb g x) (spot-In x g gs)
  where
    by_test :
        (b : Bool)
        → In (spot x g gs) (g ∷ gs)
        → In (elim b as (λ u. ℕ) [ true ↦ spot x g gs | false ↦ f ]) (f ∷ g ∷ gs)
    by_test true i = inr i
    by_test false i = inl refl

abbrev pub linked : (ℕ → Option ℕ) → (x at : ℕ) → ℕ → Option ℕ
linked next x at = update (update next x (next at)) at (some x)

pub linked-ne : (next : ℕ → Option ℕ) (x at a : ℕ) → a ≢ x → a ≢ at → linked next x at a ≡ next a
linked-ne next x at a n m =
    update-ne (update next x (next at)) at a (some x) m ∙ update-ne next x a (next at) n

linked-new : (next : ℕ → Option ℕ) (x at : ℕ) → x ≢ at → linked next x at x ≡ next at
linked-new next x at n =
    update-ne (update next x (next at)) at x (some x) n ∙ update-eq next x (next at)

pub place-Links :
    (next : ℕ → Option ℕ) (p : Option ℕ) (x f : ℕ) (fs : List ℕ)
    → Links next p (f ∷ fs)
    → Distinct (f ∷ fs)
    → Fresh x (f ∷ fs)
    → Links (linked next x (spot x f fs)) p (f ∷ place x fs)
place-Links next p x f [] (e, l) d (ne, t) =
    (e, (update-eq (update next x (next f)) f (some x), linked-new next x f ne ∙ l))
place-Links next p x f (g ∷ gs) (e, l) (ff, d) (ne, fx) =
    by_test (ltb g x) (place-Links next (next f) x g gs l d fx)
  where
    by_test :
        (b : Bool)
        → Links (linked next x (spot x g gs)) (next f) (g ∷ place x gs)
        → Links
            (linked next x (elim b as (λ u. ℕ) [ true ↦ spot x g gs | false ↦ f ]))
            p
            (f ∷ elim b as (λ u. List ℕ) [ true ↦ g ∷ place x gs | false ↦ x ∷ g ∷ gs ])
    by_test true rest = (
      e,
      subst (λ q. Links (linked next x (spot x g gs)) q (g ∷ place x gs))
          (sym (
            linked-ne next x (spot x g gs) f (λ q. ne (sym q))
              (λ q. In-ne (g ∷ gs) ff (spot-In x g gs) (sym q))))
          rest,
    )
    by_test false rest = (
      e,
      (
        update-eq (update next x (next f)) f (some x),
        subst (λ q. Links (linked next x f) q (g ∷ gs)) (sym (linked-new next x f ne))
            (Links-same (next f) (g ∷ gs)
              (λ a i. linked-ne next x f a (In-ne (g ∷ gs) fx i) (In-ne (g ∷ gs) ff i)) l),
      ),
    )

pub place_wp-spot :
    (w : WpPool) (x f k : ℕ) (fs : List ℕ)
    → Links w.next (w.next f) fs
    → ((a : ℕ) → In a fs → w.no a ≡ a)
    → length fs ≤ k
    → place_wp (suc k) w x f ≡ some (spot x f fs)
place_wp-spot w x f k [] e num le =
    ap
      (λ o. elim o [
        | none ↦ some f
        | some q ↦ elim (ltb (w.no q) x) [ true ↦ place_wp k w x q | false ↦ some f ]
      ])
      e
place_wp-spot w x f zero (g ∷ gs) l num le = absurd (omega arith)
place_wp-spot w x f (suc k) (g ∷ gs) (e, l) num le =
    ap
      (λ o. elim o [
        | none ↦ some f
        | some q ↦ elim (ltb (w.no q) x) [ true ↦ place_wp (suc k) w x q | false ↦ some f ]
      ])
      e
    ∙ ap (λ n. elim (ltb n x) [ true ↦ place_wp (suc k) w x g | false ↦ some f ]) (num g (inl refl))
    ∙ by_test (ltb g x) (place_wp-spot w x g k gs l (λ a i. num a (inr i)) (omega arith))
  where
    by_test :
        (b : Bool)
        → place_wp (suc k) w x g ≡ some (spot x g gs)
        → elim b as (λ u. Option ℕ) [ true ↦ place_wp (suc k) w x g | false ↦ some f ]
          ≡ some (elim b as (λ u. ℕ) [ true ↦ spot x g gs | false ↦ f ])
    by_test true e = e
    by_test false e = refl

abbrev pub cut : (ℕ → Option ℕ) → (x before : ℕ) → ℕ → Option ℕ
cut next x before = update (update next before (next x)) x none

pub cut-ne :
    (next : ℕ → Option ℕ) (x before a : ℕ) → a ≢ x → a ≢ before → cut next x before a ≡ next a
cut-ne next x before a n m =
    update-ne (update next before (next x)) x a none n ∙ update-ne next before a (next x) m

pub cut-Links :
    (next : ℕ → Option ℕ) (p : Option ℕ) (h x : ℕ) (hs vs : List ℕ)
    → Links next p ((h ∷ hs) ++ (x ∷ vs))
    → Distinct ((h ∷ hs) ++ (x ∷ vs))
    → Links (cut next x (last h hs)) p ((h ∷ hs) ++ vs)
cut-Links next p h x [] vs (e, (f, l)) ((ne, fh), (fx, d)) = (
  e,
  subst (λ q. Links (cut next x h) q vs)
      (sym (update-ne (update next h (next x)) x h none ne ∙ update-eq next h (next x)))
      (Links-same (next x) vs (λ a i. cut-ne next x h a (In-ne vs fx i) (In-ne vs fh i)) l),
)
cut-Links next p h x (y ∷ ys) vs (e, l) (fh, d) = (
  e,
  subst (λ q. Links (cut next x (last y ys)) q ((y ∷ ys) ++ vs))
      (sym (
        cut-ne next x (last y ys) h
          (λ q. In-ne ((y ∷ ys) ++ (x ∷ vs)) fh (In-right x (y ∷ ys) (x ∷ vs) (inl refl)) (sym q))
          (λ q.
            In-ne ((y ∷ ys) ++ (x ∷ vs)) fh (In-left (last y ys) (y ∷ ys) (x ∷ vs) (last-In y ys))
              (sym q))))
      (cut-Links next (next h) y x ys vs l d),
)

pub before_wp-last :
    (w : WpPool) (x h k : ℕ) (hs vs : List ℕ)
    → Links w.next (w.next h) (hs ++ (x ∷ vs))
    → ((a : ℕ) → In a (hs ++ (x ∷ vs)) → w.no a ≡ a)
    → Fresh x hs
    → length hs ≤ k
    → before_wp (suc k) w x h ≡ some (last h hs)
before_wp-last w x h k [] vs (e, l) num f le =
    ap (λ p. deref p (λ q. elim (w.no q == x) [ true ↦ some h | false ↦ before_wp k w x q ])) e
    ∙ ap (λ b. elim b [ true ↦ some h | false ↦ before_wp k w x x ]) {x = w.no x == x} {y = true}
        (ap (λ n. n == x) (num x (inl refl)) ∙ ground arith)
before_wp-last w x h zero (y ∷ ys) vs l num f le = absurd (omega arith)
before_wp-last w x h (suc k) (y ∷ ys) vs (e, l) num (ne, f) le =
    ap (λ p. deref p (λ q. elim (w.no q == x) [ true ↦ some h | false ↦ before_wp (suc k) w x q ]))
      e
    ∙ ap (λ b. elim b [ true ↦ some h | false ↦ before_wp (suc k) w x y ]) {x = w.no y == x}
        {y = false} (ap (λ n. n == x) (num y (inl refl)) ∙ other ne)
    ∙ before_wp-last w x y k ys vs l (λ a i. num a (inr i)) f (omega arith)
  where
    other : x ≢ y → (y == x) ≡ false
    other ne = ground arith
