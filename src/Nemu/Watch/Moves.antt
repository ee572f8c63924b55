-- ===== src/Nemu/Watch/Moves.antt =====
-- A node that changes its place in a list.
use mathlib.Core.Path.{subst}
use projects_demonstration.Base.{
  ℕ, ◌≡◌, refl, ap, sym, ◌∙◌, Bool, true, false, List, [], ◌∷◌, ◌++◌, inl, inr, arith, length,
  length-append, Fresh, Distinct, In, In-ne, ltb,
}
use projects_demonstration.Nemu.Watch.Links.{In-right}
use projects_demonstration.Nemu.Watch.Place.{place}

-- The lists have the same members, each of them once in the second if once in the first.
pub record Moves (xs ys : List ℕ) : Type 0 where
  pub distinct : Distinct xs → Distinct ys
  pub same_length : length ys ≡ length xs
  pub members : (a : ℕ) → In a ys → In a xs

pub Moves-trans : {xs ys zs : List ℕ} → Moves xs ys → Moves ys zs → Moves xs zs
Moves-trans a b = record {
  distinct = λ d. b.distinct (a.distinct d);
  same_length = b.same_length ∙ a.same_length;
  members = λ x i. a.members x (b.members x i);
}

pub Moves-path : {xs ys : List ℕ} → xs ≡ ys → Moves xs ys
Moves-path {xs = xs} e =
    subst (Moves xs) e (record { distinct = λ d. d; same_length = refl; members = λ a i. i })

pub append_assoc : (xs ys zs : List ℕ) → (xs ++ ys) ++ zs ≡ xs ++ (ys ++ zs)
append_assoc [] ys zs = refl
append_assoc (x ∷ xs) ys zs = ap (λ l. x ∷ l) (append_assoc xs ys zs)

Fresh-sub : (u : ℕ) (xs ys : List ℕ) → Fresh u xs → ((a : ℕ) → In a ys → In a xs) → Fresh u ys
Fresh-sub u xs [] f m = tt
Fresh-sub u xs (y ∷ ys) f m =
    (λ q. In-ne xs f (m y (inl refl)) (sym q), Fresh-sub u xs ys f (λ a i. m a (inr i)))

lift-In : (a x : ℕ) (us ws : List ℕ) → In a (x ∷ (us ++ ws)) → In a (us ++ (x ∷ ws))
lift-In a x [] ws i = i
lift-In a x (u ∷ us) ws (inl e) = inr (lift-In a x us ws (inl e))
lift-In a x (u ∷ us) ws (inr (inl e)) = inl e
lift-In a x (u ∷ us) ws (inr (inr i)) = inr (lift-In a x us ws (inr i))

sink-In : (a x : ℕ) (us ws : List ℕ) → In a (us ++ (x ∷ ws)) → In a (x ∷ (us ++ ws))
sink-In a x [] ws i = i
sink-In a x (u ∷ us) ws (inl e) = inr (inl e)
sink-In a x (u ∷ us) ws (inr i) = elim (sink-In a x us ws i) [ inl e ↦ inl e | inr j ↦ inr (inr j) ]

lift-Distinct : (x : ℕ) (us ws : List ℕ) → Distinct (us ++ (x ∷ ws)) → Distinct (x ∷ (us ++ ws))
lift-Distinct x [] ws d = d
lift-Distinct x (u ∷ us) ws (f, d) = (
  (In-ne (us ++ (x ∷ ws)) f (In-right x us (x ∷ ws) (inl refl)), (lift-Distinct x us ws d).0),
  (
    Fresh-sub u (us ++ (x ∷ ws)) (us ++ ws) f (λ a i. lift-In a x us ws (inr i)),
    (lift-Distinct x us ws d).1,
  ),
)

sink-Distinct : (x : ℕ) (us ws : List ℕ) → Distinct (x ∷ (us ++ ws)) → Distinct (us ++ (x ∷ ws))
sink-Distinct x [] ws d = d
sink-Distinct x (u ∷ us) ws ((ne, fx), (fu, d)) = (
  Fresh-sub u (x ∷ (us ++ ws)) (us ++ (x ∷ ws)) (λ q. ne (sym q), fu) (λ a i. sink-In a x us ws i),
  sink-Distinct x us ws (fx, d),
)

pub lift-Moves : (x : ℕ) (us ws : List ℕ) → Moves (us ++ (x ∷ ws)) (x ∷ (us ++ ws))
lift-Moves x us ws = record {
  distinct = lift-Distinct x us ws;
  same_length = omega (arith, length-append us ws, length-append us (x ∷ ws));
  members = λ a i. lift-In a x us ws i;
}

pub sink-Moves : (x : ℕ) (us ws : List ℕ) → Moves (x ∷ (us ++ ws)) (us ++ (x ∷ ws))
sink-Moves x us ws = record {
  distinct = sink-Distinct x us ws;
  same_length = omega (arith, length-append us ws, length-append us (x ∷ ws));
  members = λ a i. sink-In a x us ws i;
}

-- `ps` is `fs` with `x` put somewhere.
record Placed (x : ℕ) (fs ps : List ℕ) : Type 0 where
  below : List ℕ
  above : List ℕ
  without : fs ≡ below ++ above
  with_new : below ++ (x ∷ above) ≡ ps

place-Placed : (x : ℕ) (fs : List ℕ) → Placed x fs (place x fs)
place-Placed x [] = record { below = []; above = []; without = refl; with_new = refl }
place-Placed x (g ∷ gs) = by_test (ltb g x) (place-Placed x gs)
  where
    by_test :
        (b : Bool)
        → Placed x gs (place x gs)
        → Placed x (g ∷ gs) (elim b as (λ u. List ℕ) [ true ↦ g ∷ place x gs | false ↦ x ∷ g ∷ gs ])
    by_test true p = record {
      below = g ∷ p.below;
      above = p.above;
      without = ap (λ l. g ∷ l) p.without;
      with_new = ap (λ l. g ∷ l) p.with_new;
    }
    by_test false p = record { below = []; above = g ∷ gs; without = refl; with_new = refl }

pub place-Moves : (x f : ℕ) (bs fs : List ℕ) → Moves (x ∷ (bs ++ (f ∷ fs))) (bs ++ (f ∷ place x fs))
place-Moves x f bs fs = moved (place-Placed x fs)
  where
    moved : {ps : List ℕ} → Placed x fs ps → Moves (x ∷ (bs ++ (f ∷ fs))) (bs ++ (f ∷ ps))
    moved p =
        Moves-trans
          (Moves-path (
            ap (λ l. x ∷ (bs ++ (f ∷ l))) p.without
            ∙ ap (λ l. x ∷ l) (sym (append_assoc bs (f ∷ p.below) p.above))))
          (Moves-trans (sink-Moves x (bs ++ (f ∷ p.below)) p.above) (
            Moves-path
              (append_assoc bs (f ∷ p.below) (x ∷ p.above) ∙ ap (λ l. bs ++ (f ∷ l)) p.with_new)))
