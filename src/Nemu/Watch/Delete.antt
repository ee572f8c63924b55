-- ===== src/Nemu/Watch/Delete.antt =====
-- `delete_w` finds a node in use by its number and gives it back.
use mathlib.Core.Path.{subst}
use projects_demonstration.Base.{
  ℕ, zero, suc, ◌≤◌, ◌≡◌, ◌≢◌, refl, ap, sym, ◌∙◌, true, false, List, [], ◌∷◌, ◌++◌, Option, none,
  some, inl, inr, arith, length, length-append, Fresh, In, ◌==◌,
}
use projects_demonstration.Nemu.Watch.{WpPool, nr_wp, find_wp, free_wp, delete_w}
use projects_demonstration.Nemu.Watch.Links.{Links, IsPool, In-left, Fresh-left, Distinct-left}
use projects_demonstration.Nemu.Watch.Moves.{lift-Moves}
use projects_demonstration.Nemu.Watch.Place.{place}
use projects_demonstration.Nemu.Watch.Give.{Gives, free_wp-Gives}

find_wp-found :
    (w : WpPool) (x k : ℕ) (us vs : List ℕ) (p : Option ℕ)
    → Links w.next p (us ++ (x ∷ vs))
    → ((a : ℕ) → In a (us ++ (x ∷ vs)) → w.no a ≡ a)
    → Fresh x us
    → length us ≤ k
    → find_wp (suc k) w x p ≡ some (some x)
find_wp-found w x k [] vs p (e, l) num f le =
    ap (find_wp (suc k) w x) e
    ∙ ap (λ b. elim b [ true ↦ some (some x) | false ↦ find_wp k w x (w.next x) ]) {x = w.no x == x}
        {y = true} (ap (λ n. n == x) (num x (inl refl)) ∙ ground arith)
find_wp-found w x zero (u ∷ us) vs p l num f le = absurd (omega arith)
find_wp-found w x (suc k) (u ∷ us) vs p (e, l) num (ne, f) le =
    ap (find_wp (suc (suc k)) w x) e
    ∙ ap (λ b. elim b [ true ↦ some (some u) | false ↦ find_wp (suc k) w x (w.next u) ])
        {x = w.no u == x} {y = false} (ap (λ n. n == x) (num u (inl refl)) ∙ other ne)
    ∙ find_wp-found w x k us vs (w.next u) l (λ a i. num a (inr i)) f (omega arith)
  where
    other : x ≢ u → (u == x) ≡ false
    other ne = ground arith

-- On a pool in order with two free nodes or more, delete_w of the number of a node in use returns: the
-- node is no longer among those in use, which keep their order, it is free before the first free node
-- but the foremost that is not below it, and the pool is in order.
pub delete_w-Gives :
    (w : WpPool) (us : List ℕ) (x : ℕ) (vs : List ℕ) (f g : ℕ) (fs : List ℕ)
    → IsPool w (us ++ (x ∷ vs)) (f ∷ g ∷ fs)
    → Gives (us ++ vs) (f ∷ place x (g ∷ fs)) (delete_w x w)
unfolding delete_w nr_wp
delete_w-Gives w us x vs f g fs h =
    subst (Gives (us ++ vs) (f ∷ place x (g ∷ fs)))
      (sym (
        ap (λ o. elim o [ none ↦ none | some none ↦ some w | some (some wp) ↦ free_wp wp w ])
          found))
      (free_wp-Gives w us x vs f g fs h)
  where
    x_new : Fresh x (us ++ vs)
    x_new =
        ((lift-Moves x us vs).distinct (Distinct-left (us ++ (x ∷ vs)) (f ∷ g ∷ fs) h.distinct)).0

    found : find_wp 33 w x w.head ≡ some (some x)
    found =
        find_wp-found w x 32 us vs w.head h.used_links
          (λ a i. h.numbers a (In-left a (us ++ (x ∷ vs)) (f ∷ g ∷ fs) i))
          (Fresh-left x us vs x_new)
          (omega (
            arith,
            h.complete,
            length-append (us ++ (x ∷ vs)) (f ∷ g ∷ fs),
            length-append us (x ∷ vs),
          ))
