-- ===== src/Nemu/Watch/Links.antt =====
-- The lists of nodes that the pointers of the pool stand for.
use projects_demonstration.Base.{
  ℕ, zero, suc, ◌≤◌, ◌≡◌, ◌≢◌, refl, ap, sym, ◌∙◌, List, [], ◌∷◌, ◌++◌, Option, none, some, inl,
  inr, arith, length, Fresh, Distinct, In, In-ne, update, update-eq, update-ne,
}
use projects_demonstration.Nemu.Watch.{WpPool, last_wp, nr_wp}

-- From the pointer on, the nodes are linked in the order of the list.
abbrev pub Links : (ℕ → Option ℕ) → Option ℕ → List ℕ → Type 0
Links next p [] = p ≡ none
Links next p (x ∷ xs) = (p ≡ some x) × Links next (next x) xs

-- The nodes in use and the free ones are the nodes of the pool, each in one place, with its own number.
pub record IsPool (w : WpPool) (used free : List ℕ) : Type 0 where
  pub used_links : Links w.next w.head used
  pub free_links : Links w.next w.free_ free
  pub distinct : Distinct (used ++ free)
  pub count : w.count_used ≡ length used
  pub complete : length (used ++ free) ≡ nr_wp
  pub numbers : (x : ℕ) → In x (used ++ free) → w.no x ≡ x

pub Links-same :
    {n n' : ℕ → Option ℕ} (p : Option ℕ) (xs : List ℕ)
    → ((a : ℕ) → In a xs → n' a ≡ n a)
    → Links n p xs
    → Links n' p xs
Links-same p [] same l = l
Links-same {n = n} {n' = n'} p (x ∷ xs) same (e, l) =
    (e, Links-at xs (same x (inl refl)) (Links-same (n x) xs (λ a i. same a (inr i)) l))
  where
    Links-at : {q q' : Option ℕ} (ys : List ℕ) → q' ≡ q → Links n' q ys → Links n' q' ys
    Links-at [] e l = e ∙ l
    Links-at (y ∷ ys) e (f, l) = (e ∙ f, l)

pub In-left : (a : ℕ) (xs ys : List ℕ) → In a xs → In a (xs ++ ys)
In-left a [] ys i = elim i [ ]
In-left a (x ∷ xs) ys (inl e) = inl e
In-left a (x ∷ xs) ys (inr i) = inr (In-left a xs ys i)

pub In-right : (a : ℕ) (xs ys : List ℕ) → In a ys → In a (xs ++ ys)
In-right a [] ys i = i
In-right a (x ∷ xs) ys i = inr (In-right a xs ys i)

pub Distinct-apart : {a b : ℕ} (xs ys : List ℕ) → Distinct (xs ++ ys) → In a xs → In b ys → a ≢ b
Distinct-apart [] ys d i j = elim i [ ]
Distinct-apart {b = b} (x ∷ xs) ys (f, d) (inl e) j =
    λ q. In-ne (xs ++ ys) f (In-right b xs ys j) (sym q ∙ e)
Distinct-apart (x ∷ xs) ys (f, d) (inr i) j = Distinct-apart xs ys d i j

pub Distinct-right : (xs ys : List ℕ) → Distinct (xs ++ ys) → Distinct ys
Distinct-right [] ys d = d
Distinct-right (x ∷ xs) ys (f, d) = Distinct-right xs ys d

pub Fresh-left : (z : ℕ) (xs ys : List ℕ) → Fresh z (xs ++ ys) → Fresh z xs
Fresh-left z [] ys f = tt
Fresh-left z (x ∷ xs) ys (ne, f) = (ne, Fresh-left z xs ys f)

pub Fresh-right : (z : ℕ) (xs ys : List ℕ) → Fresh z (xs ++ ys) → Fresh z ys
Fresh-right z [] ys f = f
Fresh-right z (x ∷ xs) ys (ne, f) = Fresh-right z xs ys f

pub Distinct-left : (xs ys : List ℕ) → Distinct (xs ++ ys) → Distinct xs
Distinct-left [] ys d = tt
Distinct-left (x ∷ xs) ys (f, d) = (Fresh-left x xs ys f, Distinct-left xs ys d)

-- The last of the nodes `h ∷ xs`.
abbrev pub last : ℕ → List ℕ → ℕ
last h [] = h
last h (x ∷ xs) = last x xs

pub last-In : (h : ℕ) (xs : List ℕ) → In (last h xs) (h ∷ xs)
last-In h [] = inl refl
last-In h (x ∷ xs) = inr (last-In x xs)

pub last_wp-last :
    (next : ℕ → Option ℕ) (h k : ℕ) (xs : List ℕ)
    → Links next (next h) xs
    → length xs ≤ k
    → last_wp (suc k) next h ≡ some (last h xs)
last_wp-last next h k [] e le = ap (λ o. elim o [ none ↦ some h | some q ↦ last_wp k next q ]) e
last_wp-last next h zero (x ∷ xs) l le = absurd (omega arith)
last_wp-last next h (suc k) (x ∷ xs) (e, l) le =
    ap (λ o. elim o [ none ↦ some h | some q ↦ last_wp (suc k) next q ]) e
    ∙ last_wp-last next x k xs l (omega arith)

-- Linking a node behind the last one.
pub Links-extend :
    (next : ℕ → Option ℕ) (p : Option ℕ) (h x : ℕ) (xs : List ℕ)
    → Links next p (h ∷ xs)
    → Distinct (h ∷ xs)
    → ((a : ℕ) → In a (h ∷ xs) → a ≢ x)
    → Links (update (update next (last h xs) (some x)) x none) p ((h ∷ xs) ++ (x ∷ []))
Links-extend next p h x [] (e, l) d ne = (
  e,
  (
    update-ne (update next h (some x)) x h none (ne h (inl refl)) ∙ update-eq next h (some x),
    update-eq (update next h (some x)) x none,
  ),
)
Links-extend next p h x (y ∷ ys) (e, (f, l)) (fh, d) ne = (
  e,
  (
    update-ne (update next (last y ys) (some x)) x h none (ne h (inl refl))
        ∙ update-ne next (last y ys) h (some x) (λ q. In-ne (y ∷ ys) fh (last-In y ys) (sym q))
        ∙ f,
    (Links-extend next (some y) y x ys (refl, l) d (λ a i. ne a (inr i))).1,
  ),
)
