-- ===== src/Kmt/Queue/Ring.antt =====
-- The ring of tasks of OSkernel/kernel/src/kmt.c as a list of addresses.
use projects_demonstration.Base.{ℕ, ◌≡◌, refl, ◌∙◌, List, [], ◌∷◌, inl, inr, Distinct, In}
use projects_demonstration.Kmt.{Task}

-- Behind `p` come the addresses and then the head, with `prev` and `next` each the other's inverse.
abbrev pub Links : (ℕ → Task) → ℕ → ℕ → List ℕ → Type 0
Links t h p [] = ((t p).next ≡ h) × ((t h).prev ≡ p)
Links t h p (x ∷ xs) = ((t p).next ≡ x) × ((t x).prev ≡ p) × Links t h x xs

-- The queue of the head `h`, first to last.
pub record IsQueue (t : ℕ → Task) (h : ℕ) (xs : List ℕ) : Type 0 where
  pub links : Links t h h xs
  pub distinct : Distinct (h ∷ xs)

-- The last task, or the one before the list, is the head's `prev`.
pub last-In : (t : ℕ → Task) (h p : ℕ) (xs : List ℕ) → Links t h p xs → In (t h).prev (p ∷ xs)
last-In t h p [] (e, e') = inl e'
last-In t h p (x ∷ xs) (e, e', l) = inr (last-In t h x xs l)

-- Links rest on the `next` of `p` and of the tasks, and the `prev` of the tasks and of the head.
pub Links-same :
    (t t' : ℕ → Task) (h p : ℕ) (xs : List ℕ)
    → ((k : ℕ) → In k (p ∷ xs) → (t' k).next ≡ (t k).next)
    → ((k : ℕ) → In k xs → (t' k).prev ≡ (t k).prev)
    → (t' h).prev ≡ (t h).prev
    → Links t h p xs
    → Links t' h p xs
Links-same t t' h p [] n v eh (e, e') = (n p (inl refl) ∙ e, eh ∙ e')
Links-same t t' h p (x ∷ xs) n v eh (e, e', l) = (
  n p (inl refl) ∙ e,
  v x (inl refl) ∙ e',
  Links-same t t' h x xs (λ k i. n k (inr i)) (λ k i. v k (inr i)) eh l,
)
