-- ===== src/Base/Members.antt =====
-- Lists of addresses: members, and lists without repetition.
use Prim.Native.Nat.{ℕ}
use mathlib.Core.Path.{◌≡◌, sym, ◌∙◌}
use mathlib.Core.Logic.{◌≢◌, ◌⊎◌, inl, inr}
use mathlib.Core.List.{List, [], ◌∷◌, ◌++◌}

-- `x` is none of the addresses, or one of them.
abbrev pub Fresh : ℕ → List ℕ → Type 0
Fresh x [] = Unit
Fresh x (y ∷ ys) = (x ≢ y) × Fresh x ys

abbrev pub Distinct : List ℕ → Type 0
Distinct [] = Unit
Distinct (x ∷ xs) = Fresh x xs × Distinct xs

abbrev pub In : ℕ → List ℕ → Type 0
In x [] = ⊥
In x (y ∷ ys) = (x ≡ y) ⊎ In x ys

pub In-ne : {x y : ℕ} (xs : List ℕ) → Fresh y xs → In x xs → x ≢ y
In-ne [] f i = elim i [ ]
In-ne (z ∷ zs) (ne, f) (inl e) = λ q. ne (sym q ∙ e)
In-ne (z ∷ zs) (ne, f) (inr i) = In-ne zs f i

pub Fresh-append : (x : ℕ) (xs ys : List ℕ) → Fresh x xs → Fresh x ys → Fresh x (xs ++ ys)
Fresh-append x [] ys f g = g
Fresh-append x (z ∷ zs) ys (ne, f) g = (ne, Fresh-append x zs ys f g)

pub Distinct-last : (x : ℕ) (xs : List ℕ) → Distinct xs → Fresh x xs → Distinct (xs ++ (x ∷ []))
Distinct-last x [] d f = (tt, tt)
Distinct-last x (y ∷ ys) (fy, d) (ne, f) =
    (Fresh-append y ys (x ∷ []) fy (λ e. ne (sym e), tt), Distinct-last x ys d f)
