-- ===== src/Nemu/Steps.antt =====
-- How a run goes on after a step that returned.
use projects_demonstration.Base.{Option, refl, none, some, ◌≡◌, ap, sym}
use mathlib.Core.Path.{subst}
use projects_demonstration.Nemu.{Machine, Run, ◌>>=◌, ◌>>◌}

pub after_bind :
    {A B : Type 0} (r : Run A) (k : A → Run B) (m : Machine) {a : A} {m' : Machine}
    → r m ≡ some (a, m')
    → (r >>= k) m ≡ k a m'
after_bind r k m e = ap (λ o. elim o [ none ↦ none | some (a, m') ↦ k a m' ]) e

pub after :
    {B : Type 0} (r : Run (Unit {0})) (k : Run B) (m : Machine) {m' : Machine}
    → r m ≡ some (tt, m')
    → (r >> k) m ≡ k m'
after r k m e = ap (λ o. elim o [ none ↦ none | some (u, m') ↦ k m' ]) e

-- The step returns, and `P` holds of the value and of the machine it leaves.
unfoldable pub Ends : {A : Type 0} → Run A → Machine → (A → Machine → Type 0) → Type 0
Ends r m P = elim (r m) [ none ↦ ⊥ | some (a, m') ↦ P a m' ]

pub ends :
    {A : Type 0} (r : Run A) (m : Machine) (P : A → Machine → Type 0) {a : A} {m' : Machine}
    → r m ≡ some (a, m')
    → P a m'
    → Ends r m P
unfolding Ends
ends r m P e p = subst (λ o. elim o [ none ↦ ⊥ | some (a, m') ↦ P a m' ]) (sym e) p

-- A step that fails, and two runs that go on alike.
pub fails_bind :
    {A B : Type 0} (r : Run A) (k : A → Run B) (m : Machine) → r m ≡ none → (r >>= k) m ≡ none
fails_bind r k m e = ap (λ o. elim o [ none ↦ none | some (a, m') ↦ k a m' ]) e

pub fails :
    {B : Type 0} (r : Run (Unit {0})) (k : Run B) (m : Machine) → r m ≡ none → (r >> k) m ≡ none
fails r k m e = ap (λ o. elim o [ none ↦ none | some (u, m') ↦ k m' ]) e

pub go_on :
    {B : Type 0} (r r' : Run (Unit {0})) (k : Run B) (m m' : Machine)
    → r m ≡ r' m'
    → (r >> k) m ≡ (r' >> k) m'
go_on r r' k m m' e = ap (λ o. elim o [ none ↦ none | some (u, m') ↦ k m' ]) e

-- Three steps group either way.
pub regroup :
    {B : Type 0} (r s : Run (Unit {0})) (k : Run B) (m : Machine)
    → ((r >> s) >> k) m ≡ (r >> (s >> k)) m
regroup {B = B} r s k m = go (r m)
  where
    go :
        (o : Option (Unit {0} × Machine))
        → elim (elim o as (λ x. Option (Unit {0} × Machine)) [ none ↦ none | some (u, m') ↦ s m' ])
            as (λ x. Option (B × Machine)) [ none ↦ none | some (u, m') ↦ k m' ]
          ≡ elim o as (λ x. Option (B × Machine)) [ none ↦ none | some (u, m') ↦ (s >> k) m' ]
    go none = refl
    go (some (u, m')) = refl
