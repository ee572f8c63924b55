-- ===== src/Base/Maps.antt =====
-- Memory and per-CPU arrays as functions.
use Prim.Native.Nat.{ℕ}
use mathlib.Core.Path.{◌≡◌, fun_ext}
use mathlib.Core.Logic.{◌≢◌}
use native.Mathlib.Omega.{arith}
use projects_demonstration.Base.Tests.{◌==◌, if◌then◌else◌}

module _ {ℓ} {A : Type ℓ} where
  abbrev pub update : (ℕ → A) → ℕ → A → ℕ → A
  update f k v i = if i == k then v else f i

  pub update_self : (f : ℕ → A) (k : ℕ) → update f k (f k) ≡ f
  update_self f k = fun_ext (λ i. ground arith)

  pub update-eq : (f : ℕ → A) (k : ℕ) (v : A) → update f k v k ≡ v
  update-eq f k v = ground arith

  pub update-ne : (f : ℕ → A) (k i : ℕ) (v : A) → i ≢ k → update f k v i ≡ f i
  update-ne f k i v ne = ground arith
