-- ===== src/Nemu/Exec/StackSteps.antt =====
-- Registers that are pushed and popped one by one, with what is known of the registers.
use mathlib.Core.Path.{subst}
use projects_demonstration.Base.{
  ℕ, suc, ◌+◌, ◌^◌, ◌<◌, ◌≡◌, ◌≢◌, sym, ap, ◌∙◌, Bool, true, not, ◌&&◌, ◌==◌, none, some, List, [],
  ◌∷◌, update, update-eq, update-ne, arith,
}
use projects_demonstration.Nemu.{Machine, Run, ◌>>=◌, ◌>>◌}
use projects_demonstration.Nemu.Exec.Move.{push_reg, pop_reg}
use projects_demonstration.Nemu.Reg.{rtl_push, rtl_pop, set_reg, r_esp}
use projects_demonstration.Nemu.Reg.Stack.{
  IsStack, IsStackAt, pushed, popped, push_lem, pop_lem, push-IsStack, pop-IsStack, top,
}
use projects_demonstration.Nemu.Rtl.{u32}
use projects_demonstration.Nemu.Steps.{after, after_bind, Ends, ends}

-- What some registers hold.
unfoldable pub Known : Machine → List (ℕ × ℕ) → Type 0
Known m [] = Unit
Known m ((r, v) ∷ ps) = (m.gpr r ≡ v) × Known m ps

pub Known-nothing : (m : Machine) → Known m []
unfolding Known
Known-nothing m = tt

abbrev pub fresh : ℕ → List (ℕ × ℕ) → Bool
fresh r [] = true
fresh r ((i, v) ∷ ps) = not (i == r) && fresh r ps

Agree : (r r' : ℕ) → Machine → Machine → Type 0
Agree r r' m m' = (i : ℕ) → i ≢ r → i ≢ r' → m'.gpr i ≡ m.gpr i

Known-kept :
    (r r' : ℕ) (m m' : Machine) (ps : List (ℕ × ℕ))
    → Agree r r' m m'
    → fresh r ps ≡ true
    → fresh r' ps ≡ true
    → Known m ps
    → Known m' ps
unfolding Known Agree
Known-kept r r' m m' [] agree f f' k = tt
Known-kept r r' m m' ((i, v) ∷ ps) agree f f' (e, k) = (
  agree i (λ x. ground arith) (λ x. ground arith) ∙ e,
  Known-kept r r' m m' ps agree (ground arith) (ground arith) k,
)

-- Every register but `esp` as the function says.
abbrev pub Regs : (ℕ → ℕ) → Machine → Type 0
Regs g m = (i : ℕ) → i ≢ r_esp → m.gpr i ≡ g i

pushed-Regs : (g : ℕ → ℕ) (v : ℕ) (m : Machine) → Regs g m → Regs g (pushed v m)
pushed-Regs g v m rs i ne = update-ne m.gpr r_esp i (top m) ne ∙ rs i ne

-- The registers hold numbers below 2 ^ 32.
unfoldable pub IsLongs : (ℕ → ℕ) → Type 0
IsLongs g = (r : ℕ) → g r < 2 ^ 32

pub IsLongs-lt : (g : ℕ → ℕ) → IsLongs g → (r : ℕ) → g r < 2 ^ 32
unfolding IsLongs
IsLongs-lt g h r = h r

-- One register more on the stack, or one less; what follows knows only the registers and the stack.
pub push_value_step :
    (g : ℕ → ℕ) (v : ℕ) (k : Run (Unit {0})) (m : Machine) (n : ℕ) (vs : List ℕ)
    (P : Unit {0} → Machine → Type 0)
    → Regs g m
    → v < 2 ^ 32
    → IsStack m (suc n) vs
    → ((m' : Machine) → Regs g m' → IsStack m' n (v ∷ vs) → Ends k m' P)
    → Ends (rtl_push v >> k) m P
unfolding Ends
push_value_step g v k m n vs P rs lt s go =
    subst (λ o. elim o [ none ↦ ⊥ | some (a, m') ↦ P a m' ])
      (sym (after (rtl_push v) k m (push_lem v m n vs s)))
      (go (pushed v m) (pushed-Regs g v m rs) (push-IsStack v m n vs lt s))

pub push_step :
    (g : ℕ → ℕ) (r : ℕ) (k : Run (Unit {0})) (m : Machine) (n : ℕ) (vs : List ℕ)
    (P : Unit {0} → Machine → Type 0)
    → Regs g m
    → r ≢ r_esp
    → IsLongs g
    → IsStack m (suc n) vs
    → ((m' : Machine) → Regs g m' → IsStack m' n (g r ∷ vs) → Ends k m' P)
    → Ends (push_reg r >> k) m P
unfolding Ends
push_step g r k m n vs P rs ne lt s go =
    subst (λ v. Ends (rtl_push v >> k) m P) (sym (rs r ne))
      (push_value_step g (g r) k m n vs P rs (IsLongs-lt g lt r) s go)

-- A value popped into a register.
abbrev loaded : (r v : ℕ) → Machine → Machine
loaded r v m = record m { gpr = update (popped m).gpr r v }

pub push_last :
    (g : ℕ → ℕ) (r : ℕ) (m : Machine) (n : ℕ) (vs : List ℕ)
    → Regs g m
    → r ≢ r_esp
    → IsLongs g
    → IsStack m (suc n) vs
    → Ends (push_reg r) m (λ u m1. IsStack m1 n (g r ∷ vs))
push_last g r m n vs rs ne lt s =
    ends (push_reg r) m _ (ap (λ v. rtl_push v m) (rs r ne) ∙ push_lem (g r) m n vs s)
      (push-IsStack (g r) m n vs (IsLongs-lt g lt r) s)

loaded-IsStack :
    (r v : ℕ) (m : Machine) (n : ℕ) (vs : List ℕ)
    → r ≢ r_esp
    → IsStack m n (v ∷ vs)
    → IsStack (loaded r v m) (suc n) vs
loaded-IsStack r v m n vs ne s =
    subst (λ e. IsStackAt m.cr0 e m.pmem_map m.host (suc n) vs)
      (sym (update-ne (popped m).gpr r r_esp v (λ e. ne (sym e)))) (pop-IsStack m n v vs s)

loaded-Known :
    (r v : ℕ) (m : Machine) (ps : List (ℕ × ℕ))
    → fresh r ps ≡ true
    → fresh r_esp ps ≡ true
    → Known m ps
    → Known (loaded r v m) ((r, v) ∷ ps)
unfolding Known Agree
loaded-Known r v m ps f f' known =
    (update-eq (popped m).gpr r v, Known-kept r r_esp m (loaded r v m) ps agree f f' known)
  where
    agree : Agree r r_esp m (loaded r v m)
    agree i ne ne' =
        update-ne (popped m).gpr r i v ne ∙ update-ne m.gpr r_esp i (u32 (m.gpr r_esp + 4)) ne'

pop_reg_lem :
    (r : ℕ) (m : Machine) (n v : ℕ) (vs : List ℕ)
    → IsStack m n (v ∷ vs)
    → pop_reg r m ≡ some (tt, loaded r v m)
pop_reg_lem r m n v vs s = after_bind rtl_pop (set_reg r) m (pop_lem m n v vs s)

pub pop_step :
    (r : ℕ) (k : Run (Unit {0})) (m : Machine) (n v : ℕ) (vs : List ℕ) (ps : List (ℕ × ℕ))
    (P : Unit {0} → Machine → Type 0)
    → r ≢ r_esp
    → fresh r ps ≡ true
    → fresh r_esp ps ≡ true
    → IsStack m n (v ∷ vs)
    → Known m ps
    → ((m' : Machine) → IsStack m' (suc n) vs → Known m' ((r, v) ∷ ps) → Ends k m' P)
    → Ends (pop_reg r >> k) m P
unfolding Ends
pop_step r k m n v vs ps P ne f f' s known go =
    subst (λ o. elim o [ none ↦ ⊥ | some (a, m') ↦ P a m' ])
      (sym (after (pop_reg r) k m (pop_reg_lem r m n v vs s)))
      (go (loaded r v m) (loaded-IsStack r v m n vs ne s) (loaded-Known r v m ps f f' known))

pub pop_last :
    (r : ℕ) (m : Machine) (n v : ℕ) (vs : List ℕ) (ps : List (ℕ × ℕ))
    → r ≢ r_esp
    → fresh r ps ≡ true
    → fresh r_esp ps ≡ true
    → IsStack m n (v ∷ vs)
    → Known m ps
    → Ends (pop_reg r) m (λ u m1. IsStack m1 (suc n) vs × Known m1 ((r, v) ∷ ps))
pop_last r m n v vs ps ne f f' s known =
    ends (pop_reg r) m _ (pop_reg_lem r m n v vs s)
      (loaded-IsStack r v m n vs ne s, loaded-Known r v m ps f f' known)

-- A value popped and dropped.
pub pop_away :
    (k : ℕ → Run (Unit {0})) (m : Machine) (n v : ℕ) (vs : List ℕ) (ps : List (ℕ × ℕ))
    (P : Unit {0} → Machine → Type 0)
    → fresh r_esp ps ≡ true
    → IsStack m n (v ∷ vs)
    → Known m ps
    → ((m' : Machine) → IsStack m' (suc n) vs → Known m' ps → Ends (k v) m' P)
    → Ends (rtl_pop >>= k) m P
unfolding Ends Known Agree
pop_away k m n v vs ps P f s known go =
    subst (λ o. elim o [ none ↦ ⊥ | some (a, m') ↦ P a m' ])
      (sym (after_bind rtl_pop k m (pop_lem m n v vs s)))
      (go (popped m) (pop-IsStack m n v vs s)
        (Known-kept r_esp r_esp m (popped m) ps agree f f known))
  where
    agree : Agree r_esp r_esp m (popped m)
    agree i ne ne' = update-ne m.gpr r_esp i (u32 (m.gpr r_esp + 4)) ne
