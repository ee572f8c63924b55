-- ===== src/Nemu/Reg/Stack.antt =====
-- `rtl_push` and `rtl_pop` of Emulator/nemu/src/isa/x86/include/isa/rtl.h as operations on a list, with
-- paging off.
use mathlib.Core.Path.{subst}
use projects_demonstration.Base.{
  ℕ, suc, ◌+◌, ◌-◌, ◌*◌, ◌%◌, ◌^◌, ◌<◌, ◌≤◌, ◌≡◌, inl, inr, refl, sym, ap, ◌∙◌, some, List, [], ◌∷◌,
  length, update, update-ne, update-eq, arith, eq-cases,
}
use projects_demonstration.Nemu.{Machine, IoMap}
use projects_demonstration.Nemu.Memory.{load, store}
use projects_demonstration.Nemu.Memory.Bytes.{load_stored, load_other}
use projects_demonstration.Nemu.Memory.Laws.{host_address}
use projects_demonstration.Nemu.Paging.{isa_vaddr_read}
use projects_demonstration.Nemu.Paging.Laws.{InMemory, in_page_read, in_page_write}
use projects_demonstration.Nemu.Reg.{rtl_push, rtl_pop, r_esp}
use projects_demonstration.Nemu.Rtl.{u32}
use projects_demonstration.Nemu.Steps.{after_bind, Ends, ends}

-- The values in memory from the address on.
unfoldable pub Holds : (ℕ → ℕ) → IoMap → (a : ℕ) → List ℕ → Type 0
Holds h map a [] = Unit
Holds h map a (v ∷ vs) = (load h (map.space + (a - map.low)) 4 ≡ v) × Holds h map (a + 4) vs

-- The values from `esp` on, with room for as many more below it.
pub record IsStackAt (cr0 esp : ℕ) (map : IoMap) (h : ℕ → ℕ) (room : ℕ) (vs : List ℕ) : Type 0 where
  pub flat : cr0 < 2 ^ 31
  pub aligned : esp % 4 ≡ 0
  pub low : map.low + 4 * room ≤ esp
  pub high : esp + 4 * length vs ≤ map.high + 1
  pub space : esp + 4 * length vs < 2 ^ 32
  pub values : Holds h map esp vs

abbrev pub IsStack : Machine → (room : ℕ) → List ℕ → Type 0
IsStack m room vs = IsStackAt m.cr0 (m.gpr r_esp) m.pmem_map m.host room vs

-- The machine after a value was pushed or popped.
abbrev pub pushed : ℕ → Machine → Machine
pushed v m = record m {
  gpr = update m.gpr r_esp (u32 (m.gpr r_esp + 2 ^ 32 - 4));
  host = store m.host (host_address m (u32 (m.gpr r_esp + 2 ^ 32 - 4))) v 4;
}

abbrev pub popped : Machine → Machine
popped m = record m { gpr = update m.gpr r_esp (u32 (m.gpr r_esp + 4)) }

-- The address of the value that is pushed next.
abbrev pub top : Machine → ℕ
top m = u32 (m.gpr r_esp + 2 ^ 32 - 4)

top_lem : (m : Machine) (n : ℕ) (vs : List ℕ) → IsStack m (suc n) vs → top m ≡ m.gpr r_esp - 4
top_lem m n vs s = ground arith

push_place :
    (m : Machine) (n : ℕ) (vs : List ℕ)
    → IsStack m (suc n) vs
    → InMemory (record m { gpr = update m.gpr r_esp (top m) }) (top m) 4
push_place m n vs s = record {
  low-le = ground arith;
  le-high = ground arith;
  le-space = ground arith;
}

pub push_lem :
    (v : ℕ) (m : Machine) (n : ℕ) (vs : List ℕ)
    → IsStack m (suc n) vs
    → rtl_push v m ≡ some (tt, pushed v m)
unfolding rtl_push
push_lem v m n vs s =
    in_page_write (top m) v 4 (record m { gpr = update m.gpr r_esp (top m) }) s.flat (omega arith)
      (page_fits (m.gpr r_esp) s.aligned (ground arith) (ground arith)) (push_place m n vs s)
  where
    page_fits : (e : ℕ) → e % 4 ≡ 0 → 4 ≤ e → e < 2 ^ 32 → u32 (e + 2 ^ 32 - 4) % 4096 + 4 ≤ 4096
    page_fits e al p q = omega arith

pub pop_lem :
    (m : Machine) (n v : ℕ) (vs : List ℕ) → IsStack m n (v ∷ vs) → rtl_pop m ≡ some (v, popped m)
unfolding rtl_pop Holds
pop_lem m n v vs s =
    after_bind (isa_vaddr_read (m.gpr r_esp) 4) _ m (
      in_page_read (m.gpr r_esp) 4 m s.flat (omega arith) (page_fits (m.gpr r_esp) s.aligned)
        (record { low-le = ground arith; le-high = ground arith; le-space = ground arith }))
    ∙ ap (λ x. some (x, popped m)) (s.values.0)
  where
    page_fits : (e : ℕ) → e % 4 ≡ 0 → e % 4096 + 4 ≤ 4096
    page_fits e al = omega arith

-- A store below the values does not change them.
kept :
    (vs : List ℕ) (h : ℕ → ℕ) (map : IoMap) (p v a : ℕ)
    → map.low ≤ p
    → p + 4 ≤ a
    → Holds h map a vs
    → Holds (store h (map.space + (p - map.low)) v 4) map a vs
unfolding Holds
kept [] h map p v a le lt hs = tt
kept (x ∷ vs) h map p v a le lt (e, hs) = (
  load_other h (map.space + (p - map.low)) v 4 (map.space + (a - map.low)) 4 (inl (ground arith))
        (omega arith)
      ∙ e,
  kept vs h map p v (a + 4) le (omega arith) hs,
)

put_first :
    (vs : List ℕ) (h : ℕ → ℕ) (map : IoMap) (p v a : ℕ)
    → v < 2 ^ 32
    → map.low ≤ p
    → p + 4 ≡ a
    → Holds h map a vs
    → Holds (store h (map.space + (p - map.low)) v 4) map p (v ∷ vs)
unfolding Holds
put_first vs h map p v a lt le e hs = (
  load_stored h (map.space + (p - map.low)) v 4 (omega arith) (omega arith) ∙ omega arith,
  subst (λ b. Holds (store h (map.space + (p - map.low)) v 4) map b vs) (sym e)
      (kept vs h map p v a le (omega arith) hs),
)

pub push-IsStack :
    (v : ℕ) (m : Machine) (n : ℕ) (vs : List ℕ)
    → v < 2 ^ 32
    → IsStack m (suc n) vs
    → IsStack (pushed v m) n (v ∷ vs)
push-IsStack v m n vs lt s = record {
  flat = s.flat;
  aligned = ground arith;
  low = ground arith;
  high = ground arith;
  space = ground arith;
  values =
      put_first vs m.host m.pmem_map (top m) v (m.gpr r_esp) lt (ground arith) (ground arith)
        s.values;
}

pub pop-IsStack :
    (m : Machine) (n v : ℕ) (vs : List ℕ) → IsStack m n (v ∷ vs) → IsStack (popped m) (suc n) vs
unfolding Holds
pop-IsStack m n v vs s = record {
  flat = s.flat;
  aligned = ground arith;
  low = ground arith;
  high = ground arith;
  space = ground arith;
  values = subst (λ a. Holds m.host m.pmem_map a vs) (ground arith) (s.values.1);
}

pub esp_back :
    (m : Machine) (n : ℕ) (vs : List ℕ) → IsStack m (suc n) vs → u32 (top m + 4) ≡ m.gpr r_esp
esp_back m n vs s = ground arith

pub same_reg : (g : ℕ → ℕ) (x y r : ℕ) → y ≡ g r_esp → update (update g r_esp x) r_esp y r ≡ g r
same_reg g x y r e = elim (eq-cases r r_esp) [
  | inl f ↦
      ap (update (update g r_esp x) r_esp y) f
      ∙ update-eq (update g r_esp x) r_esp y
      ∙ e
      ∙ ap g (sym f)
  | inr ne ↦ update-ne (update g r_esp x) r_esp r y ne ∙ update-ne g r_esp r x ne
]

-- With paging off, pushing a number below 2 ^ 32 on a stack of values that has room returns and leaves the
-- stack with the number before the others; popping from that returns the number and leaves the
-- stack and every register as they were.
pub push_then_pop :
    (v r : ℕ) (m : Machine) (n : ℕ) (vs : List ℕ)
    → v < 2 ^ 32
    → IsStack m (suc n) vs
    → Ends (rtl_push v) m (λ u m1.
      IsStack m1 n (v ∷ vs)
      × Ends rtl_pop m1 (λ x m2. (x ≡ v) × IsStack m2 (suc n) vs × (m2.gpr r ≡ m.gpr r)))
push_then_pop v r m n vs lt s = ends (rtl_push v) m _ (push_lem v m n vs s) (
  s1,
  ends rtl_pop (pushed v m) _ (pop_lem (pushed v m) n v vs s1)
      (refl, pop-IsStack (pushed v m) n v vs s1, same_reg m.gpr (top m) _ r (esp_back m n vs s)),
)
  where
    s1 : IsStack (pushed v m) n (v ∷ vs)
    s1 = push-IsStack v m n vs lt s
