-- ===== src/Nemu/Exec/Entry.antt =====
-- The entry of an interrupt, read when three values are on the stack: `raise_intr` of
-- Emulator/nemu/src/isa/x86/intr.c.
use Prim.Native.Nat.{bit_or}
use projects_demonstration.Base.{
  ℕ, suc, ◌+◌, ◌*◌, ◌%◌, ◌^◌, ◌<◌, ◌≤◌, ◌≡◌, ◌⊎◌, inl, inr, refl, ap, ◌∙◌, some, List, arith,
}
use projects_demonstration.Nemu.{Machine, if_flag, set_flag}
use projects_demonstration.Nemu.Memory.{load}
use projects_demonstration.Nemu.Memory.Bytes.{load_other}
use projects_demonstration.Nemu.Memory.Laws.{host_address}
use projects_demonstration.Nemu.Paging.{isa_vaddr_read}
use projects_demonstration.Nemu.Paging.Laws.{in_page_read}
use projects_demonstration.Nemu.Paging.Parts.{join_halves}
use projects_demonstration.Nemu.Reg.{r_esp}
use projects_demonstration.Nemu.Reg.Stack.{IsStack, pushed, push-IsStack, top}
use projects_demonstration.Nemu.Rtl.{u32}

-- The machine when the flags, `cs` and the return address are on the stack.
abbrev pub flags_saved : Machine → Machine
flags_saved m = set_flag if_flag 0 (pushed m.eflags m)

abbrev pub cs_saved : Machine → Machine
cs_saved m = pushed m.cs (flags_saved m)

abbrev pub all_saved : ℕ → Machine → Machine
all_saved ret m = pushed ret (cs_saved m)

-- A push does not change bytes above the stack pointer or below the new value.
push_keeps :
    (v a len : ℕ) (m : Machine) (n : ℕ) (vs : List ℕ)
    → IsStack m (suc n) vs
    → m.pmem_map.low ≤ a
    → len ≤ 4
    → (a + len + 4 ≤ m.gpr r_esp) ⊎ (m.gpr r_esp ≤ a)
    → load (pushed v m).host (host_address m a) len ≡ load m.host (host_address m a) len
push_keeps v a len m n vs s low le o =
    load_other m.host (host_address m (top m)) v 4 (host_address m a) len (place o) le
  where
    place :
        (a + len + 4 ≤ m.gpr r_esp) ⊎ (m.gpr r_esp ≤ a)
        → (host_address m (top m) + 4 ≤ host_address m a)
          ⊎ (host_address m a + len ≤ host_address m (top m))
    place (inl p) = inr (ground arith)
    place (inr p) = inl (ground arith)

all_saved_keeps :
    (ret a : ℕ) (m : Machine) (n : ℕ) (vs : List ℕ)
    → m.eflags < 2 ^ 32
    → m.cs < 2 ^ 32
    → IsStack m (suc (suc (suc n))) vs
    → m.pmem_map.low ≤ a
    → (a + 14 ≤ m.gpr r_esp) ⊎ (m.gpr r_esp ≤ a)
    → load (all_saved ret m).host (host_address m a) 2 ≡ load m.host (host_address m a) 2
all_saved_keeps ret a m n vs fl cl s low o =
    push_keeps ret a 2 (cs_saved m) n _
      (push-IsStack m.cs (flags_saved m) _ _ cl (push-IsStack m.eflags m _ _ fl s)) low
      (omega arith) (third o)
    ∙ push_keeps m.cs a 2 (flags_saved m) _ _ (push-IsStack m.eflags m _ _ fl s) low (omega arith)
        (second o)
    ∙ push_keeps m.eflags a 2 m _ _ s low (omega arith) (first o)
  where
    first :
        (a + 14 ≤ m.gpr r_esp) ⊎ (m.gpr r_esp ≤ a) → (a + 2 + 4 ≤ m.gpr r_esp) ⊎ (m.gpr r_esp ≤ a)
    first (inl p) = inl (omega arith)
    first (inr p) = inr p

    second : (a + 14 ≤ m.gpr r_esp) ⊎ (m.gpr r_esp ≤ a) → (a + 2 + 4 ≤ top m) ⊎ (top m ≤ a)
    second (inl p) = inl (ground arith)
    second (inr p) = inr (ground arith)

    third :
        (a + 14 ≤ m.gpr r_esp) ⊎ (m.gpr r_esp ≤ a)
        → (a + 2 + 4 ≤ top (flags_saved m)) ⊎ (top (flags_saved m) ≤ a)
    third (inl p) = inl (ground arith)
    third (inr p) = inr (ground arith)

-- The address that the entry of an interrupt names, in its lower and its upper half.
abbrev pub entry_target : Machine → (entry : ℕ) → ℕ
entry_target m entry =
    load m.host (host_address m (entry + 6)) 2 * 2 ^ 16 + load m.host (host_address m entry) 2

-- The entry is in the physical memory, aligned, and not where three values are pushed.
pub record IsEntry (m : Machine) (entry : ℕ) : Type 0 where
  pub aligned : entry % 8 ≡ 0
  pub low : m.pmem_map.low ≤ entry
  pub high : entry + 8 ≤ m.pmem_map.high + 1
  pub space : entry + 8 ≤ 2 ^ 32
  pub apart : (entry + 20 ≤ m.gpr r_esp) ⊎ (m.gpr r_esp ≤ entry)

pub read_entry :
    (ret entry i : ℕ) (m : Machine)
    → m.cr0 < 2 ^ 31
    → IsEntry m entry
    → i ≤ 6
    → i % 2 ≡ 0
    → isa_vaddr_read (u32 (entry + i)) 2 (all_saved ret m)
      ≡ some (load (all_saved ret m).host (host_address m (entry + i)) 2, all_saved ret m)
read_entry ret entry i m flat e le even =
    ap (λ a. isa_vaddr_read a 2 (all_saved ret m)) (no_wrap entry i le e.space)
    ∙ in_page_read (entry + i) 2 (all_saved ret m) flat (omega arith)
        (fits entry i e.aligned le even)
        (record { low-le = ground arith; le-high = ground arith; le-space = ground arith })
  where
    no_wrap : (entry i : ℕ) → i ≤ 6 → entry + 8 ≤ 2 ^ 32 → u32 (entry + i) ≡ entry + i
    no_wrap entry i le sp = omega arith

    fits : (entry i : ℕ) → entry % 8 ≡ 0 → i ≤ 6 → i % 2 ≡ 0 → (entry + i) % 4096 + 2 ≤ 4096
    fits entry i al le even = omega arith

load_half : (h : ℕ → ℕ) (a : ℕ) → load h a 2 < 2 ^ 16
load_half h a = omega arith

pub read_first :
    (ret entry : ℕ) (m : Machine)
    → m.cr0 < 2 ^ 31
    → IsEntry m entry
    → isa_vaddr_read (u32 entry) 2 (all_saved ret m)
      ≡ some (load (all_saved ret m).host (host_address m entry) 2, all_saved ret m)
read_first ret entry m flat e =
    ap (λ a. isa_vaddr_read (u32 a) 2 (all_saved ret m)) (omega arith)
    ∙ read_entry ret entry 0 m flat e (omega arith) refl
    ∙ ap (λ a. some (load (all_saved ret m).host (host_address m a) 2, all_saved ret m))
        {x = entry + 0} (omega arith)

pub target :
    (ret entry : ℕ) (m : Machine) (n : ℕ) (vs : List ℕ)
    → m.eflags < 2 ^ 32
    → m.cs < 2 ^ 32
    → IsStack m (suc (suc (suc n))) vs
    → IsEntry m entry
    → bit_or
        (u32 (load (all_saved ret m).host (host_address m (entry + 6)) 2 * 2 ^ 16))
        (load (all_saved ret m).host (host_address m entry) 2)
      ≡ entry_target m entry
target ret entry m n vs fl cl s e =
    join_halves (load (all_saved ret m).host (host_address m (entry + 6)) 2)
      (load (all_saved ret m).host (host_address m entry) 2)
      (load_half (all_saved ret m).host (host_address m (entry + 6)))
      (load_half (all_saved ret m).host (host_address m entry))
    ∙ cong_target (all_saved_keeps ret (entry + 6) m n vs fl cl s (ground arith) (upper e.apart))
        (all_saved_keeps ret entry m n vs fl cl s e.low (lower e.apart))
  where
    cong_target : {x x' y y' : ℕ} → x ≡ x' → y ≡ y' → x * 2 ^ 16 + y ≡ x' * 2 ^ 16 + y'
    cong_target p q i = p i * 2 ^ 16 + q i

    upper :
        (entry + 20 ≤ m.gpr r_esp) ⊎ (m.gpr r_esp ≤ entry)
        → (entry + 6 + 14 ≤ m.gpr r_esp) ⊎ (m.gpr r_esp ≤ entry + 6)
    upper (inl p) = inl (omega arith)
    upper (inr p) = inr (omega arith)

    lower :
        (entry + 20 ≤ m.gpr r_esp) ⊎ (m.gpr r_esp ≤ entry)
        → (entry + 14 ≤ m.gpr r_esp) ⊎ (m.gpr r_esp ≤ entry)
    lower (inl p) = inl (omega arith)
    lower (inr p) = inr p
