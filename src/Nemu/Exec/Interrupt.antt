-- ===== src/Nemu/Exec/Interrupt.antt =====
-- Entering an interrupt and returning from it, with paging off: `raise_intr` of
-- Emulator/nemu/src/isa/x86/intr.c and `iret` of Emulator/nemu/src/isa/x86/exec/system.c.
use projects_demonstration.Base.{ℕ, suc, ◌+◌, ◌*◌, ◌^◌, ◌<◌, ◌≡◌, refl, ◌∙◌, true, List, ◌∷◌, arith}
use projects_demonstration.Nemu.{Machine}
use projects_demonstration.Nemu.Exec.Entry.{
  flags_saved, cs_saved, all_saved, entry_target, IsEntry, read_entry, read_first, target,
}
use projects_demonstration.Nemu.Exec.System.{raise_intr, exec_iret}
use projects_demonstration.Nemu.Paging.{isa_vaddr_read}
use projects_demonstration.Nemu.Reg.{rtl_push, rtl_pop}
use projects_demonstration.Nemu.Reg.Stack.{
  IsStack, popped, push_lem, pop_lem, push-IsStack, pop-IsStack,
}
use projects_demonstration.Nemu.Rtl.{u32}
use projects_demonstration.Nemu.Steps.{after, after_bind, Ends, ends}

-- The machine in `iret` before its second and its third pop.
abbrev first_popped : ℕ → Machine → Machine
first_popped a m = record (popped m) { pc = a; is_jmp = true }

abbrev second_popped : (a b : ℕ) → Machine → Machine
second_popped a b m = record (popped (first_popped a m)) { cs = b }

raise_lem :
    (number ret : ℕ) (m : Machine) (n : ℕ) (vs : List ℕ)
    → m.eflags < 2 ^ 32
    → m.cs < 2 ^ 32
    → ret < 2 ^ 32
    → IsStack m (suc (suc (suc n))) vs
    → IsEntry m (m.idtr_base + number * 8)
    → Ends (raise_intr number ret) m (λ u m1.
      (m1.pc ≡ entry_target m (m.idtr_base + number * 8))
      × (m1.is_jmp ≡ true)
      × IsStack m1 n (ret ∷ m.cs ∷ m.eflags ∷ vs))
unfolding raise_intr
raise_lem number ret m n vs fl cl rl s e =
    let entry = m.idtr_base + number * 8 in
    let s1 = push-IsStack m.eflags m (suc (suc n)) vs fl s in
    let s2 = push-IsStack m.cs (flags_saved m) (suc n) (m.eflags ∷ vs) cl s1 in
    ends (raise_intr number ret) m _
      (after (rtl_push m.eflags) _ m (push_lem m.eflags m (suc (suc n)) vs s)
        ∙ after (rtl_push m.cs) _ (flags_saved m)
            (push_lem m.cs (flags_saved m) (suc n) (m.eflags ∷ vs) s1)
        ∙ after (rtl_push ret) _ (cs_saved m)
            (push_lem ret (cs_saved m) n (m.cs ∷ m.eflags ∷ vs) s2)
        ∙ after_bind (isa_vaddr_read (u32 entry) 2) _ (all_saved ret m)
            (read_first ret entry m s.flat e)
        ∙ after_bind (isa_vaddr_read (u32 (entry + 6)) 2) _ (all_saved ret m)
            (read_entry ret entry 6 m s.flat e (omega arith) (omega arith)))
      (
        target ret entry m n vs fl cl s e,
        refl,
        push-IsStack ret (cs_saved m) n (m.cs ∷ m.eflags ∷ vs) rl s2,
      )

iret_lem :
    (a b c : ℕ) (m : Machine) (n : ℕ) (vs : List ℕ)
    → IsStack m n (a ∷ b ∷ c ∷ vs)
    → Ends exec_iret m (λ u m1.
      (m1.pc ≡ a)
      × (m1.is_jmp ≡ true)
      × (m1.cs ≡ b)
      × (m1.eflags ≡ c)
      × IsStack m1 (suc (suc (suc n))) vs)
unfolding exec_iret
iret_lem a b c m n vs s =
    let s1 = pop-IsStack m n a (b ∷ c ∷ vs) s in
    let s2 = pop-IsStack (first_popped a m) (suc n) b (c ∷ vs) s1 in
    ends exec_iret m _
      (after_bind rtl_pop _ m (pop_lem m n a (b ∷ c ∷ vs) s)
        ∙ after_bind rtl_pop _ (first_popped a m) (pop_lem (first_popped a m) (suc n) b (c ∷ vs) s1)
        ∙ after_bind rtl_pop _ (second_popped a b m)
            (pop_lem (second_popped a b m) (suc (suc n)) c vs s2))
      (refl, refl, refl, refl, pop-IsStack (second_popped a b m) (suc (suc n)) c vs s2)

-- With paging off and room for three values on the stack, raising an interrupt whose entry is aligned and not
-- where the values are pushed jumps to the address in the entry with the flags, `cs` and the
-- return address on the stack; `iret` on any machine with these three on its stack jumps to the
-- return address, gives the flags and `cs` back and takes the three off.
pub raise_then_iret :
    (number ret : ℕ) (m m' : Machine) (n : ℕ) (vs : List ℕ)
    → m.eflags < 2 ^ 32
    → m.cs < 2 ^ 32
    → ret < 2 ^ 32
    → IsStack m (suc (suc (suc n))) vs
    → IsEntry m (m.idtr_base + number * 8)
    → IsStack m' n (ret ∷ m.cs ∷ m.eflags ∷ vs)
    → Ends (raise_intr number ret) m (λ u m1.
      (m1.pc ≡ entry_target m (m.idtr_base + number * 8))
      × (m1.is_jmp ≡ true)
      × IsStack m1 n (ret ∷ m.cs ∷ m.eflags ∷ vs))
      × Ends exec_iret m' (λ u m1.
        (m1.pc ≡ ret)
        × (m1.is_jmp ≡ true)
        × (m1.cs ≡ m.cs)
        × (m1.eflags ≡ m.eflags)
        × IsStack m1 (suc (suc (suc n))) vs)
raise_then_iret number ret m m' n vs fl cl rl s e s' =
    (raise_lem number ret m n vs fl cl rl s e, iret_lem ret m.cs m.eflags m' n vs s')
