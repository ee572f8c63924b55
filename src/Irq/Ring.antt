-- ===== src/Irq/Ring.antt =====
-- The ring of wrappers as a list of addresses, and the order that `check_seq` asks for.
use projects_demonstration.Base.{
  ℕ, zero, suc, ◌≤◌, ◌<◌, ◌≡◌, ◌≢◌, refl, sym, true, false, List, [], ◌∷◌, ◌==◌, leb, length,
  update, update-ne, eq→==, ne→==, arith, Fresh,
}
use projects_demonstration.Irq.{Wrapper, Irq, returns, check_from, check_seq}

module _ {S C : Type 0} where
  -- Following `next` from `cur` passes the addresses, each once, and comes to the head.
  abbrev pub Seg : (ℕ → Wrapper S C) → ℕ → ℕ → List ℕ → Type 0
  Seg mem head cur [] = cur ≡ head
  Seg mem head cur (x ∷ xs) = (cur ≡ x) × (x ≢ head) × Fresh x xs × Seg mem head (mem x).next xs

  -- The sequence numbers along the list never fall below the one before.
  abbrev pub Ordered : (ℕ → Wrapper S C) → ℕ → List ℕ → Type 0
  Ordered mem last [] = Unit
  Ordered mem last (x ∷ xs) = (last ≤ (mem x).seq) × Ordered mem (mem x).seq xs

  -- The handlers registered in `s`, in the order of the ring; `wrapper_head` itself has INT_MIN.
  pub record IsRing (s : Irq S C) (xs : List ℕ) : Type 0 where
    pub linked : Seg s.mem s.head (s.mem s.head).next xs
    pub ordered : Ordered s.mem 0 xs
    pub head_seq : (s.mem s.head).seq ≡ 0

  -- A change of `next` fields, outside the addresses of a segment for `next` itself.
  pub Seg-update :
      (mem : ℕ → Wrapper S C) (head cur k : ℕ) (w : Wrapper S C) (xs : List ℕ)
      → Fresh k xs
      → Seg mem head cur xs
      → Seg (update mem k w) head cur xs
  Seg-update mem head cur k w [] f s = s
  Seg-update mem head cur k w (x ∷ xs) (ne, f) (e, off, fresh, s) = (
    e,
    off,
    fresh,
    rw (update-ne mem k x w (λ q. ne (sym q))) (Seg-update mem head (mem x).next k w xs f s),
  )

  pub Ordered-update :
      (mem : ℕ → Wrapper S C) (last k : ℕ) (w : Wrapper S C) (xs : List ℕ)
      → Fresh k xs
      → Ordered mem last xs
      → Ordered (update mem k w) last xs
  Ordered-update mem last k w [] f o = tt
  Ordered-update mem last k w (x ∷ xs) (ne, f) (le, o) =
      rw (update-ne mem k x w (λ q. ne (sym q))) (le, Ordered-update mem (mem x).seq k w xs f o)

  -- `check_seq` passes on a ring in order.
  check_from-Ordered :
      (s : Irq S C) (fuel last cur : ℕ) (xs : List ℕ)
      → length xs < fuel
      → Seg s.mem s.head cur xs
      → Ordered s.mem last xs
      → check_from fuel last cur s ≡ returns tt
  unfolding check_from
  check_from-Ordered s zero last cur xs lt seg o = absurd (omega arith)
  check_from-Ordered s (suc fuel) last cur [] lt seg o = rw (eq→== cur s.head seg) refl
  check_from-Ordered s (suc fuel) last cur (x ∷ xs) lt (e, off, f, seg) (le, o) =
      let ne : (x == s.head) ≡ false = ne→== x s.head off in
      let up : leb last (s.mem x).seq ≡ true = ground arith in
      rw (e, ne, up) (check_from-Ordered s fuel (s.mem x).seq (s.mem x).next xs (omega arith) seg o)

  pub check_seq-IsRing :
      {s : Irq S C} {xs : List ℕ} (fuel : ℕ)
      → length xs < fuel
      → IsRing s xs
      → check_seq fuel s ≡ returns tt
  unfolding check_seq
  check_seq-IsRing {s} {xs} fuel lt r =
      check_from-Ordered s fuel 0 (s.mem s.head).next xs lt r.linked r.ordered
