-- ===== src/Str/Fill.antt =====
-- `memset` of string.c.
use native.Mathlib.Decide.{dec_lt}
use projects_demonstration.Base.{
  ℕ, zero, suc, ◌+◌, ◌%◌, ◌≤◌, ◌<◌, ◌≡◌, refl, ◌∙◌, ◌⊎◌, inl, inr, arith, false, ◌==◌, update,
  update-eq, update-ne,
}
use projects_demonstration.Str.{memset_from, memset}

-- The `n` bytes at `v` hold `c` as a byte, and no other byte has changed.
pub record Fills (mem mem' : ℕ → ℕ) (v c n : ℕ) : Type 0 where
  pub filled : (k : ℕ) → k < n → mem' (v + k) ≡ c % 256
  pub others : (a : ℕ) → (a < v) ⊎ (v + n ≤ a) → mem' a ≡ mem a

memset_from-Fills : (n v c : ℕ) (mem : ℕ → ℕ) → Fills mem (memset_from n v c mem) v c n
unfolding memset_from
memset_from-Fills zero v c mem = record {
  filled = λ k lt. absurd (omega arith);
  others = λ a o. refl;
}
memset_from-Fills (suc n) v c mem =
    let t = memset_from-Fills n v c (update mem (v + n) (c % 256)) in
    record {
      filled = λ k lt. (elim (dec_lt k n) [
        | yes below ↦ t.filled k below
        | no above ↦
            let e : k ≡ n = omega arith in
            rw e (t.others (v + n) (inr (omega arith)) ∙ update-eq mem (v + n) (c % 256))
      ]);
      others = λ a o.
          t.others a (elim o [ inl lt ↦ inl lt | inr le ↦ inr (omega arith) ])
          ∙ update-ne mem (v + n) a (c % 256)
              (elim o [ inl lt ↦ omega arith | inr le ↦ omega arith ]);
    }

-- `memset` returns its pointer, if it is not NULL, with the `n` bytes there set to `c` as a byte and
-- no other byte changed.
pub memset-Fills :
    (v c n : ℕ) (mem : ℕ → ℕ)
    → 0 < v
    → (mem' : ℕ → ℕ) × (memset v c n mem ≡ (v, mem')) × Fills mem mem' v c n
unfolding memset
memset-Fills v c n mem pos =
    let known : (v == 0) ≡ false = ground arith in
    (memset_from n v c mem, rw known refl, memset_from-Fills n v c mem)
