-- ===== src/Str/Copy.antt =====
-- The copies of string.c: what they write, and that they write nothing else.
use native.Mathlib.Decide.{dec_lt}
use projects_demonstration.Base.{
  ℕ, zero, suc, ◌+◌, ◌-◌, ◌≤◌, ◌<◌, ◌≡◌, ◌≢◌, refl, ap, sym, ◌∙◌, ◌⊎◌, inl, inr, arith, false, some,
  update, update-eq, update-ne, eq→==, ne→==,
}
use projects_demonstration.Str.{
  is_null, strlen_from, strlen, copy_from, strcpy, strcat, memcpy_from, memcpy,
}

-- A string of `n` bytes before its NUL.
pub record IsString (mem : ℕ → ℕ) (s n : ℕ) : Type 0 where
  pub body : (i : ℕ) → i < n → mem (s + i) ≢ 0
  pub ending : mem (s + n) ≡ 0

-- Of `m` bytes at `src`, before, each stands at `dst`, after, and nothing else has changed.
pub record Copies (mem mem' : ℕ → ℕ) (dst src m : ℕ) : Type 0 where
  pub copied : (k : ℕ) → k < m → mem' (dst + k) ≡ mem (src + k)
  pub others : (a : ℕ) → (a < dst) ⊎ (dst + m ≤ a) → mem' a ≡ mem a

not_null : (p q : ℕ) → 0 < p → 0 < q → is_null p q ≡ false
not_null p q a b = ground arith

memcpy_from-Copies :
    (n out from : ℕ) (mem : ℕ → ℕ)
    → (from ≤ out) ⊎ (out + n ≤ from)
    → Copies mem (memcpy_from n out from mem) out from n
unfolding memcpy_from
memcpy_from-Copies zero out from mem apart = record {
  copied = λ k lt. absurd (omega arith);
  others = λ a o. refl;
}
memcpy_from-Copies (suc n) out from mem apart =
    let mem1 = update mem (out + n) (mem (from + n)) in
    let t =
      memcpy_from-Copies n out from mem1
        (elim apart [ inl le ↦ inl le | inr le ↦ inr (omega arith) ]) in
    record {
      copied = λ k lt. (elim (dec_lt k n) [
        | yes below ↦
            t.copied k below
            ∙ update-ne mem (out + n) (from + k) (mem (from + n))
                (elim apart [ inl le ↦ omega arith | inr le ↦ omega arith ])
        | no above ↦
            let e : k ≡ n = omega arith in
            rw e (t.others (out + n) (inr (omega arith)) ∙ update-eq mem (out + n) (mem (from + n)))
      ]);
      others = λ a o.
          t.others a (elim o [ inl lt ↦ inl lt | inr le ↦ inr (omega arith) ])
          ∙ update-ne mem (out + n) a (mem (from + n))
              (elim o [ inl lt ↦ omega arith | inr le ↦ omega arith ]);
    }

-- `memcpy` copies the `n` bytes and changes no other, also where the areas overlap, if the target
-- does not begin below the source.
pub memcpy-Copies :
    (out from n : ℕ) (mem : ℕ → ℕ)
    → 0 < out
    → 0 < from
    → (from ≤ out) ⊎ (out + n ≤ from)
    → (mem' : ℕ → ℕ) × (memcpy out from n mem ≡ (out, mem')) × Copies mem mem' out from n
unfolding memcpy
memcpy-Copies out from n mem p q apart = (
  memcpy_from n out from mem,
  rw (not_null out from p q) refl,
  memcpy_from-Copies n out from mem apart,
)

strlen_from-length :
    (fuel s i n : ℕ) (mem : ℕ → ℕ)
    → i ≤ n
    → n < fuel + i
    → IsString mem s n
    → strlen_from fuel (s + i) i mem ≡ some n
unfolding strlen_from
strlen_from-length zero s i n mem le lt str = absurd (omega arith)
strlen_from-length (suc fuel) s i n mem le lt str = elim (dec_lt i n) [
  | yes below ↦ rw (ne→== (mem (s + i)) 0 (str.body i below)) (
      ap (λ a. strlen_from fuel a (i + 1) mem) (omega arith)
      ∙ strlen_from-length fuel s (i + 1) n mem (omega arith) (omega arith) str)
  | no above ↦ let e : i ≡ n = omega arith in rw (e, eq→== (mem (s + n)) 0 str.ending) refl
]

-- `strlen` finds the length of a string, given fuel for its bytes.
pub strlen-length :
    (fuel s n : ℕ) (mem : ℕ → ℕ) → n < fuel → IsString mem s n → strlen fuel s mem ≡ some n
unfolding strlen
strlen-length fuel s n mem lt str =
    ap (λ a. strlen_from fuel a 0 mem) (omega arith)
    ∙ strlen_from-length fuel s 0 n mem (omega arith) (omega arith) str

-- The loop from byte `i` of `n` on.
copy_from-Copies :
    (fuel dst src i n : ℕ) (mem : ℕ → ℕ)
    → i ≤ n
    → n < fuel + i
    → IsString mem src n
    → (dst + n < src) ⊎ (src + n < dst)
    → (mem' : ℕ → ℕ) × (copy_from fuel dst src i mem ≡ some mem')
      × ((k : ℕ) → i ≤ k → k ≤ n → mem' (dst + k) ≡ mem (src + k))
      × ((a : ℕ) → (a < dst + i) ⊎ (dst + n < a) → mem' a ≡ mem a)
unfolding copy_from
copy_from-Copies zero dst src i n mem le lt str apart = absurd (omega arith)
copy_from-Copies (suc fuel) dst src i n mem le lt str apart = elim (dec_lt i n) [
  | yes below ↦
      let mem1 = update mem (dst + i) (mem (src + i)) in
      let kept : (j : ℕ) → j ≤ n → mem1 (src + j) ≡ mem (src + j) = λ j h.
        update-ne mem (dst + i) (src + j) (mem (src + i))
          (elim apart [ inl l ↦ omega arith | inr l ↦ omega arith ]) in
      let str1 : IsString mem1 src n = record {
        body = λ j h. (λ e. str.body j h (sym (kept j (omega arith)) ∙ e));
        ending = kept n (omega arith) ∙ str.ending;
      } in
      let (mem', run, copied, others) =
        copy_from-Copies fuel dst src (i + 1) n mem1 (omega arith) (omega arith) str1 apart in
      (
        mem',
        rw (ne→== (mem (src + i)) 0 (str.body i below)) run,
        λ k lo hi. (elim (dec_lt i k) [
          | yes more ↦ copied k (omega arith) hi ∙ kept k hi
          | no here ↦
              let e : k ≡ i = omega arith in
              rw e (others (dst + i) (inl (omega arith)) ∙ update-eq mem (dst + i) (mem (src + i)))
        ]),
        λ a o.
            others a (elim o [ inl l ↦ inl (omega arith) | inr l ↦ inr l ])
            ∙ update-ne mem (dst + i) a (mem (src + i))
                (elim o [ inl l ↦ omega arith | inr l ↦ omega arith ]),
      )
  | no above ↦
      let e : i ≡ n = omega arith in
      (
        update mem (dst + i) 0,
        rw (eq→== (mem (src + i)) 0 (ap (λ j. mem (src + j)) e ∙ str.ending)) refl,
        λ k lo hi.
            (let e' : k ≡ i = omega arith in
              rw e' (update-eq mem (dst + i) 0 ∙ sym (ap (λ j. mem (src + j)) e ∙ str.ending))),
        λ a o. update-ne mem (dst + i) a 0 (elim o [ inl l ↦ omega arith | inr l ↦ omega arith ]),
      )
]

-- The loop from the start, with the NUL.
copy_string :
    (fuel dst src n : ℕ) (mem : ℕ → ℕ)
    → n < fuel
    → IsString mem src n
    → (dst + n < src) ⊎ (src + n < dst)
    → (mem' : ℕ → ℕ) × (copy_from fuel dst src 0 mem ≡ some mem') × Copies mem mem' dst src (n + 1)
copy_string fuel dst src n mem lt str apart =
    let (mem', run, copied, others) =
      copy_from-Copies fuel dst src 0 n mem (omega arith) (omega arith) str apart in
    (
      mem',
      run,
      record {
        copied = λ k h. copied k (omega arith) (omega arith);
        others = λ a o. others a (elim o [ inl l ↦ inl (omega arith) | inr l ↦ inr (omega arith) ]);
      },
    )

-- `strcpy` of a string that does not overlap its target returns the target, given fuel for the bytes;
-- the string and its NUL stand there, and nothing else has changed.
pub strcpy-Copies :
    (fuel dst src n : ℕ) (mem : ℕ → ℕ)
    → 0 < dst
    → 0 < src
    → n < fuel
    → IsString mem src n
    → (dst + n < src) ⊎ (src + n < dst)
    → (mem' : ℕ → ℕ) × (strcpy fuel dst src mem ≡ some (dst, mem'))
      × Copies mem mem' dst src (n + 1)
unfolding strcpy
strcpy-Copies fuel dst src n mem p q lt str apart =
    let (mem', run, t) = copy_string fuel dst src n mem lt str apart in
    (mem', rw (not_null dst src p q, run) refl, t)

-- `strcat` returns the target with the string behind the one that was there, as one string of the
-- length of both, given fuel for the bytes of each; below the old end and behind the new one nothing
-- has changed. The string must not overlap the bytes that are written.
pub strcat-IsString :
    (fuel dst src m n : ℕ) (mem : ℕ → ℕ)
    → 0 < dst
    → 0 < src
    → m < fuel
    → n < fuel
    → IsString mem dst m
    → IsString mem src n
    → (dst + m + n < src) ⊎ (src + n < dst + m)
    → (mem' : ℕ → ℕ) × (strcat fuel dst src mem ≡ some (dst, mem'))
      × IsString mem' dst (m + n)
      × Copies mem mem' (dst + m) src (n + 1)
unfolding strcat
strcat-IsString fuel dst src m n mem p q lt_m lt_n old str apart =
    let (mem', run, t) = copy_string fuel (dst + m) src n mem lt_n str apart in
    (
      mem',
      rw (not_null dst src p q, strlen-length fuel dst m mem lt_m old, run) refl,
      record {
        body = λ i h. (elim (dec_lt i m) [
          | yes below ↦ λ e. old.body i below (sym (t.others (dst + i) (inl (omega arith))) ∙ e)
          | no above ↦ λ e.
              str.body (i - m) (omega arith)
                (sym (t.copied (i - m) (omega arith)) ∙ ap mem' (omega arith) ∙ e)
        ]);
        ending = ap mem' (omega arith) ∙ t.copied n (omega arith) ∙ str.ending;
      },
      t,
    )
