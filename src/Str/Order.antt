-- ===== src/Str/Order.antt =====
-- `strcmp` of string.c on strings.
use native.Mathlib.Decide.{dec_lt}
use projects_demonstration.Base.{
  ℕ, zero, suc, ◌+◌, ◌≤◌, ◌<◌, ◌≡◌, refl, ap, sym, ◌∙◌, ◌↔◌, inl, inr, arith, true, false, eq-cases,
  Option, some, eq→==, ne→==,
}
use projects_demonstration.Str.{Answer, same, greater, less, char_lt, is_null, strcmp_from, strcmp}
use projects_demonstration.Str.Copy.{IsString}
use projects_demonstration.Str.Compare.{Bytes, char_lt-cases, char_lt_self, less-ne, greater-ne}

-- The strings of `m` and `n` bytes are equal from byte `i` on.
abbrev pub Equal : (ℕ → ℕ) → (s1 s2 m n i : ℕ) → Type 0
Equal mem s1 s2 m n i = (m ≡ n) × ((k : ℕ) → i ≤ k → k < m → mem (s1 + k) ≡ mem (s2 + k))

-- The loop ends with an answer that says whether the strings are equal from byte `i` on.
record Answers (mem : ℕ → ℕ) (s1 s2 m n i : ℕ) (run : Option Answer) : Type 0 where
  answer : Answer
  ends : run ≡ some answer
  sound : answer ≡ same → Equal mem s1 s2 m n i
  complete : Equal mem s1 s2 m n i → answer ≡ same

module _ (mem : ℕ → ℕ) (b : Bytes mem) (s1 s2 m n : ℕ) (str1 : IsString mem s1 m)
    (str2 : IsString mem s2 n) where
  -- The first string ends at byte `i`.
  ended_first :
      (fuel i : ℕ)
      → i ≤ n
      → i ≡ m
      → Dec (i < n)
      → Answers mem s1 s2 m n i (strcmp_from (suc fuel) i s1 s2 mem)
  unfolding strcmp_from
  ended_first fuel i le2 e d =
      let x = eq→== (mem (s1 + i)) 0 (ap (λ k. mem (s1 + k)) e ∙ str1.ending) in
      elim d [
        | yes lt2 ↦
            let y = ne→== (mem (s2 + i)) 0 (str2.body i lt2) in
            record {
              answer = less;
              ends = rw (x, y) refl;
              sound = λ q. absurd (less-ne q);
              complete = λ q. absurd (omega (arith, q.0));
            }
        | no ge2 ↦
            let e' : i ≡ n = omega arith in
            let y = eq→== (mem (s2 + i)) 0 (ap (λ k. mem (s2 + k)) e' ∙ str2.ending) in
            record {
              answer = same;
              ends = rw (x, y) refl;
              sound = λ q. (omega arith, λ k lo hi. absurd (omega arith));
              complete = λ q. refl;
            }
      ]

  -- Neither string ends at byte `i`; `t` is the rest of the loop.
  within :
      (fuel i : ℕ)
      → Answers mem s1 s2 m n (i + 1) (strcmp_from fuel (i + 1) s1 s2 mem)
      → i < m
      → i < n
      → Answers mem s1 s2 m n i (strcmp_from (suc fuel) i s1 s2 mem)
  unfolding strcmp_from
  within fuel i t lt1 lt2 =
      let x = ne→== (mem (s1 + i)) 0 (str1.body i lt1) in
      let y = ne→== (mem (s2 + i)) 0 (str2.body i lt2) in
      elim (char_lt-cases (mem (s1 + i)) (mem (s2 + i)) (b (s1 + i)) (b (s2 + i))) [
        | inl eq ↦ record {
          answer = t.answer;
          ends = rw (x, y, eq, char_lt_self (mem (s2 + i))) t.ends;
          sound = λ q. (
            (t.sound q).0,
            λ k lo hi. (elim (eq-cases k i) [
              | inl here ↦ rw here eq
              | inr later ↦ (t.sound q).1 k (omega arith) hi
            ]),
          );
          complete = λ q. t.complete (q.0, λ k lo hi. q.1 k (omega arith) hi);
        }
        | inr (inl lt) ↦ record {
          answer = less;
          ends = rw (x, y, after lt, lt) refl;
          sound = λ q. absurd (less-ne q);
          complete = λ q. absurd (differ (sym (after_equal (q.1 i (omega arith) lt1)) ∙ lt));
        }
        | inr (inr (ge, gt)) ↦ record {
          answer = greater;
          ends = rw (x, y, gt) refl;
          sound = λ q. absurd (greater-ne q);
          complete = λ q. absurd (differ (sym (before_equal (q.1 i (omega arith) lt1)) ∙ gt));
        }
      ]
    where
      differ : false ≡ true → ⊥
      differ e = ground (arith, e)

      after :
          char_lt (mem (s1 + i)) (mem (s2 + i)) ≡ true
          → char_lt (mem (s2 + i)) (mem (s1 + i)) ≡ false
      after e = ground (arith, e)

      after_equal : mem (s1 + i) ≡ mem (s2 + i) → char_lt (mem (s1 + i)) (mem (s2 + i)) ≡ false
      after_equal e = rw e (char_lt_self (mem (s2 + i)))

      before_equal : mem (s1 + i) ≡ mem (s2 + i) → char_lt (mem (s2 + i)) (mem (s1 + i)) ≡ false
      before_equal e = rw e (char_lt_self (mem (s2 + i)))

  strcmp_from-Answers :
      (fuel i : ℕ)
      → i ≤ m
      → i ≤ n
      → m < fuel + i
      → Answers mem s1 s2 m n i (strcmp_from fuel i s1 s2 mem)
  unfolding strcmp_from
  strcmp_from-Answers zero i le1 le2 lt = absurd (omega arith)
  strcmp_from-Answers (suc fuel) i le1 le2 lt = elim (dec_lt i m) [
    | yes lt1 ↦ elim (dec_lt i n) [
      | yes lt2 ↦
          within fuel i (strcmp_from-Answers fuel (i + 1) (omega arith) (omega arith) (omega arith))
            lt1 lt2
      | no ge2 ↦
          let e : i ≡ n = omega arith in
          let x = ne→== (mem (s1 + i)) 0 (str1.body i lt1) in
          let y = eq→== (mem (s2 + i)) 0 (ap (λ k. mem (s2 + k)) e ∙ str2.ending) in
          record {
            answer = greater;
            ends = rw (x, y) refl;
            sound = λ q. absurd (greater-ne q);
            complete = λ (q, _). absurd (omega (arith, q));
          }
    ]
    | no ge1 ↦ ended_first fuel i le2 (omega arith) (dec_lt i n)
  ]

-- On two strings that are not NULL, given fuel for the bytes of the first, `strcmp` returns, and its
-- answer is 0 exactly if the strings are equal.
pub strcmp-Equal :
    (fuel s1 s2 m n : ℕ) (mem : ℕ → ℕ)
    → Bytes mem
    → 0 < s1
    → 0 < s2
    → m < fuel
    → IsString mem s1 m
    → IsString mem s2 n
    → (answer : Answer) × (strcmp fuel s1 s2 mem ≡ some answer)
      × ((answer ≡ same) ↔ Equal mem s1 s2 m n 0)
unfolding strcmp
strcmp-Equal fuel s1 s2 m n mem b p q lt str1 str2 =
    let t =
      strcmp_from-Answers mem b s1 s2 m n str1 str2 fuel 0 (omega arith) (omega arith)
        (omega arith) in
    let known : is_null s1 s2 ≡ false = ground arith in
    (t.answer, rw known t.ends, (t.sound, t.complete))
