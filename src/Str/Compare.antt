-- ===== src/Str/Compare.antt =====
-- The comparisons of string.c.
use projects_demonstration.Base.{
  ℕ, zero, suc, ◌+◌, ◌≤◌, ◌<◌, ◌≡◌, ◌≢◌, refl, ap, sym, ◌∙◌, ◌⊎◌, ◌↔◌, inl, inr, arith, true, false,
  Bool, Bool-cases, if◌then◌else◌, eq-cases,
}
use projects_demonstration.Str.{
  Answer, same, greater, less, char_lt, is_null, memcmp_from, memcmp, strncmp_from, strncmp,
}

-- The memory holds bytes.
abbrev pub Bytes : (ℕ → ℕ) → Type 0
Bytes mem = (a : ℕ) → mem a < 256

-- Not both of two tests hold, for one of which the branches are swapped.
swapped :
    (a b : Bool) (x y z : Answer)
    → (a ≡ true → b ≡ false)
    → (if a then x else if b then y else z) ≡ (if b then y else if a then x else z)
swapped true b x y z never = rw (never refl) refl
swapped false b x y z never = refl

strncmp_from-memcmp_from :
    (left count s1 s2 : ℕ) (mem : ℕ → ℕ)
    → strncmp_from left count s1 s2 mem ≡ memcmp_from left count s1 s2 mem
unfolding strncmp_from memcmp_from
strncmp_from-memcmp_from zero count s1 s2 mem = refl
strncmp_from-memcmp_from (suc left) count s1 s2 mem =
    rw (strncmp_from-memcmp_from left (count + 1) s1 s2 mem) (
      swapped (char_lt (mem (s2 + count)) (mem (s1 + count)))
        (char_lt (mem (s1 + count)) (mem (s2 + count))) greater less
        (memcmp_from left (count + 1) s1 s2 mem) (λ e. ground (arith, e)))

-- `strncmp` is `memcmp`: it also compares the bytes behind a NUL.
pub strncmp-memcmp : (s1 s2 n : ℕ) (mem : ℕ → ℕ) → strncmp s1 s2 n mem ≡ memcmp s1 s2 n mem
unfolding strncmp memcmp
strncmp-memcmp s1 s2 n mem =
    ap (λ (r : Answer). if is_null s1 s2 then same else r) (strncmp_from-memcmp_from n 0 s1 s2 mem)

pub char_lt_self : (x : ℕ) → char_lt x x ≡ false
char_lt_self x = ground arith

pub char_lt-cases :
    (x y : ℕ)
    → x < 256
    → y < 256
    → (x ≡ y) ⊎ (char_lt x y ≡ true) ⊎ ((char_lt x y ≡ false) × (char_lt y x ≡ true))
char_lt-cases x y bx by = elim (Bool-cases (char_lt x y)) [
  | inl lt ↦ inr (inl lt)
  | inr ge ↦ elim (Bool-cases (char_lt y x)) [
    | inl gt ↦ inr (inr (ge, gt))
    | inr le ↦ inl (ground (arith, ge, le))
  ]
]

pub less-ne : less ≢ same
less-ne e = ground (arith, e)

pub greater-ne : greater ≢ same
greater-ne e = ground (arith, e)

memcmp_from-same :
    (left count s1 s2 : ℕ) (mem : ℕ → ℕ)
    → Bytes mem
    → memcmp_from left count s1 s2 mem ≡ same
    → (k : ℕ) → count ≤ k
    → k < count + left
    → mem (s1 + k) ≡ mem (s2 + k)
unfolding memcmp_from
memcmp_from-same zero count s1 s2 mem b e k lo hi = absurd (omega arith)
memcmp_from-same (suc left) count s1 s2 mem b e k lo hi =
    elim (char_lt-cases (mem (s1 + count)) (mem (s2 + count)) (b (s1 + count)) (b (s2 + count))) [
      | inl eq ↦ elim (eq-cases k count) [
        | inl here ↦ rw here eq
        | inr later ↦
            memcmp_from-same left (count + 1) s1 s2 mem b (sym (skips eq) ∙ e) k (omega arith)
              (omega arith)
      ]
      | inr (inl lt) ↦ absurd (less-ne (sym (is_less lt) ∙ e))
      | inr (inr (ge, gt)) ↦ absurd (greater-ne (sym (is_greater ge gt) ∙ e))
    ]
  where
    skips :
        mem (s1 + count) ≡ mem (s2 + count)
        → memcmp_from (suc left) count s1 s2 mem ≡ memcmp_from left (count + 1) s1 s2 mem
    skips eq = rw (eq, char_lt_self (mem (s2 + count))) refl

    is_less :
        char_lt (mem (s1 + count)) (mem (s2 + count)) ≡ true
        → memcmp_from (suc left) count s1 s2 mem ≡ less
    is_less lt = rw lt refl

    is_greater :
        char_lt (mem (s1 + count)) (mem (s2 + count)) ≡ false
        → char_lt (mem (s2 + count)) (mem (s1 + count)) ≡ true
        → memcmp_from (suc left) count s1 s2 mem ≡ greater
    is_greater ge gt = rw (ge, gt) refl

memcmp_from-equal :
    (left count s1 s2 : ℕ) (mem : ℕ → ℕ)
    → ((k : ℕ) → count ≤ k → k < count + left → mem (s1 + k) ≡ mem (s2 + k))
    → memcmp_from left count s1 s2 mem ≡ same
unfolding memcmp_from
memcmp_from-equal zero count s1 s2 mem e = refl
memcmp_from-equal (suc left) count s1 s2 mem e =
    rw (e count (omega arith) (omega arith), char_lt_self (mem (s2 + count)))
      (memcmp_from-equal left (count + 1) s1 s2 mem (λ k lo hi. e k (omega arith) (omega arith)))

-- On a memory of bytes, `memcmp` of two areas that are not NULL answers 0 exactly if their first `n`
-- bytes are equal, and `strncmp` answers as `memcmp` does.
pub memcmp-equal :
    (s1 s2 n : ℕ) (mem : ℕ → ℕ)
    → Bytes mem
    → 0 < s1
    → 0 < s2
    → ((memcmp s1 s2 n mem ≡ same) ↔ ((k : ℕ) → k < n → mem (s1 + k) ≡ mem (s2 + k)))
      × (strncmp s1 s2 n mem ≡ memcmp s1 s2 n mem)
unfolding memcmp
memcmp-equal s1 s2 n mem b p q =
    let known : is_null s1 s2 ≡ false = ground arith in
    (
      (
        λ e k hi.
            memcmp_from-same n 0 s1 s2 mem b
              (sym (ap (λ t. if t then same else memcmp_from n 0 s1 s2 mem) known) ∙ e) k
              (omega arith) (omega arith),
        λ e. rw known (memcmp_from-equal n 0 s1 s2 mem (λ k lo hi. e k (omega arith))),
      ),
      strncmp-memcmp s1 s2 n mem,
    )
