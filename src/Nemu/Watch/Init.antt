-- ===== src/Nemu/Watch/Init.antt =====
-- `init_wp_pool` makes a pool in order, all of whose nodes are free.
use projects_demonstration.Base.{
  ℕ, zero, suc, ◌+◌, ◌<◌, ◌≡◌, refl, ap, ◌∙◌, List, [], ◌∷◌, none, some, inl, inr, arith, length,
  Fresh, Distinct, In, true, if◌then◌else◌, ltb, ◌==◌,
}
use projects_demonstration.Nemu.Watch.{WpPool, nr_wp, init_wp_pool}
use projects_demonstration.Nemu.Watch.Links.{Links, IsPool}

abbrev pub nodes : (first n : ℕ) → List ℕ
nodes first zero = []
nodes first (suc n) = first ∷ nodes (first + 1) n

length-nodes : (first n : ℕ) → length (nodes first n) ≡ n
length-nodes first zero = refl
length-nodes first (suc n) = ap suc (length-nodes (first + 1) n)

nodes-Fresh : (a first n : ℕ) → a < first → Fresh a (nodes first n)
nodes-Fresh a first zero lt = tt
nodes-Fresh a first (suc n) lt = (omega arith, nodes-Fresh a (first + 1) n (omega arith))

nodes-Distinct : (first n : ℕ) → Distinct (nodes first n)
nodes-Distinct first zero = tt
nodes-Distinct first (suc n) =
    (nodes-Fresh first (first + 1) n (omega arith), nodes-Distinct (first + 1) n)

nodes-bound : (a first n : ℕ) → In a (nodes first n) → a < first + n
nodes-bound a first zero i = elim i [ ]
nodes-bound a first (suc n) (inl e) = omega arith
nodes-bound a first (suc n) (inr i) = omega (arith, nodes-bound a (first + 1) n i)

module _ (w : WpPool) where
  init_next : (i : ℕ) → i < 31 → (init_wp_pool w).next i ≡ some (i + 1)
  unfolding init_wp_pool nr_wp
  init_next i lt =
      ap (λ b. if b then some (i + 1) else (if i == 31 then none else w.next i)) {x = ltb i 31}
        {y = true} (ground arith)

  init_last : (init_wp_pool w).next 31 ≡ none
  unfolding init_wp_pool nr_wp
  init_last = refl

  init-Links : (i n : ℕ) → i + n ≡ 31 → Links (init_wp_pool w).next (some i) (nodes i (suc n))
  init-Links i zero e = (refl, ap (init_wp_pool w).next {x = i} {y = 31} (omega arith) ∙ init_last)
  init-Links i (suc n) e =
      (refl, (init_next i (omega arith), (init-Links (i + 1) n (omega arith)).1))

  init_number : (i : ℕ) → i < 32 → (init_wp_pool w).no i ≡ i
  unfolding init_wp_pool nr_wp
  init_number i lt = ap (λ b. if b then i else w.no i) {x = ltb i 32} {y = true} (ground arith)

  pub init_wp_pool-IsPool : w.count_used ≡ 0 → IsPool (init_wp_pool w) [] (nodes 0 32)
  unfolding init_wp_pool nr_wp
  init_wp_pool-IsPool c = record {
    used_links = refl;
    free_links = init-Links 0 31 (omega arith);
    distinct = nodes-Distinct 0 32;
    count = c;
    complete = length-nodes 0 32;
    numbers = λ a i. init_number a (nodes-bound a 0 32 i);
  }
