-- ===== src/Pmm/Heap/Grow/Lists.antt =====
-- The lists of the CPUs when one of them gets a new page at its end.
use projects_demonstration.Base.{
  ℕ, suc, ◌+◌, ◌*◌, ◌<◌, ◌≡◌, ◌≢◌, ap, sym, ◌∙◌, arith, ◌≤◌, inl, inr, eq-cases, update, update-ne,
  update-eq,
}
use projects_demonstration.Pmm.Layout.{page_sz}
use projects_demonstration.Pmm.Heap.{Heap}
use projects_demonstration.Pmm.Heap.Chain.{
  page_addr, page_at, Pages, Chain, Skips, ends, next, Chain-le, last-lt,
}

-- One more page, of the CPU.
abbrev pub one_more : Pages → ℕ → Pages
one_more g cpu = record { count = suc g.count; owner = update g.owner g.count cpu }

module _ (s s' : Heap) (g : Pages) (cpu : ℕ) (same_start : s'.start ≡ s.start) where
  owner-old : (k : ℕ) → k < g.count → (one_more g cpu).owner k ≡ g.owner k
  owner-old k lt = update-ne g.owner g.count k cpu (λ e. omega arith)

  moved : (m : ℕ) {p : ℕ} → p ≡ page_addr s m → p ≡ page_addr s' m
  moved m e = e ∙ ap (λ x. x + m * page_sz) (sym same_start)

  Skips-old :
      {other low m last : ℕ}
      → Skips g other low m
      → last < g.count
      → m ≤ last
      → Skips (one_more g cpu) other low m
  Skips-old gap lt le x lo hi q = gap x lo hi (sym (owner-old x (omega arith)) ∙ q)

  pub none_before-old :
      {other first : ℕ}
      → ((x : ℕ) → x < first → g.owner x ≢ other)
      → first < g.count
      → (x : ℕ) → x < first
      → (one_more g cpu).owner x ≢ other
  none_before-old none_before lt x x_lt q = none_before x x_lt (sym (owner-old x (omega arith)) ∙ q)

  -- The list of another CPU is as it was.
  pub other_list :
      {other last k : ℕ}
      → other ≢ cpu
      → ((k : ℕ)
          → k < g.count
          → g.owner k ≡ other
          → (page_at s' k).page_list ≡ (page_at s k).page_list)
      → Chain s g other last k
      → Chain s' (one_more g cpu) other last k
  other_list {other} {last} differ links (ends lt own gap e) =
      ends (omega arith) (owner-old last lt ∙ own)
        (λ x lo hi q. elim (eq-cases x g.count) [
          | inl new ↦ differ (sym q ∙ ap (one_more g cpu).owner new ∙ update-eq g.owner g.count cpu)
          | inr old ↦ gap x lo (omega arith) (sym (owner-old x (omega arith)) ∙ q)
        ])
        (links last lt own ∙ e)
  other_list {k} differ links (next m lt own gap e rest) =
      let k_lt : k < g.count = omega (arith, Chain-le rest, last-lt rest) in
      next m lt (owner-old k k_lt ∙ own) (Skips-old gap (last-lt rest) (Chain-le rest))
        (moved m (links k k_lt own ∙ e)) (other_list differ links rest)

  -- The CPU's own list ends with the new page.
  pub own_list :
      {last k : ℕ}
      → ((k : ℕ) → k < g.count → k ≢ last → (page_at s' k).page_list ≡ (page_at s k).page_list)
      → (page_at s' last).page_list ≡ page_addr s' g.count
      → (page_at s' g.count).page_list ≡ 0
      → Chain s g cpu last k
      → Chain s' (one_more g cpu) cpu g.count k
  own_list {last} links linked ended (ends lt own gap e) =
      next g.count lt (owner-old last lt ∙ own)
        (λ x lo hi q. gap x lo hi (sym (owner-old x hi) ∙ q)) linked
        (ends (omega arith) (update-eq g.owner g.count cpu) (λ x lo hi. absurd (omega arith)) ended)
  own_list {last} {k} links linked ended (next m lt own gap e rest) =
      let k_lt : k < g.count = omega (arith, Chain-le rest, last-lt rest) in
      let ne : k ≢ last = λ x. omega (arith, Chain-le rest) in
      next m lt (owner-old k k_lt ∙ own) (Skips-old gap (last-lt rest) (Chain-le rest))
        (moved m (links k k_lt ne ∙ e)) (own_list links linked ended rest)
