-- ===== src/Nemu/Watch.antt =====
-- The watchpoints of Emulator/nemu/src/monitor/debug/watchpoint.c: a pool of 32 nodes, which two linked
-- lists share. A node is its index in `wp_pool`, a pointer is `none` for NULL; what C leaves undefined
-- and a failed assert are `none`. A walk along a list has fuel for the nodes of the pool.
pub mod Links
pub mod Init
pub mod Take
pub mod Place
pub mod Moves
pub mod Give
pub mod Delete
mod Tests
use projects_demonstration.Base.{
  ℕ, zero, suc, ◌+◌, ◌-◌, List, Option, none, some, Bool, true, false, if◌then◌else◌, ltb, ◌==◌,
  ◌||◌, not, update,
}

unfoldable pub nr_wp : ℕ
nr_wp = 32

pub record WpPool : Type 0 where
  pub no : ℕ → ℕ
  pub next : ℕ → Option ℕ
  pub content : ℕ → List ℕ
  pub former_value : ℕ → ℕ
  pub latter_value : ℕ → ℕ
  pub head : Option ℕ
  pub free_ : Option ℕ
  pub count_used : ℕ

-- A pointer that is read through.
abbrev pub deref : {A : Type 0} → Option ℕ → (ℕ → Option A) → Option A
deref p k = elim p [ none ↦ none | some wp ↦ k wp ]

-- The last turn of the loop writes NULL over the link that points behind the pool.
unfoldable pub init_wp_pool : WpPool → WpPool
init_wp_pool w = record w {
  no = λ i. if ltb i nr_wp then i else w.no i;
  next =
      λ i. if ltb i (nr_wp - 1) then some (i + 1) else (if i == nr_wp - 1 then none else w.next i);
  head = none;
  free_ = some 0;
}

abbrev pub last_wp : (fuel : ℕ) → (ℕ → Option ℕ) → ℕ → Option ℕ
last_wp zero next wp = none
last_wp (suc fuel) next wp = elim (next wp) [ none ↦ some wp | some q ↦ last_wp fuel next q ]

abbrev pub link_first : WpPool → (wp : ℕ) → WpPool
link_first w wp = record w {
  head = some wp;
  free_ = w.next wp;
  next = update w.next wp none;
  count_used = w.count_used + 1;
}

abbrev pub new_first : WpPool → Option (ℕ × WpPool)
new_first w = deref w.free_ (λ wp. some (wp, link_first w wp))

abbrev pub link_behind : WpPool → (temp_p wp : ℕ) → WpPool
link_behind w temp_p wp = record w {
  free_ = update w.next temp_p (some wp) wp;
  next = update (update w.next temp_p (some wp)) wp none;
  count_used = w.count_used + 1;
}

abbrev pub new_behind : WpPool → Option (ℕ × WpPool)
new_behind w = deref w.head (λ first.
    deref (last_wp nr_wp w.next first)
      (λ temp_p. deref w.free_ (λ wp. some (wp, link_behind w temp_p wp))))

unfoldable pub new_wp : WpPool → Option (ℕ × WpPool)
new_wp w =
    if ltb w.count_used 24 then (if w.count_used == 0 then new_first w else new_behind w) else none

-- The node before the one with the number.
abbrev pub before_wp : (fuel : ℕ) → WpPool → (node_id temp_p : ℕ) → Option ℕ
before_wp zero w node_id temp_p = none
before_wp (suc fuel) w node_id temp_p =
    deref (w.next temp_p)
      (λ q. elim (w.no q == node_id) [ true ↦ some temp_p | false ↦ before_wp fuel w node_id q ])

abbrev pub unlink : WpPool → (wp : ℕ) → Option WpPool
unlink w wp = deref w.head (λ first.
    if w.no first == w.no wp
    then some (record w { head = w.next first; next = update w.next first none })
    else deref (before_wp nr_wp w (w.no wp) first)
        (λ temp_p. some (record w { next = update (update w.next temp_p (w.next wp)) wp none })))

-- Where the loop over the free nodes stops.
abbrev pub place_wp : (fuel : ℕ) → WpPool → (node_id temp_p : ℕ) → Option ℕ
place_wp zero w node_id temp_p = none
place_wp (suc fuel) w node_id temp_p = elim (w.next temp_p) [
  | none ↦ some temp_p
  | some q ↦ elim (ltb (w.no q) node_id) [ true ↦ place_wp fuel w node_id q | false ↦ some temp_p ]
]

abbrev pub link_free : WpPool → (wp : ℕ) → Option WpPool
link_free w wp = deref w.free_ (λ temp_p. elim (w.next temp_p) [
  | none ↦
      if ltb (w.no wp) (w.no temp_p)
      then some (record w { next = update w.next wp (some temp_p); free_ = some wp })
      else some (record w { next = update (update w.next temp_p (some wp)) wp none })
  | some second ↦
      deref (place_wp nr_wp w (w.no wp) temp_p)
        (λ at. some (record w { next = update (update w.next wp (w.next at)) at (some wp) }))
])

-- The count is above 0 here, since a node was in use.
unfoldable pub free_wp : (wp : ℕ) → WpPool → Option WpPool
free_wp wp w = elim (unlink w wp) [
  | none ↦ none
  | some w1 ↦ elim (link_free w1 wp) [
    | none ↦ none
    | some w2 ↦ some (record w2 { count_used = w2.count_used - 1 })
  ]
]

-- The node with the number, or NULL.
abbrev pub find_wp : (fuel : ℕ) → WpPool → (num : ℕ) → Option ℕ → Option (Option ℕ)
find_wp zero w num p = none
find_wp (suc fuel) w num none = some none
find_wp (suc fuel) w num (some wp) = elim (w.no wp == num) [
  | true ↦ some (some wp)
  | false ↦ find_wp fuel w num (w.next wp)
]

unfoldable pub delete_w : (num : ℕ) → WpPool → Option WpPool
delete_w num w = elim (find_wp (suc nr_wp) w num w.head) [
  | none ↦ none
  | some none ↦ some w
  | some (some wp) ↦ free_wp wp w
]

-- `expr` gives the value of an expression, or fails where its flag of success is false.
module _ (expr : List ℕ → Option ℕ) where
  abbrev pub evaluated : WpPool → (wp value : ℕ) → WpPool
  evaluated w wp value = record w {
    former_value = update w.former_value wp (w.latter_value wp);
    latter_value = update w.latter_value wp value;
  }

  abbrev pub update_from : (fuel : ℕ) → WpPool → Option ℕ → Bool → Option (Bool × WpPool)
  update_from zero w p whether = none
  update_from (suc fuel) w none whether = some (whether, w)
  update_from (suc fuel) w (some wp) whether = elim (expr (w.content wp)) [
    | none ↦ none
    | some value ↦
        update_from fuel (evaluated w wp value) (w.next wp)
          (if w.latter_value wp == value then whether else true)
  ]

  unfoldable pub update_all_w : WpPool → Option (Bool × WpPool)
  update_all_w w = update_from (suc nr_wp) w w.head false
