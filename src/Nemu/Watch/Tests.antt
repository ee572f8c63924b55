-- ===== src/Nemu/Watch/Tests.antt =====
-- The theorems on the watchpoints at the pool that `init_wp_pool` makes.
use projects_demonstration.Base.{◌<◌, refl, [], ◌∷◌, none, arith}
use projects_demonstration.Nemu.Watch.{
  WpPool, init_wp_pool, link_first, link_behind, new_wp, delete_w,
}
use projects_demonstration.Nemu.Watch.Init.{nodes, init_wp_pool-IsPool}
use projects_demonstration.Nemu.Watch.Links.{IsPool}
use projects_demonstration.Nemu.Watch.Take.{Takes, new_wp-Takes, first-IsPool, behind-IsPool}
use projects_demonstration.Nemu.Watch.Place.{place}
use projects_demonstration.Nemu.Watch.Give.{Gives}
use projects_demonstration.Nemu.Watch.Delete.{delete_w-Gives}

abbrev empty_pool : WpPool
empty_pool = init_wp_pool (record {
  no = λ i. 0;
  next = λ i. none;
  content = λ i. [];
  former_value = λ i. 0;
  latter_value = λ i. 0;
  head = none;
  free_ = none;
  count_used = 0;
})

empty_pool-IsPool : IsPool empty_pool [] (nodes 0 32)
empty_pool-IsPool = init_wp_pool-IsPool _ refl

-- The first two nodes are in use.
abbrev one_used : WpPool
one_used = link_first empty_pool 0

one_used-IsPool : IsPool one_used (0 ∷ []) (nodes 1 31)
one_used-IsPool = first-IsPool empty_pool 0 (nodes 1 31) empty_pool-IsPool

abbrev two_used : WpPool
two_used = link_behind one_used 0 1

two_used-IsPool : IsPool two_used (0 ∷ 1 ∷ []) (nodes 2 30)
two_used-IsPool = behind-IsPool one_used 0 [] 1 (nodes 2 30) one_used-IsPool

new_wp-Takes_example : Takes (0 ∷ []) 1 (nodes 2 30) (new_wp one_used)
unfolding init_wp_pool
new_wp-Takes_example = new_wp-Takes one_used (0 ∷ []) 1 (nodes 2 30) one_used-IsPool used_few
  where
    used_few : one_used.count_used < 24
    used_few = omega arith

delete_w-Gives_example : Gives (1 ∷ []) (2 ∷ place 0 (3 ∷ nodes 4 28)) (delete_w 0 two_used)
delete_w-Gives_example = delete_w-Gives two_used [] 0 (1 ∷ []) 2 3 (nodes 4 28) two_used-IsPool
