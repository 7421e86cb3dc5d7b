-- ===== src/Model/PopulationNode/Pools.antt =====
-- Which lists of pools IsValidPools accepts.
use virtual_people_core_serv.Prelude.{
  ◌+◌, ◌%◌, ◌^◌, ◌≤◌, ◌≡◌, refl, ◌↔◌, ◌⊎◌, List, [], ◌∷◌, ok, All, true, arith, add64,
}
use virtual_people_core_serv.Utils.VirtualPersonSelector.{VirtualPersonPool}
use virtual_people_core_serv.Model.PopulationNode.{
  is_cookie_monster_pool, check_pools, is_valid_pools,
}

-- The end of the pool, as a uint64_t, does not pass the cookie monster offset.
abbrev pub EndsBefore : VirtualPersonPool → Type 0
EndsBefore pool = (pool.population_offset + pool.total_population) % 2 ^ 64 ≤ 10 ^ 18

-- The one pool of the virtual person ids from 10 ^ 18, of which there are 10 ^ 14.
abbrev pub cookie_monster : List VirtualPersonPool
cookie_monster = record { population_offset = 10 ^ 18; total_population = 10 ^ 14 } ∷ []

is_cookie_monster_pool_iff :
    (pools : List VirtualPersonPool)
    → (is_cookie_monster_pool pools ≡ true) ↔ (pools ≡ cookie_monster)
unfolding is_cookie_monster_pool
is_cookie_monster_pool_iff [] = ((λ e. cc), (λ e. cc))
is_cookie_monster_pool_iff (pool ∷ []) = ((λ e. ground arith), (λ e. ground arith))
is_cookie_monster_pool_iff (pool ∷ other ∷ rest) = ((λ e. cc), (λ e. cc))

check_pools_iff :
    (pools : List VirtualPersonPool) → (check_pools pools ≡ ok tt) ↔ All EndsBefore pools
unfolding check_pools add64
check_pools_iff [] = ((λ e. tt), (λ a. refl))
check_pools_iff (pool ∷ pools) = let next = check_pools_iff pools in ground arith

-- IsValidPools accepts exactly the list of the one pool at offset 10 ^ 18 with 10 ^ 14 ids, the
-- cookie monster pool, and the lists in which the end of each pool, taken modulo 2 ^ 64, is at
-- most 10 ^ 18.
pub is_valid_pools_iff :
    (pools : List VirtualPersonPool)
    → (is_valid_pools pools ≡ ok tt) ↔ ((pools ≡ cookie_monster) ⊎ All EndsBefore pools)
unfolding is_valid_pools
is_valid_pools_iff pools =
    let checked = check_pools_iff pools in
    let monster = is_cookie_monster_pool_iff pools in ground arith
