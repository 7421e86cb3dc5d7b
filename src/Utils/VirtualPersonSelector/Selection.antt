-- ===== src/Utils/VirtualPersonSelector/Selection.antt =====
-- What GetVirtualPersonId returns.
use virtual_people_core_serv.Prelude.{
  ℕ, suc, ◌+◌, ◌-◌, ◌%◌, ◌^◌, ◌≤◌, ◌<◌, ◌≡◌, ap, ◌∙◌, List, [], ◌∷◌, some, arith, All, ok, ℤ, pos,
  negsuc, to_int32, of_int32, to_int32_small, to_int32_negative, add64, sub64,
}
use virtual_people_core_serv.External.Doubles.{Doubles, RoundsMonotonically}
use virtual_people_core_serv.Utils.ConsistentHash.{jump_consistent_hash}
use virtual_people_core_serv.Utils.ConsistentHash.Bounds.{
  jump_consistent_hash_total, jump_consistent_hash_none,
}
use virtual_people_core_serv.Utils.VirtualPersonSelector.{
  VirtualPersonPool, VirtualPersonSelector, compile_pools, build, prev_upper_bound, person_id,
  id_of_index, get_virtual_person_id,
}
use virtual_people_core_serv.Utils.VirtualPersonSelector.IdSpace.{
  population, nth_person, Fits, InSpace, nth_person-InSpace,
}
use virtual_people_core_serv.Utils.VirtualPersonSelector.Compile.{
  sum-compile_pools, id_of_index-nth_person,
}

build-ok :
    (pools : List VirtualPersonPool) (selector : VirtualPersonSelector)
    → population pools < 2 ^ 64
    → build pools ≡ ok selector
    → (selector.pools ≡ (compile_pools pools 0).0)
      × (selector.total_population ≡ population pools)
      × (0 < population pools)
unfolding build
build-ok pools selector small e = ground (arith, sum-compile_pools pools 0)

get_of_bucket :
    (D : Doubles) (fuel seed : ℕ) (selector : VirtualPersonSelector) (buckets b : ℤ)
    → to_int32 selector.total_population ≡ buckets
    → jump_consistent_hash D fuel seed buckets ≡ some b
    → get_virtual_person_id D fuel selector seed ≡ id_of_index selector.pools (of_int32 b)
unfolding get_virtual_person_id
get_of_bucket D fuel seed selector buckets b e hash = rw (e, hash, get_virtual_person_id)

module _ (D : Doubles) (rounds : RoundsMonotonically D) (pools : List VirtualPersonPool)
    (selector : VirtualPersonSelector) (built : build pools ≡ ok selector)
    (small : population pools < 2 ^ 31) (fits : All Fits pools) where
  -- For a selector that Build gives of pools with fewer than 2 ^ 31 ids in all, each pool
  -- within a uint64_t, GetVirtualPersonId returns the id that stands in the concatenated id
  -- space of the pools at the jump hash of the seed, with more fuel than ids. The double
  -- arithmetic rounds monotonically.
  pub get_virtual_person_id-nth_person :
      (fuel seed : ℕ)
      → population pools < fuel
      → (r : ℕ) × (jump_consistent_hash D fuel seed (pos (population pools)) ≡ some (pos r))
        × (r < population pools)
        × (get_virtual_person_id D fuel selector seed ≡ nth_person pools r)
  unfolding of_int32
  get_virtual_person_id-nth_person fuel seed enough =
      let (compiled, total, positive) = build-ok pools selector (omega arith) built in
      let (r, hash, lt) =
        jump_consistent_hash_total D rounds fuel seed (population pools) positive (omega arith)
          enough in
      (
        r,
        hash,
        lt,
        get_of_bucket D fuel seed selector (pos (population pools)) (pos r)
              (ap to_int32 total ∙ to_int32_small (population pools) small) hash
            ∙ ap (λ compiled_pools. id_of_index compiled_pools r) compiled
            ∙ id_of_index-nth_person pools r lt (omega arith) fits,
      )

  -- For a selector that Build gives of pools with fewer than 2 ^ 31 ids in all, each pool
  -- within a uint64_t, and more fuel than ids, every seed is given an id, and the id lies in
  -- the range of one of the pools. The double arithmetic rounds monotonically.
  pub get_virtual_person_id-InSpace :
      (fuel seed : ℕ)
      → population pools < fuel
      → (v : ℕ) × (get_virtual_person_id D fuel selector seed ≡ some v) × InSpace v pools
  get_virtual_person_id-InSpace fuel seed enough =
      let (r, _, lt, e) = get_virtual_person_id-nth_person fuel seed enough in
      let (v, found, inside) = nth_person-InSpace pools r lt in (v, e ∙ found, inside)

id_before :
    (pool : VirtualPersonPool)
    → id_of_index
        (record { virtual_people_id_offset = pool.population_offset; population_index_offset = 0 }
          ∷ [])
        (of_int32 (negsuc 0))
      ≡ some ((pool.population_offset + 2 ^ 64 - 1) % 2 ^ 64)
unfolding id_of_index prev_upper_bound person_id of_int32 add64 sub64
id_before pool = ground arith

single-ok :
    (pool : VirtualPersonPool) (selector : VirtualPersonSelector)
    → build (pool ∷ []) ≡ ok selector
    → 0 < pool.total_population
    → pool.total_population < 2 ^ 64
    → (selector.pools
        ≡ record { virtual_people_id_offset = pool.population_offset; population_index_offset = 0 }
          ∷ [])
      × (selector.total_population ≡ pool.total_population)
unfolding build compile_pools add64
single-ok pool selector e h small = ground arith

-- A selector that Build gives of a single pool that fits a uint64_t, with a size below 2 ^ 64
-- that is at least 2 ^ 31 modulo 2 ^ 32, gives every seed, with any fuel but 0, the one id before
-- the offset of the pool modulo 2 ^ 64, and the pool does not contain it.
pub get_virtual_person_id-before_pool :
    (D : Doubles) (pool : VirtualPersonPool) (selector : VirtualPersonSelector) (fuel seed : ℕ)
    → build (pool ∷ []) ≡ ok selector
    → Fits pool
    → pool.total_population < 2 ^ 64
    → 2 ^ 31 ≤ pool.total_population % 2 ^ 32
    → (get_virtual_person_id D (suc fuel) selector seed
        ≡ some ((pool.population_offset + 2 ^ 64 - 1) % 2 ^ 64))
      × (¬ InSpace ((pool.population_offset + 2 ^ 64 - 1) % 2 ^ 64) (pool ∷ []))
get_virtual_person_id-before_pool D pool selector fuel seed built fits small wraps =
    let (compiled, total) = single-ok pool selector built (omega arith) small in
    (
      get_of_bucket D (suc fuel) seed selector _ (negsuc 0)
            (ap to_int32 total ∙ to_int32_negative pool.total_population wraps)
            (jump_consistent_hash_none D fuel seed _).1
          ∙ ap (λ pools. id_of_index pools (of_int32 (negsuc 0))) compiled
          ∙ id_before pool,
      λ inside. omega arith,
    )
