-- ===== src/Model/RankedPopulationNode/Ids.antt =====
-- The ids that a node gives lie in its pool, the ranked ones in its ranked part.
use virtual_people_core_serv.Prelude.{
  ℕ, ◌+◌, ◌-◌, ◌^◌, ◌≤◌, ◌<◌, ◌≡◌, refl, ap, ◌∙◌, some, Result, ok, arith, lt→ltb, add64_exact,
  sub64_exact, to_int32, of_int32, to_int32_small, pos, ◌==◌, [], ◌∷◌, List, false,
}
use virtual_people_core_serv.External.Doubles.{SqrtIsExact, RoundsMonotonically}
use virtual_people_core_serv.External.Events.{Platform, LabelerEvent}
use virtual_people_core_serv.Utils.ConsistentHash.{jump_consistent_hash}
use virtual_people_core_serv.Utils.ConsistentHash.Bounds.{jump_consistent_hash_total}
use virtual_people_core_serv.Utils.Feistel.Bijection.{feistel_permute_total, half_square-le}
use virtual_people_core_serv.Utils.VirtualPersonSelector.{VirtualPersonPool}
use virtual_people_core_serv.Model.RankedPopulationNode.{
  disjoint, full_pool, RankedPopulationNode, RankedPopulationNodeImpl, build_pools, build,
  ranked_id, jump_id, unranked_id, select_id,
}

-- What Build checks, and that the pool's ids fit a uint64_t.
pub record IsValid (node : RankedPopulationNodeImpl) : Type 0 where
  pub filled : 0 < node.pool_size
  pub small : node.pool_size < 2 ^ 31
  pub ranked : node.ranked_size ≤ node.pool_size
  pub fits : node.pool_offset + node.pool_size < 2 ^ 64

build_pools-IsValid :
    (config : RankedPopulationNode) (pools : List VirtualPersonPool)
    (node : RankedPopulationNodeImpl)
    → build_pools config pools ≡ ok node
    → node.pool_offset + node.pool_size < 2 ^ 64
    → IsValid node
unfolding build_pools
build_pools-IsValid config [] node e fits = cc
build_pools-IsValid config (pool ∷ []) node e fits = ground arith
build_pools-IsValid config (pool ∷ other ∷ rest) node e fits = cc

-- A node that Build gives has a pool that is not empty and smaller than 2 ^ 31 and a ranked size
-- within it, given that its ids fit a uint64_t.
pub build-IsValid :
    (config : RankedPopulationNode) (node : RankedPopulationNodeImpl)
    → build config ≡ ok node
    → node.pool_offset + node.pool_size < 2 ^ 64
    → IsValid node
unfolding build
build-IsValid config node e fits = build_pools-IsValid config config.pools node e fits

-- The id lies in the part of the pool from `low` to `high`.
abbrev pub Within : ℕ → ℕ → Result ℕ → Type 0
Within low high r = (v : ℕ) × (r ≡ ok v) × (low ≤ v) × (v < high)

module _ (P : Platform) (rounds : RoundsMonotonically P.doubles) (fuel : ℕ)
    (enough : 2 ^ 32 ≤ fuel) where
  jump_id-Within :
      (offset size seed : ℕ)
      → 0 < size
      → size < 2 ^ 31
      → offset + size < 2 ^ 64
      → Within offset (offset + size) (jump_id P fuel offset size seed)
  unfolding jump_id of_int32
  jump_id-Within offset size seed h small fits =
      let (r, hash, lt) =
        jump_consistent_hash_total P.doubles rounds fuel seed size h (omega arith) (omega arith) in
      let hash' : jump_consistent_hash P.doubles fuel seed (to_int32 size) ≡ some (pos r) =
        ap (jump_consistent_hash P.doubles fuel seed) (to_int32_small size small) ∙ hash in
      (
        offset + r,
        rw hash' (ap ok (add64_exact offset r (omega arith))),
        omega arith,
        omega (arith, lt),
      )

  module _ (node : RankedPopulationNodeImpl) (valid : IsValid node) where
    -- An unranked event of a valid disjoint node with ids left gets an id of its pool after
    -- the ranked part. The fuel is at least 2 ^ 32 and rounding monotone.
    pub unranked_id-disjoint :
        (seed : ℕ)
        → node.ranked_size < node.pool_size
        → Within
            (node.pool_offset + node.ranked_size)
            (node.pool_offset + node.pool_size)
            (unranked_id P fuel node disjoint seed)
    unfolding unranked_id
    unranked_id-disjoint seed room =
        let size = node.pool_size - node.ranked_size in
        let (v, e, ge, lt) =
          jump_id-Within (node.pool_offset + node.ranked_size) size seed (omega arith) (omega arith)
            (omega arith) in
        let some_left : (size == 0) ≡ false = ground arith in
        (
          v,
          rw
              (
                add64_exact node.pool_offset node.ranked_size (omega arith),
                sub64_exact node.pool_size node.ranked_size valid.ranked (omega arith),
                some_left,
              )
              e,
          ge,
          omega arith,
        )

    -- An unranked event of a valid full-pool node gets an id of its pool. The fuel is at
    -- least 2 ^ 32 and rounding monotone.
    pub unranked_id-full_pool :
        (seed : ℕ)
        → Within node.pool_offset
            (node.pool_offset + node.pool_size)
            (unranked_id P fuel node full_pool seed)
    unfolding unranked_id
    unranked_id-full_pool seed =
        jump_id-Within node.pool_offset node.pool_size seed valid.filled valid.small valid.fits

-- An event is ranked if it has a rank below the ranked size.
pub select_id-ranked :
    (P : Platform) (fuel : ℕ) (node : RankedPopulationNodeImpl) (event : LabelerEvent P) (rank : ℕ)
    → rank < node.ranked_size
    → select_id P fuel node event (some rank) ≡ ranked_id P fuel node rank
unfolding select_id
select_id-ranked P fuel node event rank h = rw (lt→ltb rank node.ranked_size h) refl

module _ (P : Platform) (exact : SqrtIsExact P.doubles) (fuel : ℕ) (enough : 2 ^ 32 ≤ fuel)
    (node : RankedPopulationNodeImpl) (valid : IsValid node) where
  -- A rank below the ranked size of a valid node gives an id in the ranked part of its pool.
  -- The fuel is at least 2 ^ 32 and the square root exact below 2 ^ 52.
  pub ranked_id-Within :
      (rank : ℕ)
      → rank < node.ranked_size
      → Within node.pool_offset (node.pool_offset + node.ranked_size) (ranked_id P fuel node rank)
  unfolding ranked_id
  ranked_id-Within rank h =
      let square =
        half_square-le P.hashing P.doubles exact node.ranked_size (omega arith) (omega arith) in
      let (y, found, lt) =
        feistel_permute_total P.hashing P.doubles exact node.ranked_size (omega arith)
          node.random_seed fuel rank h (omega (arith, square)) in
      (
        node.pool_offset + y,
        rw found (ap ok (add64_exact node.pool_offset y (omega arith))),
        omega arith,
        omega (arith, lt),
      )
