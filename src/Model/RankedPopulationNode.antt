-- ===== src/Model/RankedPopulationNode.antt =====
-- ranked_population_node_impl.cc. `fuel` bounds the loops of the jump hash and of the permutation.
pub mod Ids
pub mod Collisions
pub mod Reports
pub mod Passes
use Prim.Native.String.{String, ◌++◌}
use virtual_people_core_serv.Prelude.{
  ℕ, ◌^◌, ◌-◌, Bool, true, false, not, List, [], ◌∷◌, ◌++◌ as ◌+++◌, Option, none, some, Result, ok,
  err, ◌>>=◌, ◌>>◌, guard, ◌&&◌, invalid_argument, undefined, out_of_fuel, activities_before_leaf,
  pools_not_single, pool_size_zero, pool_size_too_large, ranked_exceeds_pool, no_matching_rank,
  no_unranked_space, invalid_unranked_mode, or_error, ltb, leb, ◌==◌, if◌then◌else◌, add64, sub64,
  to_int32, of_int32, length,
}
use virtual_people_core_serv.External.Events.{
  Platform, LabelerEvent, LabelerInput, RankAssignment, PoolAssignment,
}
use virtual_people_core_serv.Utils.ConsistentHash.{jump_consistent_hash}
use virtual_people_core_serv.Utils.Feistel.{feistel_permute}
use virtual_people_core_serv.Utils.VirtualPersonSelector.{VirtualPersonPool}
use virtual_people_core_serv.Model.PopulationNode.{is_empty, add_activity}

pub data UnrankedMode : Type 0 where
  unspecified disjoint full_pool : UnrankedMode

pub record RankedPopulationNode : Type 0 where
  pub pools : List VirtualPersonPool
  pub random_seed : String
  pub ranked_size : ℕ
  pub unranked_mode : UnrankedMode

pub record RankedPopulationNodeImpl : Type 0 where
  pub random_seed : String
  pub ranked_size : ℕ
  pub unranked_mode : UnrankedMode
  pub pool_offset : ℕ
  pub pool_size : ℕ

-- The checks on the single pool.
unfoldable pub build_pool :
    RankedPopulationNode → VirtualPersonPool → Result RankedPopulationNodeImpl
build_pool config pool = do
  let pool_size = pool.total_population
  guard (not (pool_size == 0)) (invalid_argument pool_size_zero)
  guard (not (ltb (2 ^ 31 - 1) pool_size)) (invalid_argument pool_size_too_large)
  guard (not (ltb pool_size config.ranked_size)) (invalid_argument ranked_exceeds_pool)
  ok (record {
    random_seed = config.random_seed;
    ranked_size = config.ranked_size;
    unranked_mode = config.unranked_mode;
    pool_offset = pool.population_offset;
    pool_size = pool_size;
  })

unfoldable pub build_pools :
    RankedPopulationNode → List VirtualPersonPool → Result RankedPopulationNodeImpl
unfolding build_pool
build_pools config [] = err (invalid_argument pools_not_single)
build_pools config (pool ∷ []) = build_pool config pool
build_pools config (pool ∷ other ∷ rest) = err (invalid_argument pools_not_single)

unfoldable pub build : RankedPopulationNode → Result RankedPopulationNodeImpl
unfolding build_pools
build config = build_pools config config.pools

-- The rank of the first assignment to the pool.
unfoldable pub find_rank : ℕ → List RankAssignment → Option ℕ
find_rank pool_offset [] = none
find_rank pool_offset (assignment ∷ rest) =
    if assignment.pool_offset == pool_offset
    then some assignment.local_rank
    else find_rank pool_offset rest

-- Ranks were given, and none for this pool.
abbrev pub is_misused : List RankAssignment → Option ℕ → Bool
is_misused assignments none = not (is_empty assignments)
is_misused assignments (some rank) = false

module _ (P : Platform) where
  abbrev pub rank_assignments : LabelerEvent P → List RankAssignment
  rank_assignments event = elim (event.labeler_input) [
    | none ↦ []
    | some input ↦ input.rank_assignments
  ]

module _ (P : Platform) (fuel : ℕ) where
  -- The ranked path.
  unfoldable pub ranked_id : RankedPopulationNodeImpl → ℕ → Result ℕ
  ranked_id node local_rank = do
    permuted ←
        or_error
          (feistel_permute P.hashing P.doubles fuel local_rank node.ranked_size node.random_seed)
          out_of_fuel
    ok (add64 node.pool_offset permuted)

  -- JumpConsistentHash into a part of the pool, added to its offset.
  unfoldable pub jump_id : ℕ → ℕ → ℕ → Result ℕ
  jump_id offset size seed = do
    bucket ← or_error (jump_consistent_hash P.doubles fuel seed (to_int32 size)) out_of_fuel
    ok (add64 offset (of_int32 bucket))

  -- The unranked path, by the mode.
  unfoldable pub unranked_id : RankedPopulationNodeImpl → UnrankedMode → ℕ → Result ℕ
  unfolding jump_id
  unranked_id node unspecified seed = err (invalid_argument invalid_unranked_mode)
  unranked_id node disjoint seed =
      let unranked_size = sub64 node.pool_size node.ranked_size in
      if unranked_size == 0
      then err (invalid_argument no_unranked_space)
      else jump_id (add64 node.pool_offset node.ranked_size) unranked_size seed
  unranked_id node full_pool seed = jump_id node.pool_offset node.pool_size seed

  -- The id of an event by its rank in the pool, if it has one.
  unfoldable pub select_id : RankedPopulationNodeImpl → LabelerEvent P → Option ℕ → Result ℕ
  select_id node event rank =
      let seed =
        P.hashing.fingerprint64 (node.random_seed ++ P.hashing.decimal event.acting_fingerprint) in
      let unranked = unranked_id node node.unranked_mode seed in
      elim rank [
        | none ↦ unranked
        | some local_rank ↦
            if ltb local_rank node.ranked_size then ranked_id node local_rank else unranked
      ]

  -- Pass 1: the event announces the pool.
  unfoldable pub announce : RankedPopulationNodeImpl → LabelerEvent P → LabelerEvent P
  announce node event =
      let assignment : PoolAssignment = record {
        pool_offset = node.pool_offset;
        pool_size = node.pool_size;
        ranked_size = node.ranked_size;
      } in
      record event { pool_assignments = event.pool_assignments +++ (assignment ∷ []) }

  -- The rest of Apply: the event gets an id and its labels.
  unfoldable pub label_event : RankedPopulationNodeImpl → LabelerEvent P → Result (LabelerEvent P)
  label_event node event = do
    guard (is_empty event.virtual_person_activities) (invalid_argument activities_before_leaf)
    let assignments = rank_assignments P event
    let rank = find_rank node.pool_offset assignments
    guard (not (is_misused assignments rank)) (invalid_argument no_matching_rank)
    id ← select_id node event rank
    add_activity P event id

  unfoldable pub apply : RankedPopulationNodeImpl → LabelerEvent P → Result (LabelerEvent P)
  unfolding announce label_event
  apply node event =
      if event.pool_identity_mode then ok (announce node event) else label_event node event
