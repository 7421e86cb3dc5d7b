-- ===== src/Model/PopulationNode.antt =====
-- population_node_impl.cc. `fuel` bounds the loop of the jump hash.
pub mod Ids
pub mod Pools
pub mod Reports
use Prim.Native.String.{String, ◌++◌}
use virtual_people_core_serv.Prelude.{
  ℕ, ◌^◌, Bool, true, false, List, [], ◌∷◌, Option, none, some, Result, ok, err, ◌>>=◌, ◌>>◌, guard,
  ◌&&◌, invalid_argument, internal, undefined, beyond_cookie_monster, activities_before_leaf,
  no_population_pools, or_error, ltb, ◌==◌, if◌then◌else◌, add64,
}
use virtual_people_core_serv.External.Events.{Platform, LabelerEvent, VirtualPersonActivity}
use virtual_people_core_serv.Utils.VirtualPersonSelector.{
  VirtualPersonPool, VirtualPersonSelector, get_virtual_person_id,
}
use virtual_people_core_serv.Utils.VirtualPersonSelector
use virtual_people_core_serv.Utils.PopulationNodeHelper.{collapse_all, merge_into}

pub record PopulationNode : Type 0 where
  pub pools : List VirtualPersonPool
  pub random_seed : String

pub record PopulationNodeImpl : Type 0 where
  pub virtual_person_selector : Option VirtualPersonSelector
  pub random_seed : String

-- kCookieMonsterOffset and kCookieMonsterSize.
abbrev pub cookie_monster_offset : ℕ
cookie_monster_offset = 10 ^ 18

abbrev pub cookie_monster_size : ℕ
cookie_monster_size = 10 ^ 14

unfoldable pub is_cookie_monster_pool : List VirtualPersonPool → Bool
is_cookie_monster_pool [] = false
is_cookie_monster_pool (pool ∷ []) =
    (pool.population_offset == cookie_monster_offset)
    && (pool.total_population == cookie_monster_size)
is_cookie_monster_pool (pool ∷ other ∷ rest) = false

-- The loop of IsValidPools.
unfoldable pub check_pools : List VirtualPersonPool → Result (Unit {0})
check_pools [] = ok tt
check_pools (pool ∷ pools) =
    let rest = check_pools pools in
    if ltb cookie_monster_offset (add64 pool.population_offset pool.total_population)
    then err (invalid_argument beyond_cookie_monster)
    else rest

unfoldable pub is_valid_pools : List VirtualPersonPool → Result (Unit {0})
is_valid_pools pools = if is_cookie_monster_pool pools then ok tt else check_pools pools

unfoldable pub build : PopulationNode → Result PopulationNodeImpl
build config = do
  is_valid_pools config.pools
  selector ← VirtualPersonSelector.build config.pools
  ok (record { virtual_person_selector = some selector; random_seed = config.random_seed })

abbrev pub is_empty {ℓ} : {A : Type ℓ} → List A → Bool
is_empty [] = true
is_empty (x ∷ xs) = false

module _ (P : Platform) where
  -- The label of a new activity: the quantum labels, then the classic label of the event.
  unfoldable pub label_of : LabelerEvent P → String → Result (Option P.Label)
  label_of event seed_suffix = do
    collapsed ← elim (event.quantum_labels) [
      | none ↦ ok none
      | some quantum_labels ↦ collapse_all P quantum_labels seed_suffix none
    ]
    ok (elim (event.label) [ none ↦ collapsed | some label ↦ merge_into P collapsed label ])

  -- The event with its one activity. The id is set, so it is the seed of the labels.
  unfoldable pub add_activity : LabelerEvent P → ℕ → Result (LabelerEvent P)
  unfolding label_of
  add_activity event id = do
    label ← label_of event (P.hashing.decimal id)
    let activity : VirtualPersonActivity P = record { virtual_person_id = some id; label = label }
    ok (record event { virtual_person_activities = activity ∷ [] })

module _ (P : Platform) (fuel : ℕ) where
  -- The rest of Apply: the event gets an id and its labels.
  unfoldable pub label_event : PopulationNodeImpl → LabelerEvent P → Result (LabelerEvent P)
  label_event node event = do
    guard (is_empty event.virtual_person_activities) (invalid_argument activities_before_leaf)
    selector ← or_error node.virtual_person_selector (internal no_population_pools)
    let seed =
        P.hashing.fingerprint64 (node.random_seed ++ P.hashing.decimal event.acting_fingerprint)
    id ← or_error (get_virtual_person_id P.doubles fuel selector seed) undefined
    add_activity P event id

  unfoldable pub apply : PopulationNodeImpl → LabelerEvent P → Result (LabelerEvent P)
  unfolding label_event
  apply node event = if event.pool_identity_mode then ok event else label_event node event
