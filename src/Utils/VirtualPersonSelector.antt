-- ===== src/Utils/VirtualPersonSelector.antt =====
-- utils/virtual_person_selector.cc. std::upper_bound is what it is documented to find in a list
-- that ascends: the first pool with a larger offset. A fault is `none`, as is fuel that ran out.
pub mod IdSpace
pub mod Compile
pub mod Selection
pub mod Totality
use virtual_people_core_serv.Prelude.{
  ℕ, ◌+◌, ◌<◌, Bool, true, false, List, [], ◌∷◌, Option, none, some, ltb, ◌==◌, if◌then◌else◌,
  Result, ok, err, empty_population, invalid_argument, add64, sub64, to_int32, of_int32,
}
use virtual_people_core_serv.External.Doubles.{Doubles}
use virtual_people_core_serv.Utils.ConsistentHash.{jump_consistent_hash}

-- PopulationNode::VirtualPersonPool
pub record VirtualPersonPool : Type 0 where
  pub population_offset : ℕ
  pub total_population : ℕ

pub record VirtualPersonIdPool : Type 0 where
  pub virtual_people_id_offset : ℕ
  pub population_index_offset : ℕ

pub record VirtualPersonSelector : Type 0 where
  pub total_population : ℕ
  pub pools : List VirtualPersonIdPool

-- The loop of Build over the pools left, from the population so far.
unfoldable pub compile_pools : List VirtualPersonPool → ℕ → List VirtualPersonIdPool × ℕ
compile_pools [] total = ([], total)
compile_pools (pool ∷ pools) total = elim (pool.total_population == 0) [
  | true ↦ compile_pools pools total
  | false ↦
      let (compiled, sum) = compile_pools pools (add64 total pool.total_population) in
      let entry : VirtualPersonIdPool = record {
        virtual_people_id_offset = pool.population_offset;
        population_index_offset = total;
      } in
      (entry ∷ compiled, sum)
]

unfoldable pub build : List VirtualPersonPool → Result VirtualPersonSelector
build pools =
    let (compiled, total) = compile_pools pools 0 in
    if total == 0
    then err (invalid_argument empty_population)
    else ok (record { total_population = total; pools = compiled })

-- std::prev(std::upper_bound(…)); `before` is the pool before the ones left.
unfoldable pub prev_upper_bound :
    ℕ → Option VirtualPersonIdPool → List VirtualPersonIdPool → Option VirtualPersonIdPool
prev_upper_bound index before [] = before
prev_upper_bound index before (pool ∷ pools) =
    let rest = prev_upper_bound index (some pool) pools in
    if ltb index pool.population_index_offset then before else rest

unfoldable pub person_id : ℕ → VirtualPersonIdPool → ℕ
person_id index pool =
    add64 (sub64 index pool.population_index_offset) pool.virtual_people_id_offset

-- The id in the pool that was found.
abbrev pub id_in : Option VirtualPersonIdPool → ℕ → Option ℕ
id_in none index = none
id_in (some pool) index = some (person_id index pool)

unfoldable pub id_of_index : List VirtualPersonIdPool → ℕ → Option ℕ
id_of_index pools index = id_in (prev_upper_bound index none pools) index

module _ (D : Doubles) where
  unfoldable pub get_virtual_person_id : ℕ → VirtualPersonSelector → ℕ → Option ℕ
  get_virtual_person_id fuel selector random_seed =
      elim (jump_consistent_hash D fuel random_seed (to_int32 selector.total_population)) [
        | none ↦ none
        | some bucket ↦ id_of_index selector.pools (of_int32 bucket)
      ]
