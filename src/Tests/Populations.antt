-- ===== src/Tests/Populations.antt =====
-- Runs of a population node and of quantum labels.
use virtual_people_core_serv.Utils.ConsistentHash.{
  jump_consistent_hash, jump_loop, next_jump, next_key,
}
use virtual_people_core_serv.Utils.VirtualPersonSelector.{
  compile_pools, id_of_index, get_virtual_person_id, person_id, prev_upper_bound,
}
use virtual_people_core_serv.Model.PopulationNode.{add_activity}
use Prim.Native.String.{◌++◌}
use virtual_people_core_serv.Prelude.{
  ◌-◌, ◌↔◌, inr, List, ℕ, ◌^◌, ◌⊎◌, [], ◌∷◌, Option, none, some, ok, All, ◌≡◌, refl, arith,
  get_elem?, mul64, add64, to_int32, of_int32, sub64,
}
use virtual_people_core_serv.External.Events.{LabelerEvent}
use virtual_people_core_serv.Tests.Setup.{
  numbers, lengths, platform, numbers-RoundsMonotonically, unary,
}
use virtual_people_core_serv.Model.PopulationNode
use virtual_people_core_serv.Model.PopulationNode.{PopulationNode, PopulationNodeImpl}
use virtual_people_core_serv.Model.PopulationNode.{is_valid_pools, is_cookie_monster_pool}
use virtual_people_core_serv.Model.PopulationNode.Pools.{
  cookie_monster, EndsBefore, is_valid_pools_iff,
}
use virtual_people_core_serv.Model.PopulationNode.Ids.{apply-InSpace}
use virtual_people_core_serv.Utils.VirtualPersonSelector.IdSpace.{InSpace}
use virtual_people_core_serv.External.Events.{QuantumLabel}
use virtual_people_core_serv.Utils.DistributedConsistentHashing
use virtual_people_core_serv.Utils.DistributedConsistentHashing.{DistributionChoice, hash}
use virtual_people_core_serv.Utils.PopulationNodeHelper.{
  number_choices, merge_into, collapse_quantum_label,
}
use virtual_people_core_serv.Utils.PopulationNodeHelper.Collapse.{collapse_quantum_label-chosen}
use virtual_people_core_serv.Tests.Leaves.{merged}

abbrev population_config : PopulationNode
population_config = record {
  pools =
      record { population_offset = 1000; total_population = 4 }
      ∷ record { population_offset = 2000; total_population = 6 }
      ∷ [];
  random_seed = "seed";
}

abbrev population_leaf : PopulationNodeImpl
population_leaf = record {
  virtual_person_selector = some (record {
    total_population = 10;
    pools =
        record { virtual_people_id_offset = 1000; population_index_offset = 0 }
        ∷ record { virtual_people_id_offset = 2000; population_index_offset = 4 }
        ∷ [];
  });
  random_seed = "seed";
}

population_built : PopulationNode.build population_config ≡ ok population_leaf
unfolding PopulationNode.build PopulationNode.is_valid_pools PopulationNode.is_cookie_monster_pool
    PopulationNode.check_pools add64 virtual_people_core_serv.Utils.VirtualPersonSelector.build
    compile_pools
population_built = refl

abbrev plain_labeled : LabelerEvent platform
plain_labeled = record merged {
  virtual_person_activities = record { virtual_person_id = some 2003; label = none } ∷ [];
}

population_run : PopulationNode.apply platform 100 population_leaf merged ≡ ok plain_labeled
unfolding PopulationNode.apply get_virtual_person_id jump_consistent_hash jump_loop to_int32
    next_jump next_key add64 mul64 unary id_of_index prev_upper_bound of_int32 add_activity
    person_id sub64
population_run = refl

apply-InSpace_example :
    (v : ℕ) × (label : Option ℕ) × InSpace v population_config.pools
    × (plain_labeled.virtual_person_activities
        ≡ record { virtual_person_id = some v; label = label } ∷ [])
apply-InSpace_example =
    apply-InSpace platform numbers-RoundsMonotonically 100 population_config population_leaf merged
      plain_labeled population_built (omega arith) (omega arith) (omega arith, (omega arith, tt))
      refl population_run

abbrev quantum : QuantumLabel platform
quantum = record { labels = 7 ∷ 8 ∷ []; probabilities = 0 ∷ 1 ∷ []; seed = "quantum" }

abbrev quantum_hashing : List (DistributionChoice numbers)
quantum_hashing =
    record { choice_id = 0; probability = 0 } ∷ record { choice_id = 1; probability = 1 } ∷ []

quantum_built :
    DistributedConsistentHashing.build numbers (number_choices numbers 0 (0 ∷ 1 ∷ []))
    ≡ ok quantum_hashing
unfolding DistributedConsistentHashing.build number_choices
quantum_built = refl

collapse_quantum_label-chosen_example :
    (label : ℕ) × (get_elem? quantum.labels
        (hash numbers lengths quantum_hashing ("quantum-label-collapse-" ++ "quantum" ++ "5"))
      ≡ some label)
    × (collapse_quantum_label platform quantum "5" none ≡ ok (merge_into platform none label))
collapse_quantum_label-chosen_example =
    collapse_quantum_label-chosen platform quantum "5" none quantum_hashing (omega arith) refl
      quantum_built

is_valid_pools_iff_example :
    (is_valid_pools population_config.pools ≡ ok tt)
    ↔ ((population_config.pools ≡ cookie_monster) ⊎ All EndsBefore population_config.pools)
is_valid_pools_iff_example = is_valid_pools_iff population_config.pools

-- A pool that wraps around is accepted.
wrapping_pool_accepted :
    is_valid_pools (record { population_offset = 2 ^ 64 - 1; total_population = 2 } ∷ []) ≡ ok tt
wrapping_pool_accepted =
    (is_valid_pools_iff (record { population_offset = 2 ^ 64 - 1; total_population = 2 } ∷ [])).1
      (inr (omega arith, tt))
