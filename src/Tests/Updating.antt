-- ===== src/Tests/Updating.antt =====
-- Runs of an update matrix, of a multiplicity, and of the two passes.
use virtual_people_core_serv.Prelude.{
  ℕ, ◌+◌, ◌<◌, ◌≤◌, ◌≡◌, ◌⊎◌, refl, List, [], ◌∷◌, Option, none, some, Result, ok, true, false,
  length, arith,
}
use virtual_people_core_serv.External.Events.{LabelerEvent, PoolAssignment}
use virtual_people_core_serv.External.Protobuf.{CppType}
use virtual_people_core_serv.Utils.DistributedConsistentHashing.{DistributionChoice, hash}
use virtual_people_core_serv.Model.UpdateMatrix
use virtual_people_core_serv.Model.UpdateMatrix.{UpdateMatrix, UpdateMatrixImpl}
use virtual_people_core_serv.Model.UpdateMatrix.Rows.{IsUpdate, update-row}
use virtual_people_core_serv.Model.UpdateMatrix.Columns.{ColumnOf}
use virtual_people_core_serv.Model.Multiplicity.{
  MultiplicityImpl, explicit_value, extract, compute_event_multiplicity, cap,
  compute_bimodal_integer,
}
use virtual_people_core_serv.Model.Multiplicity.Bounds.{
  IsBimodal, compute_event_multiplicity-IsBimodal,
}
use virtual_people_core_serv.Model.ModelNode.Apply.{
  apply_multiplicity, apply_all, merge_labels, clones_from,
}
use virtual_people_core_serv.Model.ModelNode.Clones.{
  LabelsClones, folded, apply_multiplicity-clones,
}
use virtual_people_core_serv.Model.RankedPopulationNode
use virtual_people_core_serv.Model.RankedPopulationNode.{find_rank, rank_assignments}
use virtual_people_core_serv.Model.RankedPopulationNode.Passes.{apply-announced}
use virtual_people_core_serv.Tests.Setup.{
  platform, messages, event_of, ranked_event, numbers, numbers-IsOrder, numbers-SqrtIsExact, unary,
}
use virtual_people_core_serv.Tests.Leaves.{leaf, leaf-IsValid, fuel}

abbrev seen : LabelerEvent platform
seen = event_of 4 [] false none

abbrev matrix_config : UpdateMatrix platform messages
matrix_config = record {
  columns = seen ∷ [];
  rows = event_of 1 [] false none ∷ event_of 2 [] false none ∷ [];
  probabilities = 0 ∷ 1 ∷ [];
  hash_field_mask = none;
  random_seed = "matrix";
  pass_through_non_matches = true;
}

abbrev matrix : UpdateMatrixImpl platform messages
matrix = record {
  hash_matcher = none;
  filters_matcher = some (4 ∷ []);
  row_hashings =
      (record { choice_id = 0; probability = 0 } ∷ record { choice_id = 1; probability = 1 } ∷ [])
      ∷ [];
  random_seed = "matrix";
  rows = event_of 1 [] false none ∷ event_of 2 [] false none ∷ [];
  pass_through_non_matches = true;
}

matrix_built : UpdateMatrix.build platform messages matrix_config ≡ ok matrix
unfolding UpdateMatrix.build UpdateMatrix.build_matchers UpdateMatrix.build_field_filters_matcher
    UpdateMatrix.build_row_hashings UpdateMatrix.column_choices
    virtual_people_core_serv.Utils.DistributedConsistentHashing.build
matrix_built = refl

update-row_example :
    (found : Option ℕ) × ColumnOf platform messages none (seen ∷ []) seen found
    × IsUpdate platform messages matrix_config seen
        (UpdateMatrix.update platform messages matrix seen)
        found
update-row_example = update-row platform messages matrix_config matrix seen matrix_built

abbrev twofold : MultiplicityImpl platform messages
twofold = record {
  multiplicity_extractor = explicit_value 2;
  cap_at_max = true;
  max_value = 5;
  person_index_field = CppType.uint64;
  random_seed = "multiplicity";
}

twofold_run : compute_event_multiplicity platform messages twofold seen ≡ ok 2
unfolding compute_event_multiplicity extract cap compute_bimodal_integer unary
twofold_run = refl

compute_event_multiplicity-IsBimodal_example :
    (extracted expected : ℕ) × (extract platform messages twofold.multiplicity_extractor seen
      ≡ ok extracted)
    × ((expected ≡ extracted) ⊎ (expected ≡ twofold.max_value))
    × (numbers.lt twofold.max_value expected ≡ false)
    × (numbers.lt expected (numbers.of_ℕ 0) ≡ false)
    × IsBimodal numbers expected 2
compute_event_multiplicity-IsBimodal_example =
    compute_event_multiplicity-IsBimodal platform messages numbers-IsOrder twofold seen 2
      twofold_run

-- A child that gives the fingerprint of the clone as the id.
abbrev fingerprint_child : LabelerEvent platform → Result (LabelerEvent platform)
fingerprint_child event = ok (record event {
  virtual_person_activities =
      record { virtual_person_id = some event.acting_fingerprint; label = none } ∷ [];
})

abbrev twice : LabelerEvent platform
twice = record seen {
  virtual_person_activities =
      record { virtual_person_id = some 0; label = none }
      ∷ record { virtual_person_id = some 1; label = none }
      ∷ [];
}

twice_run : apply_multiplicity platform messages twofold fingerprint_child seen ≡ ok twice
unfolding apply_multiplicity compute_event_multiplicity extract cap compute_bimodal_integer unary
    apply_all clones_from merge_labels
twice_run = refl

apply_multiplicity-clones_example :
    (labeled : List (LabelerEvent platform)) × (length labeled ≡ 2)
    × LabelsClones platform messages twofold seen fingerprint_child 0 labeled
    × (twice ≡ folded platform messages seen labeled)
apply_multiplicity-clones_example =
    apply_multiplicity-clones platform messages twofold fingerprint_child seen twice 2 twofold_run
      (λ e. omega arith) twice_run

abbrev announcing : LabelerEvent platform
announcing = event_of 5 [] true none

abbrev assignment : PoolAssignment
assignment = record { pool_offset = 1000; pool_size = 20; ranked_size = 10 }

abbrev announced : LabelerEvent platform
announced = event_of 5 (assignment ∷ []) true none

announced_run : RankedPopulationNode.apply platform fuel leaf announcing ≡ ok announced
unfolding RankedPopulationNode.apply
announced_run = refl

found_run : find_rank 1000 (rank_assignments platform (ranked_event 5 1000 3)) ≡ some 3
unfolding find_rank
found_run = refl

apply-announced_example :
    (id : ℕ) × (label : Option ℕ) × (1000 ≤ id)
    × (id < 1000 + 10)
    × (RankedPopulationNode.apply platform fuel leaf (ranked_event 5 1000 3)
        ≡ ok (record (ranked_event 5 1000 3) {
          virtual_person_activities = record { virtual_person_id = some id; label = label } ∷ [];
        }))
apply-announced_example =
    apply-announced platform numbers-SqrtIsExact fuel (omega arith) leaf leaf-IsValid announcing
      announced assignment (ranked_event 5 1000 3) 3 refl announced_run refl refl refl refl
      found_run (omega arith)
