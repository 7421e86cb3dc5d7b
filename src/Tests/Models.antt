-- ===== src/Tests/Models.antt =====
-- Models: a tree of three nodes, in the two forms, and a run of the model writer.
use virtual_people_core_serv.Utils.PopulationNodeHelper.{number_choices}
use virtual_people_core_serv.Model.ModelNode.Build.{
  build_selector, build_selector_by, check_select_bys,
}
use virtual_people_core_serv.Utils.VirtualPersonSelector.{
  compile_pools, get_virtual_person_id, id_of_index, prev_upper_bound, person_id,
}
use virtual_people_core_serv.Model.PopulationNode
use virtual_people_core_serv.Model.PopulationNode.{
  check_pools, is_cookie_monster_pool, is_valid_pools, add_activity,
}
use virtual_people_core_serv.Prelude.{
  [], ◌∷◌, Option, none, some, ok, ◌≡◌, refl, ◌≤◌, ◌^◌, length, arith, ◌↔◌, pos, add64, false, ℕ,
  Reported, inl, All, mul64, sub64, to_int32, of_int32,
}
use virtual_people_core_serv.External.Files.{Files, ReadsWhatIsWritten}
use virtual_people_core_serv.Model.Config.{
  CompiledNode, compiled_node, branch_node, branch, no_branches, stop_node, node, node_index,
  population_node, chance, action_not_set, select_bys,
}
use virtual_people_core_serv.Model.ModelSerializer.{
  NodeList, to_node_list_representation, add_to_node_list, to_uint32,
}
use virtual_people_core_serv.Model.ModelSerializer.Trees.{IsTree, to_node_list_representation_iff}
use virtual_people_core_serv.Labeler.Build.{build_root, build_list}
use virtual_people_core_serv.Labeler.Build.RoundTrip.{build_list-to_node_list_representation}
use virtual_people_core_serv.ModelWriter.{
  Flags, done, main, read_single_node_model, is_positive, is_empty,
}
use virtual_people_core_serv.ModelWriter.Written.{main-build_list}
use virtual_people_core_serv.External.Events.{LabelerInput}
use virtual_people_core_serv.Model.ModelNode.{
  ModelNode, branch_node_impl, stop_node_impl, population_node_impl, no_nodes, child_node,
  no_updaters,
}
use virtual_people_core_serv.Labeler.Label.{
  LabelingMode, LabelerOutput, label, prepare, set_fingerprints, set_mode, acting_fingerprint_of,
  fingerprint_event_id, map_profile,
}
use virtual_people_core_serv.Labeler.Ids.{label-IsAllowed}
use virtual_people_core_serv.Model.PopulationNode.{PopulationNode}
use virtual_people_core_serv.Utils.VirtualPersonSelector.IdSpace.{InSpace}
use virtual_people_core_serv.Model.Ids.{IsAllowed}
use virtual_people_core_serv.Model.Ids.Allows.{
  NodeAllows, TypeAllows, BranchesAllow, ChildAllows, ActionAllows,
}
use virtual_people_core_serv.Labeler.Reports.{label-IsReported}
use virtual_people_core_serv.Model.ModelNode.Apply.{apply, select_child}
use virtual_people_core_serv.Utils.DistributedConsistentHashing.{
  hash, hash_loop, compute_xi, get_full_seed,
}
use virtual_people_core_serv.Utils.Hash.{exp_hash, float_hash}
use virtual_people_core_serv.Utils.ConsistentHash.{
  jump_consistent_hash, jump_loop, next_jump, next_key,
}
use virtual_people_core_serv.Tests.Setup.{
  platform, messages, numbers-SqrtIsExact, numbers-RoundsMonotonically, messages-KeepsActivities,
  unary,
}

-- The ids 1000 to 1003.
abbrev leaf_config : PopulationNode
leaf_config = record {
  pools = record { population_offset = 1000; total_population = 4 } ∷ [];
  random_seed = "leaf";
}

abbrev tree : CompiledNode platform messages
tree = compiled_node none "root" (
    branch_node
      (branch (node (compiled_node none "first" (population_node leaf_config))) (chance 0)
        (branch (node (compiled_node none "second" stop_node)) (chance 1) no_branches))
      "seed" action_not_set)

abbrev tree_list : NodeList platform messages
tree_list =
    compiled_node (some 0) "first" (population_node leaf_config)
    ∷ compiled_node (some 1) "second" stop_node
    ∷ compiled_node (some 2) "root" (
        branch_node
          (branch (node_index 0) (chance 0) (branch (node_index 1) (chance 1) no_branches)) "seed"
          action_not_set)
    ∷ []

tree_serialized : to_node_list_representation platform messages tree ≡ ok tree_list
unfolding to_node_list_representation add_to_node_list to_uint32
tree_serialized = refl

build_list-to_node_list_representation_example :
    build_list platform messages tree_list ≡ build_root platform messages tree
build_list-to_node_list_representation_example =
    build_list-to_node_list_representation platform messages tree tree_list tree_serialized
      (omega arith)

to_node_list_representation_iff_example :
    ((list : NodeList platform messages) × (to_node_list_representation platform messages tree
        ≡ ok list))
    ↔ IsTree platform messages tree
to_node_list_representation_iff_example = to_node_list_representation_iff platform messages tree

abbrev tree_labeler : ModelNode platform messages
tree_labeler =
    branch_node_impl "root"
      (child_node
        (population_node_impl "first" (record {
          virtual_person_selector = some (record {
            total_population = 4;
            pools = record { virtual_people_id_offset = 1000; population_index_offset = 0 } ∷ [];
          });
          random_seed = "leaf";
        }))
        (child_node (stop_node_impl "second") no_nodes))
      (record {
        hashing = some (
            record { choice_id = 0; probability = 0 }
            ∷ record { choice_id = 1; probability = 1 }
            ∷ []);
        random_seed = "seed";
        matcher = none;
      })
      no_updaters none

tree_built : build_root platform messages tree ≡ ok tree_labeler
unfolding build_root virtual_people_core_serv.Model.ModelNode.Build.build
    virtual_people_core_serv.Model.PopulationNode.build is_valid_pools is_cookie_monster_pool
    check_pools add64 virtual_people_core_serv.Utils.VirtualPersonSelector.build compile_pools
    build_selector select_bys check_select_bys build_selector_by
    virtual_people_core_serv.Utils.DistributedConsistentHashing.build number_choices
tree_built = refl

abbrev input : LabelerInput platform
input = record {
  event_id = some (record { id = "event"; id_fingerprint = none });
  profile_info = none;
  timestamp_usec = 0;
  rank_assignments = [];
  enable_debug_trace = false;
  input_rest = tt;
}

abbrev no_output : LabelerOutput platform
no_output = record { people = []; pool_assignments = []; serialized_debug_trace = none }

abbrev fuel : ℕ
fuel = 2 ^ 32

label-IsReported_example :
    Reported (label platform messages fuel tree_labeler input no_output LabelingMode.full)
label-IsReported_example =
    label-IsReported platform messages numbers-SqrtIsExact numbers-RoundsMonotonically fuel
      (omega arith) tree tree_list tree_labeler (inl tree_built) input no_output LabelingMode.full

abbrev tree_output : LabelerOutput platform
tree_output = record {
  people = record { virtual_person_id = some 1002; label = none } ∷ [];
  pool_assignments = [];
  serialized_debug_trace = none;
}

tree_run :
    label platform messages fuel tree_labeler input no_output LabelingMode.full ≡ ok tree_output
unfolding label apply select_child hash hash_loop compute_xi get_full_seed exp_hash float_hash
    PopulationNode.apply get_virtual_person_id jump_consistent_hash jump_loop next_jump next_key
    id_of_index prev_upper_bound person_id add_activity unary add64 mul64 sub64 to_int32 of_int32
    prepare set_fingerprints set_mode acting_fingerprint_of fingerprint_event_id map_profile
tree_run = refl

tree-allows : NodeAllows platform messages (λ id. InSpace id leaf_config.pools) tree
unfolding NodeAllows TypeAllows BranchesAllow ChildAllows ActionAllows
tree-allows = (
  (
    record { small = omega arith; fits = (omega arith, tt); allowed = λ id inside. inside },
    (tt, tt),
  ),
  tt,
)

label-IsAllowed_example :
    All (IsAllowed platform (λ id. InSpace id leaf_config.pools)) tree_output.people
label-IsAllowed_example =
    label-IsAllowed platform messages (λ id. InSpace id leaf_config.pools) messages-KeepsActivities
      numbers-SqrtIsExact numbers-RoundsMonotonically fuel (omega arith) tree tree_list tree_labeler
      (inl (tree-allows, tree_built)) input no_output tree_output LabelingMode.full tree_run

-- A disk holds the text of one model, or nothing, and one list of nodes.
abbrev TestDisk : Type 0
TestDisk = Option (CompiledNode platform messages) × NodeList platform messages

abbrev files : Files platform messages
files = record {
  Disk = TestDisk;
  open_file = λ disk path. pos 3;
  parse_text = λ disk path. disk.0;
  write_riegeli_file =
      λ disk path records. let written : TestDisk = (disk.0, records) in ok written;
  read_riegeli_file = λ disk path. ok disk.1;
}

files-ReadsWhatIsWritten : ReadsWhatIsWritten files
files-ReadsWhatIsWritten = record { read_write = λ disk disk' path records e. cc }

abbrev paths : Flags
paths = record { input_model_path = "in"; output_model_path = "out" }

abbrev unwritten : TestDisk
unwritten = (some tree, [])

abbrev written : TestDisk
written = (some tree, tree_list)

main_run : main platform messages files paths unwritten ≡ done written
unfolding main is_empty read_single_node_model is_positive to_node_list_representation
    add_to_node_list to_uint32
main_run = refl

main-build_list_example :
    (root : CompiledNode platform messages) × (list : NodeList platform messages)
    × (files.parse_text unwritten paths.input_model_path ≡ some root)
    × (files.read_riegeli_file written paths.output_model_path ≡ ok list)
    × (length list ≤ 2 ^ 32 → build_list platform messages list ≡ build_root platform messages root)
main-build_list_example =
    main-build_list platform messages files files-ReadsWhatIsWritten paths unwritten written
      main_run
