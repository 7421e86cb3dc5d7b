-- ===== src/Model/ModelNode/Apply.antt =====
-- Apply of every node and Update of every updater: branch_node_impl.cc, update_tree_impl.cc,
-- stop_node_impl.h. An event that an error leaves behind is dropped, as Labeler::Label drops it.
use Prim.Native.String.{String, ◌++◌}
use virtual_people_core_serv.Prelude.{
  ℕ, zero, suc, List, [], ◌∷◌, ◌++◌ as ◌+++◌, Option, none, some, Result, ok, err, ◌>>=◌,
  invalid_argument, internal, updaters_and_multiplicity, no_condition_matches, no_select_option,
  index_out_of_range, ℤ, pos, negsuc, is_no_match, ◌==◌, if◌then◌else◌,
}
use virtual_people_core_serv.External.Events.{Platform, LabelerEvent}
use virtual_people_core_serv.External.Protobuf.{Protobuf}
use virtual_people_core_serv.Utils.DistributedConsistentHashing.{hash, DistributionChoice}
use virtual_people_core_serv.Utils.FieldFiltersMatcher.{get_first_match}
use virtual_people_core_serv.Model.PopulationNode
use virtual_people_core_serv.Model.RankedPopulationNode
use virtual_people_core_serv.Model.Multiplicity.{
  MultiplicityImpl, compute_event_multiplicity, get_fingerprint_for_index,
}
use virtual_people_core_serv.Model.UpdateMatrix
use virtual_people_core_serv.Model.SparseUpdateMatrix
use virtual_people_core_serv.Model.ConditionalMerge
use virtual_people_core_serv.Model.ConditionalAssignment
use virtual_people_core_serv.Model.GeometricShredder
use virtual_people_core_serv.Model.ModelNode.{
  ModelNode, branch_node_impl, stop_node_impl, population_node_impl, ranked_population_node_impl,
  ModelNodes, no_nodes, child_node, Updaters, no_updaters, updater, AttributesUpdaterImpl,
  update_matrix_impl, sparse_update_matrix_impl, conditional_merge_impl, update_tree_impl,
  conditional_assignment_impl, geometric_shredder_impl,
}

module _ (P : Platform) (B : Protobuf P) where
  -- The first match, which must be one.
  abbrev pub matched : ℤ → Result ℤ
  matched index =
      if is_no_match index then err (invalid_argument no_condition_matches) else ok index

  -- The index that ApplyChild selects.
  unfoldable pub select_child :
      Option (List (DistributionChoice P.doubles))
      → String
      → Option (List B.FieldFilter)
      → LabelerEvent P
      → Result ℤ
  select_child (some hashing) random_seed matcher event = ok (
      pos (
        hash P.doubles P.hashing hashing
          (random_seed ++ P.hashing.decimal event.acting_fingerprint)))
  select_child none random_seed (some matcher) event = matched (get_first_match P B matcher event)
  select_child none random_seed none event = err (internal no_select_option)

  -- CloneAndAppendEvent for `left` clones from `index`.
  unfoldable pub clones_from : MultiplicityImpl P B → LabelerEvent P → ℕ → ℕ → List (LabelerEvent P)
  clones_from m event zero index = []
  clones_from m event (suc left) index =
      let fingerprint = get_fingerprint_for_index P B m event.acting_fingerprint index in
      B.set_value (record event { acting_fingerprint = fingerprint }) m.person_index_field
        (B.value_of_ℕ index)
      ∷ clones_from m event left (suc index)

  -- The loop that applies the child to each clone.
  unfoldable pub apply_all :
      (LabelerEvent P → Result (LabelerEvent P))
      → List (LabelerEvent P)
      → Result (List (LabelerEvent P))
  apply_all child [] = ok []
  apply_all child (clone ∷ clones) = do
    labeled ← child clone
    rest ← apply_all child clones
    ok (labeled ∷ rest)

  -- The loop that folds the labels and the pool assignments of the clones back.
  unfoldable pub merge_labels : LabelerEvent P → List (LabelerEvent P) → LabelerEvent P
  merge_labels event [] = event
  merge_labels event (clone ∷ clones) =
      merge_labels
        (record event {
          virtual_person_activities =
              event.virtual_person_activities +++ clone.virtual_person_activities;
          pool_assignments = event.pool_assignments +++ clone.pool_assignments;
        })
        clones

  -- ApplyMultiplicity, over ApplyChild.
  unfoldable pub apply_multiplicity :
      MultiplicityImpl P B
      → (LabelerEvent P → Result (LabelerEvent P))
      → LabelerEvent P
      → Result (LabelerEvent P)
  apply_multiplicity m child event = do
    clone_count ← compute_event_multiplicity P B m event
    if clone_count == 1 then child (B.set_value event m.person_index_field (B.value_of_ℕ 0)) else do
      labeled ← apply_all child (clones_from m event clone_count 0)
      ok (merge_labels event labeled)

  module _ (fuel : ℕ) where
    unfoldable mutual
      pub apply : ModelNode P B → LabelerEvent P → Result (LabelerEvent P)
      apply (branch_node_impl name children selector no_updaters (some m)) event =
          apply_multiplicity m
            (λ e. do
              index ← select_child selector.hashing selector.random_seed selector.matcher e
              apply_at children index e)
            event
      apply (branch_node_impl name children selector (updater u us) (some m)) event =
          err (internal updaters_and_multiplicity)
      apply (branch_node_impl name children selector us none) event = do
        updated ← update_all us event
        index ← select_child selector.hashing selector.random_seed selector.matcher updated
        apply_at children index updated
      apply (stop_node_impl name) event = ok event
      apply (population_node_impl name node) event = PopulationNode.apply P fuel node event
      apply (ranked_population_node_impl name node) event =
          RankedPopulationNode.apply P fuel node event

      -- child_nodes_[index]->Apply(event), after the check on the index.
      pub apply_at : ModelNodes P B → ℤ → LabelerEvent P → Result (LabelerEvent P)
      apply_at no_nodes index event = err (internal index_out_of_range)
      apply_at (child_node node rest) (pos zero) event = apply node event
      apply_at (child_node node rest) (pos (suc i)) event = apply_at rest (pos i) event
      apply_at (child_node node rest) (negsuc i) event = err (internal index_out_of_range)

      -- The loop over the updaters.
      pub update_all : Updaters P B → LabelerEvent P → Result (LabelerEvent P)
      update_all no_updaters event = ok event
      update_all (updater u us) event = do updated ← update u event; update_all us updated

      pub update : AttributesUpdaterImpl P B → LabelerEvent P → Result (LabelerEvent P)
      update (update_matrix_impl m) event = UpdateMatrix.update P B m event
      update (sparse_update_matrix_impl m) event = SparseUpdateMatrix.update P B m event
      update (conditional_merge_impl m) event = ConditionalMerge.update P B m event
      update (update_tree_impl root) event = apply root event
      update (conditional_assignment_impl m) event = ConditionalAssignment.update P B m event
      update (geometric_shredder_impl m) event = GeometricShredder.update P B m event
