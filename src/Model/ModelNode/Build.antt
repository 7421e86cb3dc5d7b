-- ===== src/Model/ModelNode/Build.antt =====
-- Build of every node and updater: model_node.cc, branch_node_impl.cc, attributes_updater.cc,
-- update_tree_impl.cc. The map of node references is an association list; a reference that a
-- branch takes is removed. Building without references starts from the empty map.
use Prim.Native.String.{String}
use virtual_people_core_serv.Prelude.{
  ℕ, Bool, true, false, List, [], ◌∷◌, map, Option, none, some, Result, ok, err, ◌>>=◌, ◌>>◌, guard,
  invalid_argument, child_not_provided, no_child_node, no_branch, mixed_select_by, no_select_by,
  node_type_not_set, update_not_set, or_error, ◌==◌, if◌then◌else◌,
}
use virtual_people_core_serv.External.Events.{Platform}
use virtual_people_core_serv.External.Protobuf.{Protobuf}
use virtual_people_core_serv.Utils.DistributedConsistentHashing
use virtual_people_core_serv.Utils.FieldFiltersMatcher
use virtual_people_core_serv.Utils.PopulationNodeHelper.{number_choices}
use virtual_people_core_serv.Model.PopulationNode
use virtual_people_core_serv.Model.RankedPopulationNode
use virtual_people_core_serv.Model.Multiplicity.{MultiplicityImpl}
use virtual_people_core_serv.Model.Multiplicity
use virtual_people_core_serv.Model.UpdateMatrix
use virtual_people_core_serv.Model.SparseUpdateMatrix
use virtual_people_core_serv.Model.ConditionalMerge
use virtual_people_core_serv.Model.ConditionalAssignment
use virtual_people_core_serv.Model.GeometricShredder
use virtual_people_core_serv.Model.Config.{
  SelectBy, chance, condition, select_by_not_set, CompiledNode, compiled_node, NodeType,
  branch_node, stop_node, population_node, ranked_population_node, type_not_set, Branches,
  no_branches, branch, Child, node_index, node, child_node_not_set, Action, updates, multiplicity,
  action_not_set, Updates, no_updates, update, AttributesUpdater, update_matrix,
  sparse_update_matrix, conditional_merge, update_tree, conditional_assignment, geometric_shredder,
  update_case_not_set, select_bys,
}
use virtual_people_core_serv.Model.ModelNode.{
  Selector, ModelNode, branch_node_impl, stop_node_impl, population_node_impl,
  ranked_population_node_impl, ModelNodes, no_nodes, child_node, Updaters, no_updaters, updater,
  AttributesUpdaterImpl, update_matrix_impl, sparse_update_matrix_impl, conditional_merge_impl,
  update_tree_impl, conditional_assignment_impl, geometric_shredder_impl,
}

module _ (P : Platform) (B : Protobuf P) where
  abbrev pub NodeRefs : Type 0
  NodeRefs = List (ℕ × ModelNode P B)

  -- node_refs.extract(key)
  unfoldable pub extract : ℕ → NodeRefs → Option (ModelNode P B × NodeRefs)
  extract key [] = none
  extract key ((k, n) ∷ refs) = elim (k == key) [
    | true ↦ some (n, refs)
    | false ↦ elim (extract key refs) [
      | none ↦ none
      | some found ↦ some (found.0, (k, n) ∷ found.1)
    ]
  ]

  -- select_by_case()
  abbrev pub select_by_case : SelectBy P B → ℕ
  select_by_case select_by_not_set = 0
  select_by_case (chance c) = 1
  select_by_case (condition c) = 2

  unfoldable pub check_select_bys : ℕ → List (SelectBy P B) → Result (Unit {0})
  check_select_bys first [] = ok tt
  check_select_bys first (s ∷ rest) =
      let later = check_select_bys first rest in
      if first == select_by_case s then later else err (invalid_argument mixed_select_by)

  -- branch.chance(), which is 0 where it is not set.
  abbrev pub chance_of : SelectBy P B → P.doubles.Double
  chance_of (chance c) = c
  chance_of (condition c) = P.doubles.of_ℕ 0
  chance_of select_by_not_set = P.doubles.of_ℕ 0

  -- The conditions of the branches; all of them have one where this is used.
  unfoldable pub conditions : List (SelectBy P B) → List B.FieldFilterProto
  conditions [] = []
  conditions (condition c ∷ rest) = c ∷ conditions rest
  conditions (chance c ∷ rest) = conditions rest
  conditions (select_by_not_set ∷ rest) = conditions rest

  -- BuildHashing or BuildMatcher, by the case of the first branch.
  unfoldable pub build_selector_by :
      SelectBy P B → List (SelectBy P B) → String → Result (Selector P B)
  build_selector_by (chance c) all random_seed = do
    hashing ←
        DistributedConsistentHashing.build P.doubles
          (number_choices P.doubles 0 (map chance_of all))
    ok (record { hashing = some hashing; random_seed = random_seed; matcher = none })
  build_selector_by (condition c) all random_seed = do
    matcher ← FieldFiltersMatcher.build P B (conditions all)
    ok (record { hashing = none; random_seed = random_seed; matcher = some matcher })
  build_selector_by select_by_not_set all random_seed = err (invalid_argument no_select_by)

  unfoldable pub build_selector : List (SelectBy P B) → String → Result (Selector P B)
  build_selector [] random_seed = err (invalid_argument no_branch)
  build_selector (first ∷ rest) random_seed = do
    check_select_bys (select_by_case first) (first ∷ rest)
    build_selector_by first (first ∷ rest) random_seed

  -- branches_size() == 0 is refused before the children are built.
  abbrev pub has_branch : Branches P B → Bool
  has_branch no_branches = false
  has_branch (branch child select_by rest) = true

  unfoldable mutual
    pub build : CompiledNode P B → NodeRefs → Result (ModelNode P B × NodeRefs)
    build (compiled_node index name type) refs = build_type type name refs

    -- The switch on the type.
    pub build_type : NodeType P B → String → NodeRefs → Result (ModelNode P B × NodeRefs)
    build_type (branch_node branches random_seed action) name refs = do
      guard (has_branch branches) (invalid_argument no_branch)
      children ← build_children branches refs
      selector ← build_selector (select_bys P B branches) random_seed
      built ← build_action action
      ok (branch_node_impl name children.0 selector built.0 built.1, children.1)
    build_type stop_node name refs = ok (stop_node_impl name, refs)
    build_type (population_node config) name refs = do
      impl ← PopulationNode.build config
      ok (population_node_impl name impl, refs)
    build_type (ranked_population_node config) name refs = do
      impl ← RankedPopulationNode.build config
      ok (ranked_population_node_impl name impl, refs)
    build_type type_not_set name refs = err (invalid_argument node_type_not_set)

    -- The loop of AppendChildNode over the branches.
    pub build_children : Branches P B → NodeRefs → Result (ModelNodes P B × NodeRefs)
    build_children no_branches refs = ok (no_nodes, refs)
    build_children (branch child select_by rest) refs = do
      first ← build_child child refs
      later ← build_children rest first.1
      ok (child_node first.0 later.0, later.1)

    pub build_child : Child P B → NodeRefs → Result (ModelNode P B × NodeRefs)
    build_child (node_index index) refs =
        or_error (extract index refs) (invalid_argument child_not_provided)
    build_child (node config) refs = build config refs
    build_child child_node_not_set refs = err (invalid_argument no_child_node)

    pub build_action : Action P B → Result (Updaters P B × Option (MultiplicityImpl P B))
    build_action (updates configs) = do built ← build_updaters configs; ok (built, none)
    build_action (multiplicity config) = do
      built ← Multiplicity.build P B config
      ok (no_updaters, some built)
    build_action action_not_set = ok (no_updaters, none)

    pub build_updaters : Updates P B → Result (Updaters P B)
    build_updaters no_updates = ok no_updaters
    build_updaters (update config rest) = do
      first ← build_updater config
      later ← build_updaters rest
      ok (updater first later)

    -- AttributesUpdaterInterface::Build, with no references for an update tree.
    pub build_updater : AttributesUpdater P B → Result (AttributesUpdaterImpl P B)
    build_updater (update_matrix config) = do
      impl ← UpdateMatrix.build P B config
      ok (update_matrix_impl impl)
    build_updater (sparse_update_matrix config) = do
      impl ← SparseUpdateMatrix.build P B config
      ok (sparse_update_matrix_impl impl)
    build_updater (conditional_merge config) = do
      impl ← ConditionalMerge.build P B config
      ok (conditional_merge_impl impl)
    build_updater (update_tree root) = do built ← build root []; ok (update_tree_impl built.0)
    build_updater (conditional_assignment config) = do
      impl ← ConditionalAssignment.build P B config
      ok (conditional_assignment_impl impl)
    build_updater (geometric_shredder config) = do
      impl ← GeometricShredder.build P B config
      ok (geometric_shredder_impl impl)
    build_updater update_case_not_set = err (invalid_argument update_not_set)
