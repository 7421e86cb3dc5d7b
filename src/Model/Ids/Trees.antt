-- ===== src/Model/Ids/Trees.antt =====
-- A tree that is built gives ids of its leaves and of its updaters.
use Prim.Native.String.{String}
use virtual_people_core_serv.Prelude.{
  ℕ, ◌^◌, ◌≤◌, [], guard, Returns, Returns-ok, Returns-err, Returns->>=, Returns->>=_any,
  Returns-or_error, AnyStatus, All, invalid_argument, no_branch, child_not_provided,
}
use virtual_people_core_serv.External.Doubles.{SqrtIsExact, RoundsMonotonically}
use virtual_people_core_serv.External.Events.{Platform}
use virtual_people_core_serv.External.Protobuf.{Protobuf, KeepsActivities}
use virtual_people_core_serv.Model.PopulationNode
use virtual_people_core_serv.Model.RankedPopulationNode
use virtual_people_core_serv.Model.Multiplicity
use virtual_people_core_serv.Model.UpdateMatrix
use virtual_people_core_serv.Model.SparseUpdateMatrix
use virtual_people_core_serv.Model.ConditionalMerge
use virtual_people_core_serv.Model.ConditionalAssignment
use virtual_people_core_serv.Model.GeometricShredder
use virtual_people_core_serv.Model.Config.{
  CompiledNode, compiled_node, NodeType, branch_node, stop_node, population_node,
  ranked_population_node, type_not_set, Branches, no_branches, branch, Child, node_index, node,
  child_node_not_set, Action, updates, multiplicity, action_not_set, Updates, no_updates,
  AttributesUpdater, update_matrix, sparse_update_matrix, conditional_merge, update_tree,
  conditional_assignment, geometric_shredder, update_case_not_set, select_bys,
}
use virtual_people_core_serv.Model.Config
use virtual_people_core_serv.Model.ModelNode.{ModelNode}
use virtual_people_core_serv.Model.ModelNode.Apply.{apply, update_all, update}
use virtual_people_core_serv.Model.ModelNode.Build.{
  NodeRefs, extract, has_branch, build_selector, build, build_type, build_children, build_child,
  build_action, build_updaters, build_updater,
}
use virtual_people_core_serv.Model.ModelNode.Extraction.{extract-All}
use virtual_people_core_serv.Model.Ids.{Keeps}
use virtual_people_core_serv.Model.Ids.Allows.{
  NodeAllows, TypeAllows, BranchesAllow, ChildAllows, ActionAllows, UpdatesAllow, UpdaterAllows,
}
use virtual_people_core_serv.Model.Ids.Leaves.{population-Keeps, ranked-Keeps}
use virtual_people_core_serv.Model.Ids.Fields.{
  conditional_assignment-Keeps, geometric_shredder-Keeps,
}
use virtual_people_core_serv.Model.Ids.Updaters.{
  update_matrix-Keeps, sparse_update_matrix-Keeps, conditional_merge-Keeps,
}
use virtual_people_core_serv.Model.Ids.Branching.{NodeKeeps, ChildrenKeep, branch-NodeKeeps}

module _ (P : Platform) (B : Protobuf P) (Q : ℕ → Type 0) (law : KeepsActivities B)
    (exact : SqrtIsExact P.doubles) (rounds : RoundsMonotonically P.doubles) (fuel : ℕ)
    (enough : 2 ^ 32 ≤ fuel) where
  abbrev pub RefsKeep : NodeRefs P B → Type 0
  RefsKeep = All (λ entry. NodeKeeps P B Q law fuel entry.1)

  -- A node and the map that is left.
  abbrev pub BuiltKeeps : ModelNode P B × NodeRefs P B → Type 0
  BuiltKeeps built = NodeKeeps P B Q law fuel built.0 × RefsKeep built.1

  mutual
    unfolding build build_type build_children build_child build_action build_updaters build_updater
        apply update update_all ChildrenKeep NodeAllows TypeAllows BranchesAllow ChildAllows
        ActionAllows UpdatesAllow UpdaterAllows

    pub build-BuiltKeeps :
        (config : CompiledNode P B) (refs : NodeRefs P B)
        → NodeAllows P B Q config
        → RefsKeep refs
        → Returns BuiltKeeps AnyStatus (build P B config refs)
    build-BuiltKeeps (compiled_node index name type) refs allows keep =
        build_type-BuiltKeeps type name refs allows keep

    build_type-BuiltKeeps :
        (type : NodeType P B) (name : String) (refs : NodeRefs P B)
        → TypeAllows P B Q type
        → RefsKeep refs
        → Returns BuiltKeeps AnyStatus (build_type P B type name refs)
    build_type-BuiltKeeps (branch_node branches random_seed action) name refs allows keep =
        Returns->>=_any (guard (has_branch P B branches) (invalid_argument no_branch)) _ (λ _ _.
          Returns->>= (build_children P B branches refs) _
            (build_children-ChildrenKeep branches refs allows.0 keep)
            (λ children _ (children_keep, left).
              Returns->>=_any (build_selector P B (select_bys P B branches) random_seed) _
                (λ selector _.
                  Returns->>= (build_action P B action) _ (build_action-Keeps action allows.1)
                    (λ built _ updates_keep. Returns-ok _ (
                      branch-NodeKeeps P B Q law fuel name children.0 selector built.0 built.1
                          children_keep updates_keep,
                      left,
                    )))))
    build_type-BuiltKeeps stop_node name refs allows keep =
        Returns-ok _ ((λ event allowed. Returns-ok _ allowed), keep)
    build_type-BuiltKeeps (population_node config) name refs allows keep =
        Returns->>=_any (PopulationNode.build config) _ (λ impl built. Returns-ok _ (
          (λ event allowed.
              population-Keeps P Q exact rounds fuel enough config impl allows built event allowed),
          keep,
        ))
    build_type-BuiltKeeps (ranked_population_node config) name refs allows keep =
        Returns->>=_any (RankedPopulationNode.build config) _ (λ impl built. Returns-ok _ (
          (λ event allowed.
              ranked-Keeps P Q exact rounds fuel enough config impl allows built event allowed),
          keep,
        ))
    build_type-BuiltKeeps type_not_set name refs allows keep = Returns-err _ tt

    build_children-ChildrenKeep :
        (branches : Branches P B) (refs : NodeRefs P B)
        → BranchesAllow P B Q branches
        → RefsKeep refs
        → Returns
            (λ built. ChildrenKeep P B Q law fuel built.0 × RefsKeep built.1)
            AnyStatus
            (build_children P B branches refs)
    build_children-ChildrenKeep no_branches refs allows keep = Returns-ok _ (tt, keep)
    build_children-ChildrenKeep (branch child select_by rest) refs allows keep =
        Returns->>= (build_child P B child refs) _ (build_child-BuiltKeeps child refs allows.0 keep)
          (λ first _ (first_keeps, left).
            Returns->>= (build_children P B rest first.1) _
              (build_children-ChildrenKeep rest first.1 allows.1 left)
              (λ later _ (rest_keep, left'). Returns-ok _ ((first_keeps, rest_keep), left')))

    build_child-BuiltKeeps :
        (child : Child P B) (refs : NodeRefs P B)
        → ChildAllows P B Q child
        → RefsKeep refs
        → Returns BuiltKeeps AnyStatus (build_child P B child refs)
    build_child-BuiltKeeps (node_index index) refs allows keep =
        Returns-or_error (extract P B index refs) (invalid_argument child_not_provided) tt
          (λ built e. extract-All P B (NodeKeeps P B Q law fuel) index refs built keep e)
    build_child-BuiltKeeps (node config) refs allows keep = build-BuiltKeeps config refs allows keep
    build_child-BuiltKeeps child_node_not_set refs allows keep = Returns-err _ tt

    build_action-Keeps :
        (action : Action P B)
        → ActionAllows P B Q action
        → Returns
            (λ built. Keeps P Q (update_all P B fuel built.0))
            AnyStatus
            (build_action P B action)
    build_action-Keeps (updates configs) allows =
        Returns->>= (build_updaters P B configs) _ (build_updaters-Keep configs allows)
          (λ built _ keep. Returns-ok _ keep)
    build_action-Keeps (multiplicity config) allows =
        Returns->>=_any (Multiplicity.build P B config) _
          (λ built _. Returns-ok _ (λ event allowed. Returns-ok _ allowed))
    build_action-Keeps action_not_set allows = Returns-ok _ (λ event allowed. Returns-ok _ allowed)

    build_updaters-Keep :
        (configs : Updates P B)
        → UpdatesAllow P B Q configs
        → Returns
            (λ built. Keeps P Q (update_all P B fuel built))
            AnyStatus
            (build_updaters P B configs)
    build_updaters-Keep no_updates allows = Returns-ok _ (λ event allowed. Returns-ok _ allowed)
    build_updaters-Keep (Config.update config rest) allows =
        Returns->>= (build_updater P B config) _ (build_updater-Keeps config allows.0)
          (λ first _ keeps.
            Returns->>= (build_updaters P B rest) _ (build_updaters-Keep rest allows.1)
              (λ later _ rest_keep. Returns-ok _ (λ event allowed.
                Returns->>= (update P B fuel first event) _ (keeps event allowed)
                  (λ updated _ updated_allowed. rest_keep updated updated_allowed))))

    build_updater-Keeps :
        (config : AttributesUpdater P B)
        → UpdaterAllows P B Q config
        → Returns (λ built. Keeps P Q (update P B fuel built)) AnyStatus (build_updater P B config)
    build_updater-Keeps (update_matrix config) allows =
        Returns->>= (UpdateMatrix.build P B config) _ (update_matrix-Keeps P B Q law config allows)
          (λ m _ keeps. Returns-ok _ keeps)
    build_updater-Keeps (sparse_update_matrix config) allows =
        Returns->>= (SparseUpdateMatrix.build P B config) _
          (sparse_update_matrix-Keeps P B Q law config allows) (λ m _ keeps. Returns-ok _ keeps)
    build_updater-Keeps (conditional_merge config) allows =
        Returns->>= (ConditionalMerge.build P B config) _
          (conditional_merge-Keeps P B Q law config allows) (λ m _ keeps. Returns-ok _ keeps)
    build_updater-Keeps (update_tree root) allows =
        Returns->>= (build P B root []) _ (build-BuiltKeeps root [] allows tt)
          (λ built _ keeps. Returns-ok _ keeps.0)
    build_updater-Keeps (conditional_assignment config) allows =
        Returns->>=_any (ConditionalAssignment.build P B config) _
          (λ m _. Returns-ok _ (conditional_assignment-Keeps P B Q law m))
    build_updater-Keeps (geometric_shredder config) allows =
        Returns->>=_any (GeometricShredder.build P B config) _
          (λ m _. Returns-ok _ (geometric_shredder-Keeps P B Q law m))
    build_updater-Keeps update_case_not_set allows = Returns-err _ tt
