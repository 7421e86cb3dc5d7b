-- ===== src/Model/ModelNode/Reports.antt =====
-- A tree that is built labels every event or refuses it with a reported error: no index is out of
-- range, no loop runs out of fuel, and no check for an internal error fails.
use Prim.Native.String.{String}
use virtual_people_core_serv.Prelude.{
  ℕ, suc, ◌^◌, ◌≤◌, ◌≡◌, refl, ap, subst, [], length, guard, Returns, Returns-ok, Returns-err,
  Returns->>=, Returns->>=_any, Returns-or_error, Reports, AnyStatus, All, invalid_argument,
  no_branch, child_not_provided,
}
use virtual_people_core_serv.External.Doubles.{SqrtIsExact, RoundsMonotonically}
use virtual_people_core_serv.External.Events.{Platform}
use virtual_people_core_serv.External.Protobuf.{Protobuf}
use virtual_people_core_serv.Model.PopulationNode
use virtual_people_core_serv.Model.PopulationNode.Reports as PopulationReports
use virtual_people_core_serv.Model.RankedPopulationNode
use virtual_people_core_serv.Model.RankedPopulationNode.Reports as RankedReports
use virtual_people_core_serv.Model.Multiplicity
use virtual_people_core_serv.Model.Multiplicity.Reports as MultiplicityReports
use virtual_people_core_serv.Model.UpdateMatrix
use virtual_people_core_serv.Model.UpdateMatrix.Reports as UpdateMatrixReports
use virtual_people_core_serv.Model.SparseUpdateMatrix
use virtual_people_core_serv.Model.SparseUpdateMatrix.Reports as SparseReports
use virtual_people_core_serv.Model.ConditionalMerge
use virtual_people_core_serv.Model.ConditionalMerge.Reports as MergeReports
use virtual_people_core_serv.Model.ConditionalAssignment
use virtual_people_core_serv.Model.ConditionalAssignment.Reports as AssignmentReports
use virtual_people_core_serv.Model.GeometricShredder
use virtual_people_core_serv.Model.GeometricShredder.Reports as ShredderReports
use virtual_people_core_serv.Model.Config.{
  CompiledNode, compiled_node, NodeType, branch_node, stop_node, population_node,
  ranked_population_node, type_not_set, Branches, no_branches, branch, Child, node_index, node,
  child_node_not_set, Action, updates, multiplicity, action_not_set, Updates, no_updates,
  AttributesUpdater, update_matrix, sparse_update_matrix, conditional_merge, update_tree,
  conditional_assignment, geometric_shredder, update_case_not_set, select_bys,
}
use virtual_people_core_serv.Model.Config
use virtual_people_core_serv.Model.ModelNode.{ModelNode, count}
use virtual_people_core_serv.Model.ModelNode.Apply.{apply, update_all, update}
use virtual_people_core_serv.Model.ModelNode.Build.{
  NodeRefs, extract, has_branch, build_selector, build, build_type, build_children, build_child,
  build_action, build_updaters, build_updater,
}
use virtual_people_core_serv.Model.ModelNode.Extraction.{extract-All}
use virtual_people_core_serv.Model.ModelNode.Selectors.{Selects, build_selector-Selects}
use virtual_people_core_serv.Model.ModelNode.Branching.{
  NodeReports, ChildrenReport, ActionReports, branch-NodeReports,
}

module _ (P : Platform) (B : Protobuf P) (exact : SqrtIsExact P.doubles)
    (rounds : RoundsMonotonically P.doubles) (fuel : ℕ) (enough : 2 ^ 32 ≤ fuel) where
  -- Each node of the map does.
  abbrev pub RefsReport : NodeRefs P B → Type 0
  RefsReport = All (λ entry. NodeReports P B fuel entry.1)

  -- A node and the map that is left.
  abbrev pub BuiltReports : ModelNode P B × NodeRefs P B → Type 0
  BuiltReports built = NodeReports P B fuel built.0 × RefsReport built.1

  mutual
    unfolding build build_type build_children build_child build_action build_updaters build_updater
        apply update update_all ChildrenReport count select_bys

    pub build-BuiltReports :
        (config : CompiledNode P B) (refs : NodeRefs P B)
        → RefsReport refs
        → Returns BuiltReports AnyStatus (build P B config refs)
    build-BuiltReports (compiled_node index name type) refs reports =
        build_type-BuiltReports type name refs reports

    build_type-BuiltReports :
        (type : NodeType P B) (name : String) (refs : NodeRefs P B)
        → RefsReport refs
        → Returns BuiltReports AnyStatus (build_type P B type name refs)
    build_type-BuiltReports (branch_node branches random_seed action) name refs reports =
        Returns->>=_any (guard (has_branch P B branches) (invalid_argument no_branch)) _ (λ _ _.
          Returns->>= (build_children P B branches refs) _
            (build_children-ChildrenReport branches refs reports)
            (λ children _ (children_report, counted, refs_report).
              Returns->>= (build_selector P B (select_bys P B branches) random_seed) _
                (build_selector-Selects P B (select_bys P B branches) random_seed)
                (λ selector _ selects.
                  Returns->>= (build_action P B action) _ (build_action-ActionReports action)
                    (λ built _ action_reports. Returns-ok _ (
                      branch-NodeReports P B fuel name children.0 selector built.0 built.1
                          children_report (subst (λ n. Selects P B n selector) counted selects)
                          action_reports,
                      refs_report,
                    )))))
    build_type-BuiltReports stop_node name refs reports =
        Returns-ok _ ((λ event. Returns-ok _ tt), reports)
    build_type-BuiltReports (population_node config) name refs reports =
        Returns->>= (PopulationNode.build config) _ (PopulationReports.build-IsComplete config)
          (λ impl _ complete. Returns-ok _ (
            (λ event. PopulationReports.apply-IsReported P rounds fuel enough impl complete event),
            reports,
          ))
    build_type-BuiltReports (ranked_population_node config) name refs reports =
        Returns->>= (RankedPopulationNode.build config) _ (RankedReports.build-IsPermutable config)
          (λ impl _ permutable. Returns-ok _ (
            (λ event.
                RankedReports.apply-IsReported P exact rounds fuel enough impl permutable event),
            reports,
          ))
    build_type-BuiltReports type_not_set name refs reports = Returns-err _ tt

    build_children-ChildrenReport :
        (branches : Branches P B) (refs : NodeRefs P B)
        → RefsReport refs
        → Returns
            (λ built.
              ChildrenReport P B fuel built.0
              × (length (select_bys P B branches) ≡ count P B built.0)
              × RefsReport built.1)
            AnyStatus
            (build_children P B branches refs)
    build_children-ChildrenReport no_branches refs reports = Returns-ok _ (tt, refl, reports)
    build_children-ChildrenReport (branch child select_by rest) refs reports =
        Returns->>= (build_child P B child refs) _ (build_child-BuiltReports child refs reports)
          (λ first _ (first_reports, refs_report).
            Returns->>= (build_children P B rest first.1) _
              (build_children-ChildrenReport rest first.1 refs_report)
              (λ later _ (rest_report, counted, left).
                Returns-ok _ ((first_reports, rest_report), ap suc counted, left)))

    build_child-BuiltReports :
        (child : Child P B) (refs : NodeRefs P B)
        → RefsReport refs
        → Returns BuiltReports AnyStatus (build_child P B child refs)
    build_child-BuiltReports (node_index index) refs reports =
        Returns-or_error (extract P B index refs) (invalid_argument child_not_provided) tt
          (λ built e. extract-All P B (NodeReports P B fuel) index refs built reports e)
    build_child-BuiltReports (node config) refs reports = build-BuiltReports config refs reports
    build_child-BuiltReports child_node_not_set refs reports = Returns-err _ tt

    build_action-ActionReports :
        (action : Action P B)
        → Returns
            (λ built. ActionReports P B fuel built.0 built.1)
            AnyStatus
            (build_action P B action)
    build_action-ActionReports (updates configs) =
        Returns->>= (build_updaters P B configs) _ (build_updaters-Reports configs)
          (λ built _ reports. Returns-ok _ reports)
    build_action-ActionReports (multiplicity config) =
        Returns->>= (Multiplicity.build P B config) _ (MultiplicityReports.build-Reports P B config)
          (λ built _ counts. Returns-ok _ counts)
    build_action-ActionReports action_not_set = Returns-ok _ (λ event. Returns-ok _ tt)

    build_updaters-Reports :
        (configs : Updates P B)
        → Returns
            (λ built. Reports (update_all P B fuel built))
            AnyStatus
            (build_updaters P B configs)
    build_updaters-Reports no_updates = Returns-ok _ (λ event. Returns-ok _ tt)
    build_updaters-Reports (Config.update config rest) =
        Returns->>= (build_updater P B config) _ (build_updater-Reports config) (λ first _ reports.
          Returns->>= (build_updaters P B rest) _ (build_updaters-Reports rest)
            (λ later _ rest_report. Returns-ok _ (λ event.
              Returns->>= (update P B fuel first event) _ (reports event)
                (λ updated _ _. rest_report updated))))

    build_updater-Reports :
        (config : AttributesUpdater P B)
        → Returns (λ built. Reports (update P B fuel built)) AnyStatus (build_updater P B config)
    build_updater-Reports (update_matrix config) =
        Returns->>= (UpdateMatrix.build P B config) _ (UpdateMatrixReports.build-Reports P B config)
          (λ m _ reports. Returns-ok _ reports)
    build_updater-Reports (sparse_update_matrix config) =
        Returns->>= (SparseUpdateMatrix.build P B config) _ (SparseReports.build-Reports P B config)
          (λ m _ reports. Returns-ok _ reports)
    build_updater-Reports (conditional_merge config) =
        Returns->>= (ConditionalMerge.build P B config) _ (MergeReports.build-Reports P B config)
          (λ m _ reports. Returns-ok _ reports)
    build_updater-Reports (update_tree root) =
        Returns->>= (build P B root []) _ (build-BuiltReports root [] tt)
          (λ built _ reports. Returns-ok _ reports.0)
    build_updater-Reports (conditional_assignment config) =
        Returns->>=_any (ConditionalAssignment.build P B config) _
          (λ m _. Returns-ok _ (AssignmentReports.update-Reports P B m))
    build_updater-Reports (geometric_shredder config) =
        Returns->>=_any (GeometricShredder.build P B config) _
          (λ m _. Returns-ok _ (ShredderReports.update-Reports P B m))
    build_updater-Reports update_case_not_set = Returns-err _ tt
