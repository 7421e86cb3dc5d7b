-- ===== src/Labeler/Reports.antt =====
-- A labeler that is built labels every event or refuses it with a reported error.
use virtual_people_core_serv.Prelude.{
  ℕ, ◌^◌, ◌≤◌, ◌≡◌, ◌⊎◌, inl, inr, List, [], ◌∷◌, Option, none, some, ok, Returns, Returns-ok,
  Returns-err, Returns->>=, Returns-if, Returns-of_ok, AnyStatus, Reported,
}
use virtual_people_core_serv.External.Doubles.{SqrtIsExact, RoundsMonotonically}
use virtual_people_core_serv.External.Events.{Platform, LabelerInput}
use virtual_people_core_serv.External.Protobuf.{Protobuf}
use virtual_people_core_serv.Model.Config.{CompiledNode, compiled_node}
use virtual_people_core_serv.Model.ModelNode.{ModelNode}
use virtual_people_core_serv.Model.ModelNode.Apply.{apply}
use virtual_people_core_serv.Model.ModelNode.Build.{NodeRefs, build}
use virtual_people_core_serv.Model.ModelNode.Branching.{NodeReports}
use virtual_people_core_serv.Model.ModelNode.Reports.{RefsReport, build-BuiltReports}
use virtual_people_core_serv.Labeler.Build.{build_root, has_key, build_nodes, take_root, build_list}
use virtual_people_core_serv.Labeler.Label.{LabelingMode, LabelerOutput, prepare, label}

module _ (P : Platform) (B : Protobuf P) (exact : SqrtIsExact P.doubles)
    (rounds : RoundsMonotonically P.doubles) (fuel : ℕ) (enough : 2 ^ 32 ≤ fuel) where
  build_root-NodeReports :
      (root : CompiledNode P B) → Returns (NodeReports P B fuel) AnyStatus (build_root P B root)
  unfolding build_root
  build_root-NodeReports root =
      Returns->>= (build P B root []) _ (build-BuiltReports P B exact rounds fuel enough root [] tt)
        (λ built _ reports. Returns-ok _ reports.0)

  -- The root, if there is one.
  abbrev pub RootReports : Option (ModelNode P B) → Type 0
  RootReports none = Unit
  RootReports (some root) = NodeReports P B fuel root

  build_nodes-Reports :
      (configs : List (CompiledNode P B)) (root : Option (ModelNode P B)) (refs : NodeRefs P B)
      → RootReports root
      → RefsReport P B exact rounds fuel enough refs
      → Returns
          (λ built. RootReports built.0 × RefsReport P B exact rounds fuel enough built.1)
          AnyStatus
          (build_nodes P B configs root refs)
  unfolding build_nodes
  build_nodes-Reports [] root refs reports refs_report = Returns-ok _ (reports, refs_report)
  build_nodes-Reports (config ∷ configs) (some root) refs reports refs_report = Returns-err _ tt
  build_nodes-Reports (compiled_node (some index) name type ∷ configs) none refs reports
        refs_report =
      Returns->>= (build P B (compiled_node (some index) name type) refs) _
        (build-BuiltReports P B exact rounds fuel enough (compiled_node (some index) name type) refs
          refs_report)
        (λ built _ (node_reports, left).
          Returns-if (has_key P B index built.1) _ _ (λ _. Returns-err _ tt)
            (λ _.
              build_nodes-Reports configs none ((index, built.0) ∷ built.1) tt
                (node_reports, left)))
  build_nodes-Reports (compiled_node none name type ∷ configs) none refs reports refs_report =
      Returns->>= (build P B (compiled_node none name type) refs) _
        (build-BuiltReports P B exact rounds fuel enough (compiled_node none name type) refs
          refs_report)
        (λ built _ (node_reports, left).
          build_nodes-Reports configs (some built.0) built.1 node_reports left)

  take_root-NodeReports :
      (root : Option (ModelNode P B)) (refs : NodeRefs P B)
      → RootReports root
      → RefsReport P B exact rounds fuel enough refs
      → Returns (NodeReports P B fuel) AnyStatus (take_root P B root refs)
  unfolding take_root
  take_root-NodeReports none [] reports refs_report = Returns-err _ tt
  take_root-NodeReports none ((index, root) ∷ []) reports refs_report = Returns-ok _ refs_report.0
  take_root-NodeReports none ((index, root) ∷ other ∷ refs) reports refs_report = Returns-err _ tt
  take_root-NodeReports (some root) [] reports refs_report = Returns-ok _ reports
  take_root-NodeReports (some root) (left ∷ refs) reports refs_report = Returns-err _ tt

  build_list-NodeReports :
      (nodes : List (CompiledNode P B))
      → Returns (NodeReports P B fuel) AnyStatus (build_list P B nodes)
  unfolding build_list
  build_list-NodeReports nodes =
      Returns->>= (build_nodes P B nodes none []) _ (build_nodes-Reports nodes none [] tt tt)
        (λ built _ (root_reports, left). take_root-NodeReports built.0 built.1 root_reports left)

  -- Label of a labeler that Build gives, of a root or of a list of nodes, ends for every input
  -- and mode with an output, with the status invalid_argument or out_of_range, or in undefined
  -- arithmetic (the conversion of a double that an integer type does not hold, or the overflow
  -- of an int): no read is out of range, no loop runs out of fuel, and no check for an internal
  -- error fails, in any node, updater or selector of the tree. The fuel is at least 2 ^ 32, the
  -- square root exact below 2 ^ 52 and rounding monotone.
  pub label-IsReported :
      (root : CompiledNode P B) (nodes : List (CompiledNode P B)) (labeler : ModelNode P B)
      → (build_root P B root ≡ ok labeler) ⊎ (build_list P B nodes ≡ ok labeler)
      → (input : LabelerInput P) (output : LabelerOutput P) (mode : LabelingMode)
      → Reported (label P B fuel labeler input output mode)
  unfolding label
  label-IsReported root nodes labeler built input output mode =
      let reports : NodeReports P B fuel labeler = elim built [
        | inl e ↦ Returns-of_ok (build_root P B root) (build_root-NodeReports root) e
        | inr e ↦ Returns-of_ok (build_list P B nodes) (build_list-NodeReports nodes) e
      ] in
      Returns->>= (apply P B fuel labeler (prepare P input mode)) _ (reports (prepare P input mode))
        (λ event _ _. Returns-ok _ tt)
