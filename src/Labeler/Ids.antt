-- ===== src/Labeler/Ids.antt =====
-- Every id that a labeler gives is one of its configuration.
use virtual_people_core_serv.Prelude.{
  ℕ, ◌^◌, ◌≤◌, ◌≡◌, subst, ◌⊎◌, inl, inr, List, [], ◌∷◌, Option, none, some, ok, ok-injective,
  >>=-eq-ok, Returns, Returns-ok, Returns-err, Returns->>=, Returns-if, Returns-of_ok, AnyStatus,
  All,
}
use virtual_people_core_serv.External.Doubles.{SqrtIsExact, RoundsMonotonically}
use virtual_people_core_serv.External.Events.{Platform, LabelerInput}
use virtual_people_core_serv.External.Protobuf.{Protobuf, KeepsActivities}
use virtual_people_core_serv.Model.Config.{CompiledNode, compiled_node}
use virtual_people_core_serv.Model.ModelNode.{ModelNode}
use virtual_people_core_serv.Model.ModelNode.Apply.{apply}
use virtual_people_core_serv.Model.ModelNode.Build.{NodeRefs, build}
use virtual_people_core_serv.Model.Ids.{IsAllowed, Allowed}
use virtual_people_core_serv.Model.Ids.Allows.{NodeAllows}
use virtual_people_core_serv.Model.Ids.Branching.{NodeKeeps}
use virtual_people_core_serv.Model.Ids.Trees.{RefsKeep, build-BuiltKeeps}
use virtual_people_core_serv.Labeler.Build.{build_root, has_key, build_nodes, take_root, build_list}
use virtual_people_core_serv.Labeler.Label.{
  LabelingMode, full, pool_identity, LabelerOutput, set_fingerprints, set_mode, prepare, label,
}

module _ (P : Platform) (B : Protobuf P) (Q : ℕ → Type 0) (law : KeepsActivities B)
    (exact : SqrtIsExact P.doubles) (rounds : RoundsMonotonically P.doubles) (fuel : ℕ)
    (enough : 2 ^ 32 ≤ fuel) where
  build_root-NodeKeeps :
      (root : CompiledNode P B)
      → NodeAllows P B Q root
      → Returns (NodeKeeps P B Q law fuel) AnyStatus (build_root P B root)
  unfolding build_root
  build_root-NodeKeeps root allows =
      Returns->>= (build P B root []) _
        (build-BuiltKeeps P B Q law exact rounds fuel enough root [] allows tt)
        (λ built _ keeps. Returns-ok _ keeps.0)

  -- The root, if there is one.
  abbrev pub RootKeeps : Option (ModelNode P B) → Type 0
  RootKeeps none = Unit
  RootKeeps (some root) = NodeKeeps P B Q law fuel root

  build_nodes-Keep :
      (configs : List (CompiledNode P B)) (root : Option (ModelNode P B)) (refs : NodeRefs P B)
      → All (NodeAllows P B Q) configs
      → RootKeeps root
      → RefsKeep P B Q law exact rounds fuel enough refs
      → Returns
          (λ built. RootKeeps built.0 × RefsKeep P B Q law exact rounds fuel enough built.1)
          AnyStatus
          (build_nodes P B configs root refs)
  unfolding build_nodes
  build_nodes-Keep [] root refs allows keeps left = Returns-ok _ (keeps, left)
  build_nodes-Keep (config ∷ configs) (some root) refs allows keeps left = Returns-err _ tt
  build_nodes-Keep (compiled_node (some index) name type ∷ configs) none refs allows keeps left =
      Returns->>= (build P B (compiled_node (some index) name type) refs) _
        (build-BuiltKeeps P B Q law exact rounds fuel enough (compiled_node (some index) name type)
          refs allows.0 left)
        (λ built _ (node_keeps, left').
          Returns-if (has_key P B index built.1) _ _ (λ _. Returns-err _ tt)
            (λ _.
              build_nodes-Keep configs none ((index, built.0) ∷ built.1) allows.1 tt
                (node_keeps, left')))
  build_nodes-Keep (compiled_node none name type ∷ configs) none refs allows keeps left =
      Returns->>= (build P B (compiled_node none name type) refs) _
        (build-BuiltKeeps P B Q law exact rounds fuel enough (compiled_node none name type) refs
          allows.0 left)
        (λ built _ (node_keeps, left').
          build_nodes-Keep configs (some built.0) built.1 allows.1 node_keeps left')

  take_root-NodeKeeps :
      (root : Option (ModelNode P B)) (refs : NodeRefs P B)
      → RootKeeps root
      → RefsKeep P B Q law exact rounds fuel enough refs
      → Returns (NodeKeeps P B Q law fuel) AnyStatus (take_root P B root refs)
  unfolding take_root
  take_root-NodeKeeps none [] keeps left = Returns-err _ tt
  take_root-NodeKeeps none ((index, root) ∷ []) keeps left = Returns-ok _ left.0
  take_root-NodeKeeps none ((index, root) ∷ other ∷ refs) keeps left = Returns-err _ tt
  take_root-NodeKeeps (some root) [] keeps left = Returns-ok _ keeps
  take_root-NodeKeeps (some root) (first ∷ refs) keeps left = Returns-err _ tt

  build_list-NodeKeeps :
      (nodes : List (CompiledNode P B))
      → All (NodeAllows P B Q) nodes
      → Returns (NodeKeeps P B Q law fuel) AnyStatus (build_list P B nodes)
  unfolding build_list
  build_list-NodeKeeps nodes allows =
      Returns->>= (build_nodes P B nodes none []) _ (build_nodes-Keep nodes none [] allows tt tt)
        (λ built _ (keeps, left). take_root-NodeKeeps built.0 built.1 keeps left)

  prepare-Allowed :
      (input : LabelerInput P) (mode : LabelingMode) → Allowed P Q (prepare P input mode)
  unfolding prepare set_fingerprints set_mode
  prepare-Allowed input full = tt
  prepare-Allowed input pool_identity = tt

  -- Every virtual person id that Label gives, in any mode, has any property that the ids of the
  -- configuration have, where the labeler is built of a root or of a list of nodes: the ids in
  -- the pools of all population and ranked population nodes, at every depth, update trees
  -- included, and the ids in the events that the updaters merge in. So with updaters that merge
  -- in no activity every id lies in a pool of the model. The pools of a population node hold
  -- fewer than 2 ^ 31 ids in all and fit a uint64_t, and so does the pool of a ranked node.
  -- MergeFrom appends activities, and setting a field leaves them. The fuel is at least 2 ^ 32,
  -- the square root exact below 2 ^ 52 and rounding monotone.
  pub label-IsAllowed :
      (root : CompiledNode P B) (nodes : List (CompiledNode P B)) (labeler : ModelNode P B)
      → (NodeAllows P B Q root × (build_root P B root ≡ ok labeler))
        ⊎ (All (NodeAllows P B Q) nodes × (build_list P B nodes ≡ ok labeler))
      → (input : LabelerInput P) (output labeled : LabelerOutput P) (mode : LabelingMode)
      → label P B fuel labeler input output mode ≡ ok labeled
      → All (IsAllowed P Q) labeled.people
  unfolding label
  label-IsAllowed root nodes labeler built input output labeled mode e =
      let keeps : NodeKeeps P B Q law fuel labeler = elim built [
        | inl (allows, e) ↦ Returns-of_ok (build_root P B root) (build_root-NodeKeeps root allows) e
        | inr (allows, e) ↦
            Returns-of_ok (build_list P B nodes) (build_list-NodeKeeps nodes allows) e
      ] in
      let (event, applied, e') = >>=-eq-ok (apply P B fuel labeler (prepare P input mode)) _ e in
      subst (λ o. All (IsAllowed P Q) o.people) (ok-injective e')
        (Returns-of_ok (apply P B fuel labeler (prepare P input mode))
          (keeps (prepare P input mode) (prepare-Allowed input mode)) applied)
