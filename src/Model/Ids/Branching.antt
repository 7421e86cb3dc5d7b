-- ===== src/Model/Ids/Branching.antt =====
-- A branch gives the ids that its children and updaters give.
use virtual_people_core_serv.Prelude.{
  ℕ, zero, suc, List, [], ◌∷◌, Option, none, some, Result, ℤ, pos, negsuc, All, All-append, ◌==◌,
  ◌>>=◌, Returns, Returns-ok, Returns-err, Returns->>=, Returns->>=_any, Returns-if, AnyStatus,
}
use virtual_people_core_serv.External.Events.{Platform, LabelerEvent}
use virtual_people_core_serv.External.Protobuf.{Protobuf, KeepsActivities}
use virtual_people_core_serv.Model.Multiplicity.{MultiplicityImpl, compute_event_multiplicity}
use virtual_people_core_serv.Model.ModelNode.{
  Selector, ModelNode, branch_node_impl, ModelNodes, no_nodes, child_node, Updaters, no_updaters,
  updater,
}
use virtual_people_core_serv.Model.ModelNode.Apply.{
  select_child, clones_from, apply_all, merge_labels, apply_multiplicity, apply, apply_at,
  update_all,
}
use virtual_people_core_serv.Model.Ids.{IsAllowed, Allowed, Keeps}
use virtual_people_core_serv.Model.Ids.Fields.{set_value-Allowed}
use Prim.Native.String.{String}

module _ (P : Platform) (B : Protobuf P) (Q : ℕ → Type 0) (law : KeepsActivities B) where
  clones_from-Allowed :
      (m : MultiplicityImpl P B) (event : LabelerEvent P) (left index : ℕ)
      → Allowed P Q event
      → All (Allowed P Q) (clones_from P B m event left index)
  unfolding clones_from
  clones_from-Allowed m event zero index allowed = tt
  clones_from-Allowed m event (suc left) index allowed = (
    set_value-Allowed P B Q law _ m.person_index_field _ allowed,
    clones_from-Allowed m event left (suc index) allowed,
  )

  apply_all-Allowed :
      (child : LabelerEvent P → Result (LabelerEvent P)) (clones : List (LabelerEvent P))
      → Keeps P Q child
      → All (Allowed P Q) clones
      → Returns (All (Allowed P Q)) AnyStatus (apply_all P B child clones)
  unfolding apply_all
  apply_all-Allowed child [] keeps all = Returns-ok _ tt
  apply_all-Allowed child (clone ∷ clones) keeps all =
      Returns->>= (child clone) _ (keeps clone all.0) (λ labeled _ allowed.
        Returns->>= (apply_all P B child clones) _ (apply_all-Allowed child clones keeps all.1)
          (λ rest _ rest_allowed. Returns-ok _ (allowed, rest_allowed)))

  merge_labels-Allowed :
      (clones : List (LabelerEvent P)) (event : LabelerEvent P)
      → Allowed P Q event
      → All (Allowed P Q) clones
      → Allowed P Q (merge_labels P B event clones)
  unfolding merge_labels
  merge_labels-Allowed [] event allowed all = allowed
  merge_labels-Allowed (clone ∷ clones) event allowed all =
      merge_labels-Allowed clones _
        (All-append (IsAllowed P Q) event.virtual_person_activities clone.virtual_person_activities
          allowed all.0)
        all.1

  apply_multiplicity-Keeps :
      (m : MultiplicityImpl P B) (child : LabelerEvent P → Result (LabelerEvent P))
      → Keeps P Q child
      → Keeps P Q (apply_multiplicity P B m child)
  unfolding apply_multiplicity
  apply_multiplicity-Keeps m child keeps event allowed =
      Returns->>=_any (compute_event_multiplicity P B m event) _ (λ clone_count _.
        Returns-if (clone_count == 1) _ _
          (λ _. keeps _ (set_value-Allowed P B Q law event m.person_index_field _ allowed))
          (λ _.
            Returns->>= (apply_all P B child (clones_from P B m event clone_count 0)) _
              (apply_all-Allowed child _ keeps (clones_from-Allowed m event clone_count 0 allowed))
              (λ labeled _ all. Returns-ok _ (merge_labels-Allowed labeled event allowed all))))

  module _ (fuel : ℕ) where
    abbrev pub NodeKeeps : ModelNode P B → Type 0
    NodeKeeps node = Keeps P Q (apply P B fuel node)

    unfoldable pub ChildrenKeep : ModelNodes P B → Type 0
    ChildrenKeep no_nodes = Unit
    ChildrenKeep (child_node node rest) = NodeKeeps node × ChildrenKeep rest

    apply_at-Keeps :
        (children : ModelNodes P B) (index : ℤ)
        → ChildrenKeep children
        → Keeps P Q (apply_at P B fuel children index)
    unfolding apply_at ChildrenKeep
    apply_at-Keeps no_nodes index keep event allowed = Returns-err _ tt
    apply_at-Keeps (child_node node rest) (pos zero) keep event allowed = keep.0 event allowed
    apply_at-Keeps (child_node node rest) (pos (suc i)) keep event allowed =
        apply_at-Keeps rest (pos i) keep.1 event allowed
    apply_at-Keeps (child_node node rest) (negsuc i) keep event allowed = Returns-err _ tt

    apply_child-Keeps :
        (children : ModelNodes P B) (selector : Selector P B)
        → ChildrenKeep children
        → Keeps P Q (λ event. do
          index ← select_child P B selector.hashing selector.random_seed selector.matcher event
          apply_at P B fuel children index event)
    apply_child-Keeps children selector keep event allowed =
        Returns->>=_any
          (select_child P B selector.hashing selector.random_seed selector.matcher event) _
          (λ index _. apply_at-Keeps children index keep event allowed)

    pub branch-NodeKeeps :
        (name : String) (children : ModelNodes P B) (selector : Selector P B) (us : Updaters P B)
        (multiplicity : Option (MultiplicityImpl P B))
        → ChildrenKeep children
        → Keeps P Q (update_all P B fuel us)
        → NodeKeeps (branch_node_impl name children selector us multiplicity)
    unfolding apply
    branch-NodeKeeps name children selector us none keep updates event allowed =
        Returns->>= (update_all P B fuel us event) _ (updates event allowed)
          (λ updated _ updated_allowed.
            apply_child-Keeps children selector keep updated updated_allowed)
    branch-NodeKeeps name children selector no_updaters (some m) keep updates event allowed =
        apply_multiplicity-Keeps m _ (apply_child-Keeps children selector keep) event allowed
    branch-NodeKeeps name children selector (updater u us) (some m) keep updates event allowed =
        Returns-err _ tt
