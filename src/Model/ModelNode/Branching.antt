-- ===== src/Model/ModelNode/Branching.antt =====
-- The nodes that report every error, by their parts.
use virtual_people_core_serv.Prelude.{
  ℕ, zero, suc, ◌<◌, sym, subst, List, [], ◌∷◌, Option, none, some, Result, pos, arith, ◌>>=◌,
  Returns, Returns-ok, Returns->>=, IsReported, Reports, Reported, report_rules,
}
use virtual_people_core_serv.External.Events.{Platform, LabelerEvent}
use virtual_people_core_serv.External.Protobuf.{Protobuf}
use virtual_people_core_serv.Model.Multiplicity.{MultiplicityImpl, compute_event_multiplicity}
use virtual_people_core_serv.Model.ModelNode.{
  Selector, ModelNode, branch_node_impl, ModelNodes, no_nodes, child_node, Updaters, no_updaters,
  updater, count,
}
use virtual_people_core_serv.Model.ModelNode.Apply.{
  select_child, apply_all, apply_multiplicity, apply, apply_at, update_all,
}
use virtual_people_core_serv.Model.ModelNode.Selectors.{Selects}
use Prim.Native.String.{String}

module _ (P : Platform) (B : Protobuf P) where
  apply_all-IsReported :
      (child : LabelerEvent P → Result (LabelerEvent P)) (clones : List (LabelerEvent P))
      → Reports child
      → Reported (apply_all P B child clones)
  unfolding apply_all
  apply_all-IsReported child [] reports = Returns-ok _ tt
  apply_all-IsReported child (clone ∷ clones) reports =
      Returns->>= (child clone) _ (reports clone) (λ labeled _ _.
        Returns->>= (apply_all P B child clones) _ (apply_all-IsReported child clones reports)
          (λ rest _ _. Returns-ok _ tt))

  apply_multiplicity-Reports :
      (m : MultiplicityImpl P B) (child : LabelerEvent P → Result (LabelerEvent P))
      → Reports (compute_event_multiplicity P B m)
      → Reports child
      → Reports (apply_multiplicity P B m child)
  unfolding apply_multiplicity
  apply_multiplicity-Reports m child counts reports event =
      search (report_rules, counts, reports, apply_all-IsReported)

  module _ (fuel : ℕ) where
    abbrev pub NodeReports : ModelNode P B → Type 0
    NodeReports node = Reports (apply P B fuel node)

    -- Each child does.
    unfoldable pub ChildrenReport : ModelNodes P B → Type 0
    ChildrenReport no_nodes = Unit
    ChildrenReport (child_node node rest) = NodeReports node × ChildrenReport rest

    -- The updaters, or the multiplicity of a node without updaters.
    abbrev pub ActionReports : Updaters P B → Option (MultiplicityImpl P B) → Type 0
    ActionReports us none = Reports (update_all P B fuel us)
    ActionReports no_updaters (some m) = Reports (compute_event_multiplicity P B m)
    ActionReports (updater u us) (some m) = ⊥

    apply_at-Reports :
        (children : ModelNodes P B) (i : ℕ)
        → ChildrenReport children
        → i < count P B children
        → Reports (apply_at P B fuel children (pos i))
    unfolding apply_at ChildrenReport count
    apply_at-Reports no_nodes i reports h event = absurd (omega arith)
    apply_at-Reports (child_node node rest) zero reports h event = reports.0 event
    apply_at-Reports (child_node node rest) (suc i) reports h event =
        apply_at-Reports rest i reports.1 (omega arith) event

    -- ApplyChild.
    apply_child-IsReported :
        (children : ModelNodes P B) (selector : Selector P B)
        → ChildrenReport children
        → Selects P B (count P B children) selector
        → (event : LabelerEvent P)
        → Returns
            (λ labeled. Unit {0})
            IsReported
            (do
              index ← select_child P B selector.hashing selector.random_seed selector.matcher event
              apply_at P B fuel children index event)
    apply_child-IsReported children selector reports selects event =
        Returns->>= (select_child P B selector.hashing selector.random_seed selector.matcher event)
          _ (selects event)
          (λ index _ (i, e, h).
            subst (λ z. Reported (apply_at P B fuel children z event)) (sym e)
              (apply_at-Reports children i reports h event))

    pub branch-NodeReports :
        (name : String) (children : ModelNodes P B) (selector : Selector P B) (us : Updaters P B)
        (multiplicity : Option (MultiplicityImpl P B))
        → ChildrenReport children
        → Selects P B (count P B children) selector
        → ActionReports us multiplicity
        → NodeReports (branch_node_impl name children selector us multiplicity)
    unfolding apply
    branch-NodeReports name children selector us none reports selects action event =
        Returns->>= (update_all P B fuel us event) _ (action event)
          (λ updated _ _. apply_child-IsReported children selector reports selects updated)
    branch-NodeReports name children selector no_updaters (some m) reports selects action event =
        apply_multiplicity-Reports m _ action
          (apply_child-IsReported children selector reports selects) event
    branch-NodeReports name children selector (updater u us) (some m) reports selects action event =
        absurd action
