-- ===== src/Model/PopulationNode/Reports.antt =====
-- A node that is built labels every event or refuses it with a reported error.
use Prim.Native.String.{String, ◌++◌}
use virtual_people_core_serv.Prelude.{
  ℕ, ◌^◌, ◌≤◌, ◌≡◌, refl, List, Option, some, none, ok, guard, Returns, Returns-ok, Returns->>=,
  Returns->>=_any, Returns-guard, Returns-if, IsReported, AnyStatus, invalid_argument,
  activities_before_leaf, Reported, report_rules,
}
use virtual_people_core_serv.External.Doubles.{RoundsMonotonically}
use virtual_people_core_serv.External.Events.{Platform, LabelerEvent, QuantumLabel}
use virtual_people_core_serv.Utils.PopulationNodeHelper.{collapse_all}
use virtual_people_core_serv.Utils.PopulationNodeHelper.Reports.{collapse_all-IsReported}
use virtual_people_core_serv.Utils.VirtualPersonSelector
use virtual_people_core_serv.Utils.VirtualPersonSelector.{
  VirtualPersonSelector, get_virtual_person_id,
}
use virtual_people_core_serv.Utils.VirtualPersonSelector.Totality.{
  StartsAt, build-StartsAt, get_virtual_person_id_total,
}
use virtual_people_core_serv.Model.PopulationNode.{
  PopulationNode, PopulationNodeImpl, is_valid_pools, build, is_empty, label_of, add_activity,
  label_event, apply,
}

-- The node has a selector, whose first pool starts at 0.
pub record IsComplete (node : PopulationNodeImpl) : Type 0 where
  pub selector : VirtualPersonSelector
  pub present : node.virtual_person_selector ≡ some selector
  pub starts : StartsAt 0 selector.pools

pub build-IsComplete : (config : PopulationNode) → Returns IsComplete AnyStatus (build config)
unfolding build
build-IsComplete config = Returns->>=_any (is_valid_pools config.pools) _ (λ _ _.
    Returns->>=_any (VirtualPersonSelector.build config.pools) _ (λ selector built.
      Returns-ok _ (record {
        selector = selector;
        present = refl;
        starts = build-StartsAt config.pools selector built;
      })))

collapse_set-IsReported :
    (P : Platform) (quantum_labels : Option (List (QuantumLabel P))) (seed_suffix : String)
    → Returns
        (λ label. Unit {0})
        IsReported
        (elim quantum_labels [ none ↦ ok none | some qs ↦ collapse_all P qs seed_suffix none ])
collapse_set-IsReported P none seed_suffix = Returns-ok _ tt
collapse_set-IsReported P (some qs) seed_suffix = collapse_all-IsReported P qs seed_suffix none

label_of-IsReported :
    (P : Platform) (event : LabelerEvent P) (seed_suffix : String)
    → Reported (label_of P event seed_suffix)
unfolding label_of
label_of-IsReported P event seed_suffix =
    Returns->>= _ _ (collapse_set-IsReported P event.quantum_labels seed_suffix)
      (λ collapsed _ _. Returns-ok _ tt)

pub add_activity-IsReported :
    (P : Platform) (event : LabelerEvent P) (id : ℕ) → Reported (add_activity P event id)
unfolding add_activity
add_activity-IsReported P event id = search (report_rules, label_of-IsReported)

module _ (P : Platform) (rounds : RoundsMonotonically P.doubles) (fuel : ℕ) (enough : 2 ^ 32 ≤ fuel)
    (node : PopulationNodeImpl) (complete : IsComplete node) (event : LabelerEvent P) where
  label_event-IsReported : Reported (label_event P fuel node event)
  unfolding label_event
  label_event-IsReported =
      Returns->>=
        (guard (is_empty event.virtual_person_activities) (invalid_argument activities_before_leaf))
        _ (Returns-guard IsReported _ _ tt)
        (λ _ _ _. rw complete.present (
          let seed =
            P.hashing.fingerprint64
              (node.random_seed ++ P.hashing.decimal event.acting_fingerprint) in
          let (id, found) =
            get_virtual_person_id_total P.doubles rounds fuel complete.selector seed enough
              complete.starts in
          rw found (add_activity-IsReported P event id)))

  pub apply-IsReported : Reported (apply P fuel node event)
  unfolding apply
  apply-IsReported =
      Returns-if event.pool_identity_mode _ _ (λ pass_one. Returns-ok _ tt)
        (λ full. label_event-IsReported)
