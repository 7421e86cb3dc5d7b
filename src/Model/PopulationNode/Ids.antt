-- ===== src/Model/PopulationNode/Ids.antt =====
-- The ids that a population node gives lie in its pools.
use Prim.Native.String.{◌++◌}
use virtual_people_core_serv.Prelude.{
  ℕ, ◌^◌, ◌<◌, ◌≡◌, sym, ap, subst, ◌∙◌, [], ◌∷◌, Option, some, ok, >>=-eq-ok, ok-injective, All,
  false, arith, guard, or_error, undefined, internal, invalid_argument, no_population_pools,
  activities_before_leaf,
}
use virtual_people_core_serv.External.Doubles.{RoundsMonotonically}
use virtual_people_core_serv.External.Events.{Platform, LabelerEvent}
use virtual_people_core_serv.Utils.VirtualPersonSelector
use virtual_people_core_serv.Utils.VirtualPersonSelector.{
  VirtualPersonSelector, get_virtual_person_id,
}
use virtual_people_core_serv.Utils.VirtualPersonSelector.IdSpace.{population, Fits, InSpace}
use virtual_people_core_serv.Utils.VirtualPersonSelector.Selection.{get_virtual_person_id-InSpace}
use virtual_people_core_serv.Model.PopulationNode.{
  PopulationNode, PopulationNodeImpl, is_valid_pools, build, is_empty, label_of, add_activity,
  label_event, apply,
}

-- The activity that a leaf adds is the only one, and has the id.
pub add_activity-one :
    (P : Platform) (event labeled : LabelerEvent P) (v : ℕ)
    → add_activity P event v ≡ ok labeled
    → (label : Option P.Label) × (labeled.virtual_person_activities
        ≡ record { virtual_person_id = some v; label = label } ∷ [])
unfolding add_activity
add_activity-one P event labeled v e =
    let (label, _, e') = >>=-eq-ok (label_of P event (P.hashing.decimal v)) _ e in
    (label, ap (λ f. f.virtual_person_activities) (sym (ok-injective e')))

build-selector :
    (config : PopulationNode) (node : PopulationNodeImpl)
    → build config ≡ ok node
    → (selector : VirtualPersonSelector) × (VirtualPersonSelector.build config.pools ≡ ok selector)
      × (node.virtual_person_selector ≡ some selector)
unfolding build
build-selector config node e =
    let (_, _, e₁) = >>=-eq-ok (is_valid_pools config.pools) _ e in
    let (selector, built, e₂) = >>=-eq-ok (VirtualPersonSelector.build config.pools) _ e₁ in
    (selector, built, ap (λ n. n.virtual_person_selector) (sym (ok-injective e₂)))

module _ (P : Platform) (rounds : RoundsMonotonically P.doubles) (fuel : ℕ) where
  apply-full :
      (node : PopulationNodeImpl) (event : LabelerEvent P)
      → event.pool_identity_mode ≡ false
      → apply P fuel node event ≡ label_event P fuel node event
  unfolding apply
  apply-full node event full = ground arith

  -- For a node that Build gives of pools with fewer than 2 ^ 31 ids in all, each pool within a
  -- uint64_t, and more fuel than ids, an event that Apply labels outside pass 1 has exactly one
  -- activity, with an id in the range of one of the pools. The double arithmetic rounds
  -- monotonically.
  pub apply-InSpace :
      (config : PopulationNode) (node : PopulationNodeImpl) (event labeled : LabelerEvent P)
      → build config ≡ ok node
      → population config.pools < 2 ^ 31
      → population config.pools < fuel
      → All Fits config.pools
      → event.pool_identity_mode ≡ false
      → apply P fuel node event ≡ ok labeled
      → (v : ℕ) × (label : Option P.Label) × InSpace v config.pools
        × (labeled.virtual_person_activities
            ≡ record { virtual_person_id = some v; label = label } ∷ [])
  unfolding label_event
  apply-InSpace config node event labeled built small enough fits full e =
      let (selector, compiled, given) = build-selector config node built in
      let e₀ = sym (apply-full node event full) ∙ e in
      let (_, _, e₁) =
        >>=-eq-ok
          (guard (is_empty event.virtual_person_activities)
            (invalid_argument activities_before_leaf))
          _ e₀ in
      let (s, found, e₂) =
        >>=-eq-ok (or_error node.virtual_person_selector (internal no_population_pools)) _ e₁ in
      let seed =
        P.hashing.fingerprint64 (node.random_seed ++ P.hashing.decimal event.acting_fingerprint) in
      let (v, got, inside) =
        get_virtual_person_id-InSpace P.doubles rounds config.pools selector compiled small fits
          fuel seed enough in
      let same : selector ≡ s =
        ok-injective (sym (ap (λ o. or_error o (internal no_population_pools)) given) ∙ found) in
      let (id, some_id, e₃) =
        >>=-eq-ok (or_error (get_virtual_person_id P.doubles fuel s seed) undefined) _ e₂ in
      let same_id : v ≡ id = ok-injective (
        sym (ap (λ o. or_error o undefined) got)
        ∙ ap (λ x. or_error (get_virtual_person_id P.doubles fuel x seed) undefined) same
        ∙ some_id) in
      let (label, activities) = add_activity-one P event labeled id e₃ in
      (id, label, subst (λ w. InSpace w config.pools) same_id inside, activities)
