-- ===== src/Model/ModelNode/Selectors.antt =====
-- What selects a child selects one of the branches that it was built of.
use Prim.Native.String.{String, ◌++◌}
use virtual_people_core_serv.Prelude.{
  ℕ, suc, ◌<◌, ◌≡◌, refl, ap, subst, ◌∙◌, List, [], ◌∷◌, map, none, some, ok, ℤ, pos, length,
  length-map, get_elem?-lt, arith, is_no_match, at_index_total, Returns, Returns-ok, Returns-err,
  Returns->>=, Returns->>=_any, Returns-if, IsReported, AnyStatus,
}
use virtual_people_core_serv.External.Events.{Platform, LabelerEvent}
use virtual_people_core_serv.External.Protobuf.{Protobuf}
use virtual_people_core_serv.Utils.DistributedConsistentHashing
use virtual_people_core_serv.Utils.FieldFiltersMatcher
use virtual_people_core_serv.Utils.FieldFiltersMatcher.{get_first_match}
use virtual_people_core_serv.Utils.FieldFiltersMatcher.FirstMatch.{build-length}
use virtual_people_core_serv.Utils.PopulationNodeHelper.{number_choices}
use virtual_people_core_serv.Utils.PopulationNodeHelper.Collapse.{hash-lt-length}
use virtual_people_core_serv.Utils.UpdateMatrixHelper.Selected.{get_first_match-IsIndex}
use virtual_people_core_serv.Model.Config.{SelectBy, chance, condition, select_by_not_set}
use virtual_people_core_serv.Model.ModelNode.{Selector}
use virtual_people_core_serv.Model.ModelNode.Build.{
  select_by_case, check_select_bys, chance_of, conditions, build_selector_by, build_selector,
}
use virtual_people_core_serv.Model.ModelNode.Apply.{select_child}

module _ (P : Platform) (B : Protobuf P) where
  -- The index of one of `n` children.
  abbrev pub IsChild : ℕ → ℤ → Type 0
  IsChild n index = (i : ℕ) × (index ≡ pos i) × (i < n)

  abbrev pub Selects : ℕ → Selector P B → Type 0
  Selects n selector =
      (event : LabelerEvent P)
      → Returns (IsChild n) IsReported
          (select_child P B selector.hashing selector.random_seed selector.matcher event)

  check_select_bys-conditions :
      (selects : List (SelectBy P B))
      → check_select_bys P B 2 selects ≡ ok tt
      → length (conditions P B selects) ≡ length selects
  unfolding check_select_bys conditions
  check_select_bys-conditions [] e = refl
  check_select_bys-conditions (condition c ∷ selects) e =
      ap suc (check_select_bys-conditions selects e)
  check_select_bys-conditions (chance c ∷ selects) e = cc
  check_select_bys-conditions (select_by_not_set ∷ selects) e = cc

  matched-IsChild :
      (n : ℕ) (filters : List B.FieldFilter) (random_seed : String) (event : LabelerEvent P)
      → length filters ≡ n
      → Returns (IsChild n) IsReported (select_child P B none random_seed (some filters) event)
  unfolding select_child
  matched-IsChild n filters random_seed event same =
      let index = get_first_match P B filters event in
      let below = get_first_match-IsIndex P B filters event in
      Returns-if (is_no_match index) _ _ (λ _. Returns-err _ tt)
        (λ matched.
          let (i, filter, e, found, _) = at_index_total filters index below matched in
          Returns-ok _ (i, e, subst (λ k. i < k) same (get_elem?-lt filters i found)))

  build_selector_by-Selects :
      (first : SelectBy P B) (rest : List (SelectBy P B)) (random_seed : String)
      → check_select_bys P B (select_by_case P B first) (first ∷ rest) ≡ ok tt
      → Returns
          (Selects (length (first ∷ rest)))
          AnyStatus
          (build_selector_by P B first (first ∷ rest) random_seed)
  unfolding build_selector_by select_child
  build_selector_by-Selects (chance c) rest random_seed e =
      let chances = map (chance_of P B) (chance c ∷ rest) in
      Returns->>=_any
        (DistributedConsistentHashing.build P.doubles (number_choices P.doubles 0 chances)) _
        (λ hashing built. Returns-ok _ (λ event.
          let seed = random_seed ++ P.hashing.decimal event.acting_fingerprint in
          Returns-ok _ (
            _,
            refl,
            subst (λ n. DistributedConsistentHashing.hash P.doubles P.hashing hashing seed < n)
                (length-map (chance c ∷ rest) (chance_of P B))
                (hash-lt-length P chances hashing seed built (omega arith)),
          )))
  build_selector_by-Selects (condition c) rest random_seed e =
      Returns->>= (FieldFiltersMatcher.build P B (conditions P B (condition c ∷ rest))) _
        (build-length P B (conditions P B (condition c ∷ rest)))
        (λ filters _ same. Returns-ok _ (λ event.
          matched-IsChild (length (condition c ∷ rest)) filters random_seed event
            (same ∙ check_select_bys-conditions (condition c ∷ rest) e)))
  build_selector_by-Selects select_by_not_set rest random_seed e = Returns-err _ tt

  pub build_selector-Selects :
      (selects : List (SelectBy P B)) (random_seed : String)
      → Returns (Selects (length selects)) AnyStatus (build_selector P B selects random_seed)
  unfolding build_selector
  build_selector-Selects [] random_seed = Returns-err _ tt
  build_selector-Selects (first ∷ rest) random_seed =
      Returns->>=_any (check_select_bys P B (select_by_case P B first) (first ∷ rest)) _
        (λ _ same. build_selector_by-Selects first rest random_seed same)
