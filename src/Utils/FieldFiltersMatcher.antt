-- ===== src/Utils/FieldFiltersMatcher.antt =====
-- utils/field_filters_matcher.cc. A matcher is its list of filters.
pub mod FirstMatch
use virtual_people_core_serv.Prelude.{
  ℕ, suc, Bool, true, false, List, [], ◌∷◌, Result, ok, err, ◌>>=◌, invalid_argument, empty_filters,
  ℤ, pos, no_matching_index,
}
use virtual_people_core_serv.External.Events.{Platform, LabelerEvent}
use virtual_people_core_serv.External.Protobuf.{Protobuf}

module _ (P : Platform) (B : Protobuf P) where
  pub new_filters : List B.FieldFilterProto → Result (List B.FieldFilter)
  new_filters [] = ok []
  new_filters (config ∷ configs) = do
    filter ← B.new_filter config
    filters ← new_filters configs
    ok (filter ∷ filters)

  -- Build from configs; Build from filters just keeps them.
  unfoldable pub build : List B.FieldFilterProto → Result (List B.FieldFilter)
  unfolding new_filters
  build [] = err (invalid_argument empty_filters)
  build (config ∷ configs) = new_filters (config ∷ configs)

  -- The loop of GetFirstMatch from `index`.
  unfoldable pub first_match_from : ℕ → List B.FieldFilter → LabelerEvent P → ℤ
  first_match_from index [] event = no_matching_index
  first_match_from index (filter ∷ filters) event = elim (B.is_match filter event) [
    | true ↦ pos index
    | false ↦ first_match_from (suc index) filters event
  ]

  unfoldable pub get_first_match : List B.FieldFilter → LabelerEvent P → ℤ
  get_first_match filters event = first_match_from 0 filters event
