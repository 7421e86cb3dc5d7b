-- ===== src/Utils/UpdateMatrixHelper/Selected.antt =====
-- SelectFromMatrix selects a column that there is, and the row that the hashing of the column gives.
use Prim.Native.String.{String, ◌++◌}
use virtual_people_core_serv.Prelude.{
  ℕ, suc, ◌+◌, ◌≡◌, refl, sym, subst, ◌⊎◌, inl, inr, List, [], ◌∷◌, map, Option, some, ok, pos,
  length, get_elem?, get_elem?-lt, arith, Bool-cases, no_matching_index, is_no_match, IsIndex,
  at_index_total, ◌==◌, Returns, Returns-ok, Returns->>=, Returns-if, IsReported,
}
use virtual_people_core_serv.External.Events.{Platform, LabelerEvent}
use virtual_people_core_serv.External.Protobuf.{Protobuf}
use virtual_people_core_serv.Utils.DistributedConsistentHashing.{DistributionChoice, hash}
use virtual_people_core_serv.Utils.FieldFiltersMatcher.{get_first_match}
use virtual_people_core_serv.Utils.FieldFiltersMatcher.FirstMatch.{get_first_match-cases}
use virtual_people_core_serv.Utils.HashFieldMaskMatcher.{
  HashFieldMaskMatcher, hash_labeler_event, get_match, index_of,
}
use virtual_people_core_serv.Utils.HashFieldMaskMatcher
use virtual_people_core_serv.Utils.HashFieldMaskMatcher.Matching.{position, get_match-position}
use virtual_people_core_serv.Utils.UpdateMatrixHelper.{MatrixIndexes, column_of, select_from_matrix}

module _ (P : Platform) (B : Protobuf P) where
  position-IsIndex :
      (mask : B.FieldMask) (hash : ℕ) (events : List (LabelerEvent P)) (index : ℕ)
      → IsIndex (index + length events) (index_of (position P B mask hash events index))
  position-IsIndex mask hash [] index = tt
  position-IsIndex mask hash (event ∷ events) index =
      elim (Bool-cases (hash_labeler_event P B event mask == hash)) [
        | inl same ↦ rw same (omega arith)
        | inr other ↦ rw other (
            subst (λ n. IsIndex n (index_of (position P B mask hash events (suc index))))
              (omega arith) (position-IsIndex mask hash events (suc index)))
      ]

  pub get_match-IsIndex :
      (events : List (LabelerEvent P)) (mask : B.FieldMask) (matcher : HashFieldMaskMatcher P B)
      (input : LabelerEvent P)
      → HashFieldMaskMatcher.build P B (map some events) mask ≡ ok matcher
      → IsIndex (length events) (get_match P B matcher input)
  unfolding HashFieldMaskMatcher.build
  get_match-IsIndex [] mask matcher input e = cc
  get_match-IsIndex (event ∷ events) mask matcher input e =
      subst (IsIndex (length (event ∷ events)))
        (sym (get_match-position P B event events mask matcher input e))
        (subst
          (λ n.
            IsIndex n
              (index_of (position P B mask (hash_labeler_event P B input mask) (event ∷ events) 0)))
          (omega arith)
          (position-IsIndex mask (hash_labeler_event P B input mask) (event ∷ events) 0))

  pub get_first_match-IsIndex :
      (filters : List B.FieldFilter) (event : LabelerEvent P)
      → IsIndex (length filters) (get_first_match P B filters event)
  get_first_match-IsIndex filters event = elim (get_first_match-cases P B event filters) [
    | inl (e, _) ↦ subst (IsIndex (length filters)) (sym e) tt
    | inr (i, e, first) ↦
        subst (IsIndex (length filters)) (sym e) (get_elem?-lt filters i first.here)
  ]

  -- The matchers find a column out of `n`, or none.
  abbrev pub MatchesBelow :
      ℕ → Option (HashFieldMaskMatcher P B) → Option (List B.FieldFilter) → Type 0
  MatchesBelow n hash_matcher filters_matcher =
      (event : LabelerEvent P)
      → Returns (IsIndex n) IsReported (column_of P B hash_matcher filters_matcher event)

  -- No column, or a column with a hashing and the row that it gives.
  abbrev pub Selected : List (List (DistributionChoice P.doubles)) → String → MatrixIndexes → Type 0
  Selected row_hashings seed indexes =
      (indexes.column_index ≡ no_matching_index)
      ⊎ ((i : ℕ) × (hashing : List (DistributionChoice P.doubles)) × (indexes.column_index ≡ pos i)
          × (get_elem? row_hashings i ≡ some hashing)
          × (indexes.row_index ≡ pos (hash P.doubles P.hashing hashing seed)))

  pub select_from_matrix-Selected :
      (hash_matcher : Option (HashFieldMaskMatcher P B))
      (filters_matcher : Option (List B.FieldFilter))
      (row_hashings : List (List (DistributionChoice P.doubles))) (random_seed : String)
      (event : LabelerEvent P)
      → MatchesBelow (length row_hashings) hash_matcher filters_matcher
      → Returns
          (Selected row_hashings (random_seed ++ P.hashing.decimal event.acting_fingerprint))
          IsReported
          (select_from_matrix P B hash_matcher filters_matcher row_hashings random_seed event)
  unfolding select_from_matrix
  select_from_matrix-Selected hash_matcher filters_matcher row_hashings random_seed event matches =
      Returns->>= (column_of P B hash_matcher filters_matcher event) _ (matches event)
        (λ column_index _ below.
          Returns-if (is_no_match column_index) _ _ (λ none_found. Returns-ok _ (inl refl))
            (λ matched.
              let (i, hashing, e, found, at) =
                at_index_total row_hashings column_index below matched in
              rw at (Returns-ok _ (inr (i, hashing, e, found, refl)))))
