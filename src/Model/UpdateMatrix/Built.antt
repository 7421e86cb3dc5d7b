-- ===== src/Model/UpdateMatrix/Built.antt =====
-- What Build gives: matchers that find columns, and hashings of rows.
use virtual_people_core_serv.Prelude.{
  ℕ, zero, suc, ◌+◌, ◌*◌, ◌<◌, ◌≤◌, ◌≡◌, refl, ap, subst, not, List, [], ◌∷◌, map, Option, none,
  some, length, get_elem?, All, arith, IsIndex, ◌==◌, guard, or_error, Returns, Returns-ok,
  Returns->>=, Returns->>=_any, Returns-guard, AnyStatus, invalid_argument, ok, undefined,
  undefined_arithmetic, ltb, ◌^◌, no_row, no_column, probabilities_count,
}
use virtual_people_core_serv.External.Events.{Platform, LabelerEvent}
use virtual_people_core_serv.External.Protobuf.{Protobuf}
use virtual_people_core_serv.Utils.DistributedConsistentHashing.{DistributionChoice, hash}
use virtual_people_core_serv.Utils.DistributedConsistentHashing
use virtual_people_core_serv.Utils.DistributedConsistentHashing.Build.{build-Numbered}
use virtual_people_core_serv.Utils.DistributedConsistentHashing.Selection.{Numbered}
use virtual_people_core_serv.Utils.HashFieldMaskMatcher
use virtual_people_core_serv.Utils.FieldFiltersMatcher.{get_first_match}
use virtual_people_core_serv.Utils.UpdateMatrixHelper.{column_of}
use virtual_people_core_serv.Utils.UpdateMatrixHelper.Selected.{
  get_match-IsIndex, get_first_match-IsIndex, MatchesBelow,
}
use virtual_people_core_serv.Model.UpdateMatrix.{
  UpdateMatrix, UpdateMatrixImpl, build_field_filters_matcher, build_matchers, column_choices,
  build_row_hashings, build,
}

module _ (P : Platform) (B : Protobuf P) where
  build_field_filters_matcher-length :
      (columns : List (LabelerEvent P))
      → Returns
          (λ filters. length filters ≡ length columns)
          AnyStatus
          (build_field_filters_matcher P B columns)
  unfolding build_field_filters_matcher
  build_field_filters_matcher-length [] = Returns-ok _ refl
  build_field_filters_matcher-length (column ∷ columns) =
      Returns->>=_any (B.new_event_filter column) _ (λ filter _.
        Returns->>= (build_field_filters_matcher P B columns) _
          (build_field_filters_matcher-length columns)
          (λ filters _ same. Returns-ok _ (ap suc same)))

  pub build_matchers-MatchesBelow :
      (mask : Option B.FieldMask) (columns : List (LabelerEvent P))
      → Returns
          (λ ms. MatchesBelow P B (length columns) ms.0 ms.1)
          AnyStatus
          (build_matchers P B mask columns)
  unfolding build_matchers column_of
  build_matchers-MatchesBelow (some mask) columns =
      Returns->>=_any (HashFieldMaskMatcher.build P B (map some columns) mask) _ (λ matcher built.
        Returns-ok _
          (λ event. Returns-ok _ (get_match-IsIndex P B columns mask matcher event built)))
  build_matchers-MatchesBelow none columns =
      Returns->>= (build_field_filters_matcher P B columns) _
        (build_field_filters_matcher-length columns)
        (λ filters _ same. Returns-ok _ (λ event. Returns-ok _ (
          subst (λ n. IsIndex n (get_first_match P B filters event)) same
            (get_first_match-IsIndex P B filters event))))

  column_choices-Numbered :
      (probabilities : List P.doubles.Double) (column_count column_index left row_index n : ℕ)
      → row_index + left ≤ n
      → Returns
          (Numbered P.doubles n)
          AnyStatus
          (column_choices P B probabilities column_count column_index left row_index)
  unfolding column_choices
  column_choices-Numbered probabilities column_count column_index zero row_index n h =
      Returns-ok _ tt
  column_choices-Numbered probabilities column_count column_index (suc left) row_index n h =
      Returns->>=_any
        (or_error (get_elem? probabilities (row_index * column_count + column_index)) undefined) _
        (λ probability _.
          Returns->>=
            (column_choices P B probabilities column_count column_index left (suc row_index)) _
            (column_choices-Numbered probabilities column_count column_index left (suc row_index) n
              (omega arith))
            (λ rest _ numbered. Returns-ok _ (omega arith, numbered)))

  -- A hashing for each column, of the rows.
  abbrev pub Hashes : ℕ → ℕ → List (List (DistributionChoice P.doubles)) → Type 0
  Hashes columns rows hashings =
      (length hashings ≡ columns) × All (Numbered P.doubles rows) hashings

  build_row_hashings-Hashes :
      (probabilities : List P.doubles.Double) (row_count column_count left column_index : ℕ)
      → Returns
          (Hashes left row_count)
          AnyStatus
          (build_row_hashings P B probabilities row_count column_count left column_index)
  unfolding build_row_hashings
  build_row_hashings-Hashes probabilities row_count column_count zero column_index =
      Returns-ok _ (refl, tt)
  build_row_hashings-Hashes probabilities row_count column_count (suc left) column_index =
      Returns->>= (column_choices P B probabilities column_count column_index row_count 0) _
        (column_choices-Numbered probabilities column_count column_index row_count 0 row_count
          (omega arith))
        (λ choices _ numbered.
          Returns->>=_any (DistributedConsistentHashing.build P.doubles choices) _ (λ hashing built.
            Returns->>=
              (build_row_hashings P B probabilities row_count column_count left (suc column_index))
              _
              (build_row_hashings-Hashes probabilities row_count column_count left
                (suc column_index))
              (λ rest _ (count, all). Returns-ok _ (
                ap suc count,
                (build-Numbered P.doubles row_count choices hashing built numbered, all),
              ))))

  -- The matchers find columns of the configuration, and each column hashes to one of its rows.
  pub record IsBuilt (config : UpdateMatrix P B) (m : UpdateMatrixImpl P B) : Type 0 where
    pub matches : MatchesBelow P B (length config.columns) m.hash_matcher m.filters_matcher
    pub hashes : Hashes (length config.columns) (length config.rows) m.row_hashings
    pub matchers :
        build_matchers P B config.hash_field_mask config.columns
        ≡ ok (m.hash_matcher, m.filters_matcher)
    pub hashings :
        build_row_hashings P B config.probabilities
          (length config.rows)
          (length config.columns)
          (length config.columns)
          0
        ≡ ok m.row_hashings
    pub filled : 0 < length config.rows
    pub some_column : 0 < length config.columns
    pub seed : m.random_seed ≡ config.random_seed
    pub rows : m.rows ≡ config.rows
    pub flag : m.pass_through_non_matches ≡ config.pass_through_non_matches

  pub build-IsBuilt :
      (config : UpdateMatrix P B) → Returns (IsBuilt config) AnyStatus (build P B config)
  unfolding build
  build-IsBuilt config =
      let row_count = length config.rows in
      let column_count = length config.columns in
      Returns->>= (guard (not (row_count == 0)) (invalid_argument no_row)) _
        (Returns-guard AnyStatus _ _ tt)
        (λ _ _ filled.
          Returns->>= (guard (not (column_count == 0)) (invalid_argument no_column)) _
            (Returns-guard AnyStatus _ _ tt)
            (λ _ _ some_column.
              Returns->>=_any (guard (ltb (row_count * column_count) (2 ^ 31)) undefined_arithmetic)
                _
                (λ _ _.
                  Returns->>=_any
                    (guard (row_count * column_count == length config.probabilities)
                      (invalid_argument probabilities_count))
                    _
                    (λ _ _.
                      Returns->>= (build_matchers P B config.hash_field_mask config.columns) _
                        (build_matchers-MatchesBelow config.hash_field_mask config.columns)
                        (λ matchers made matches.
                          Returns->>=
                            (build_row_hashings P B config.probabilities row_count column_count
                              column_count 0)
                            _
                            (build_row_hashings-Hashes config.probabilities row_count column_count
                              column_count 0)
                            (λ hashings hashed hashes. Returns-ok _ (record {
                              matches = matches;
                              hashes = hashes;
                              matchers = made;
                              hashings = hashed;
                              some_column = ground (arith, some_column);
                              seed = refl;
                              filled = ground (arith, filled);
                              rows = refl;
                              flag = refl;
                            })))))))
