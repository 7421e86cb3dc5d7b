-- ===== src/Model/UpdateMatrix.antt =====
-- update_matrix_impl.cc.
pub mod Columns
pub mod Built
pub mod Reports
pub mod Rows
use Prim.Native.String.{String}
use virtual_people_core_serv.Prelude.{
  ℕ, zero, suc, ◌+◌, ◌*◌, Bool, not, List, [], ◌∷◌, map, Option, none, some, Result, ok, err, ◌>>=◌,
  ◌>>◌, guard, invalid_argument, internal, undefined, undefined_arithmetic, ltb, ◌^◌, no_row,
  no_column, probabilities_count, no_column_matching, row_out_of_range, or_error, length, get_elem?,
  ◌==◌, if◌then◌else◌, is_no_match, at_index, ℤ,
}
use virtual_people_core_serv.External.Events.{Platform, LabelerEvent}
use virtual_people_core_serv.External.Protobuf.{Protobuf}
use virtual_people_core_serv.Utils.DistributedConsistentHashing.{DistributionChoice}
use virtual_people_core_serv.Utils.DistributedConsistentHashing
use virtual_people_core_serv.Utils.HashFieldMaskMatcher.{HashFieldMaskMatcher}
use virtual_people_core_serv.Utils.HashFieldMaskMatcher
use virtual_people_core_serv.Utils.UpdateMatrixHelper.{select_from_matrix}

module _ (P : Platform) (B : Protobuf P) where
  pub record UpdateMatrix : Type 0 where
    pub columns : List (LabelerEvent P)
    pub rows : List (LabelerEvent P)
    pub probabilities : List P.doubles.Double
    pub hash_field_mask : Option B.FieldMask
    pub random_seed : String
    pub pass_through_non_matches : Bool

  pub record UpdateMatrixImpl : Type 0 where
    pub hash_matcher : Option (HashFieldMaskMatcher P B)
    pub filters_matcher : Option (List B.FieldFilter)
    pub row_hashings : List (List (DistributionChoice P.doubles))
    pub random_seed : String
    pub rows : List (LabelerEvent P)
    pub pass_through_non_matches : Bool

  -- BuildFieldFiltersMatcher: a filter for each event.
  unfoldable pub build_field_filters_matcher : List (LabelerEvent P) → Result (List B.FieldFilter)
  build_field_filters_matcher [] = ok []
  build_field_filters_matcher (column ∷ columns) = do
    filter ← B.new_event_filter column
    filters ← build_field_filters_matcher columns
    ok (filter ∷ filters)

  -- The matchers by whether a mask is set: one of the two.
  unfoldable pub build_matchers :
      Option B.FieldMask
      → List (LabelerEvent P)
      → Result (Option (HashFieldMaskMatcher P B) × Option (List B.FieldFilter))
  build_matchers (some mask) columns = do
    matcher ← HashFieldMaskMatcher.build P B (map some columns) mask
    ok (some matcher, none)
  build_matchers none columns = do
    filters ← build_field_filters_matcher columns
    ok (none, some filters)

  -- The choices of a column: `left` rows from `row_index`.
  unfoldable pub column_choices :
      List P.doubles.Double → ℕ → ℕ → ℕ → ℕ → Result (List (DistributionChoice P.doubles))
  column_choices probabilities column_count column_index zero row_index = ok []
  column_choices probabilities column_count column_index (suc left) row_index = do
    probability ←
        or_error (get_elem? probabilities (row_index * column_count + column_index)) undefined
    rest ← column_choices probabilities column_count column_index left (suc row_index)
    ok (record { choice_id = row_index; probability = probability } ∷ rest)

  -- The hashings of `left` columns from `column_index`.
  unfoldable pub build_row_hashings :
      List P.doubles.Double → ℕ → ℕ → ℕ → ℕ → Result (List (List (DistributionChoice P.doubles)))
  build_row_hashings probabilities row_count column_count zero column_index = ok []
  build_row_hashings probabilities row_count column_count (suc left) column_index = do
    distribution ← column_choices probabilities column_count column_index row_count 0
    hashing ← DistributedConsistentHashing.build P.doubles distribution
    rest ← build_row_hashings probabilities row_count column_count left (suc column_index)
    ok (hashing ∷ rest)

  unfoldable pub build : UpdateMatrix → Result UpdateMatrixImpl
  build config = do
    let row_count = length config.rows
    let column_count = length config.columns
    guard (not (row_count == 0)) (invalid_argument no_row)
    guard (not (column_count == 0)) (invalid_argument no_column)
    guard (ltb (row_count * column_count) (2 ^ 31)) undefined_arithmetic
    guard (row_count * column_count == length config.probabilities)
        (invalid_argument probabilities_count)
    matchers ← build_matchers config.hash_field_mask config.columns
    hashings ← build_row_hashings config.probabilities row_count column_count column_count 0
    ok (record {
      hash_matcher = matchers.0;
      filters_matcher = matchers.1;
      row_hashings = hashings;
      random_seed = config.random_seed;
      rows = config.rows;
      pass_through_non_matches = config.pass_through_non_matches;
    })

  -- event.MergeFrom(rows[row_index]), after the check on the index.
  unfoldable pub merge_row : List (LabelerEvent P) → ℤ → LabelerEvent P → Result (LabelerEvent P)
  merge_row rows row_index event = elim (at_index rows row_index) [
    | none ↦ err (internal row_out_of_range)
    | some row ↦ ok (B.merge_event event row)
  ]

  unfoldable pub update : UpdateMatrixImpl → LabelerEvent P → Result (LabelerEvent P)
  update m event = do
    indexes ←
        select_from_matrix P B m.hash_matcher m.filters_matcher m.row_hashings m.random_seed event
    if is_no_match indexes.column_index
        then (if m.pass_through_non_matches
            then ok event
            else err (invalid_argument no_column_matching))
        else merge_row m.rows indexes.row_index event
