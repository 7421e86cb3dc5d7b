-- ===== src/Model/SparseUpdateMatrix.antt =====
-- sparse_update_matrix_impl.cc.
pub mod Reports
use Prim.Native.String.{String}
use virtual_people_core_serv.Prelude.{
  Bool, not, List, [], ◌∷◌, map, Option, Result, ok, err, ◌>>=◌, ◌>>◌, guard, invalid_argument,
  internal, no_column, no_column_attrs, no_row, rows_not_aligned, no_column_matching,
  column_out_of_range, or_error, length, ◌==◌, if◌then◌else◌, is_no_match, at_index,
}
use virtual_people_core_serv.External.Events.{Platform, LabelerEvent}
use virtual_people_core_serv.External.Protobuf.{Protobuf}
use virtual_people_core_serv.Utils.DistributedConsistentHashing.{DistributionChoice}
use virtual_people_core_serv.Utils.DistributedConsistentHashing
use virtual_people_core_serv.Utils.HashFieldMaskMatcher.{HashFieldMaskMatcher}
use virtual_people_core_serv.Utils.PopulationNodeHelper.{number_choices}
use virtual_people_core_serv.Utils.UpdateMatrixHelper.{select_from_matrix}
use virtual_people_core_serv.Model.UpdateMatrix.{build_matchers, merge_row}

module _ (P : Platform) (B : Protobuf P) where
  pub record Column : Type 0 where
    pub column_attrs : Option (LabelerEvent P)
    pub rows : List (LabelerEvent P)
    pub probabilities : List P.doubles.Double

  pub record SparseUpdateMatrix : Type 0 where
    pub columns : List Column
    pub hash_field_mask : Option B.FieldMask
    pub random_seed : String
    pub pass_through_non_matches : Bool

  pub record SparseUpdateMatrixImpl : Type 0 where
    pub hash_matcher : Option (HashFieldMaskMatcher P B)
    pub filters_matcher : Option (List B.FieldFilter)
    pub row_hashings : List (List (DistributionChoice P.doubles))
    pub random_seed : String
    pub rows : List (List (LabelerEvent P))
    pub pass_through_non_matches : Bool

  -- The first loop of Build: the checks on each column; the attributes that it finds set.
  unfoldable pub check_columns : List Column → Result (List (LabelerEvent P))
  check_columns [] = ok []
  check_columns (column ∷ columns) = do
    attrs ← or_error column.column_attrs (invalid_argument no_column_attrs)
    guard (not (length column.rows == 0)) (invalid_argument no_row)
    guard (length column.rows == length column.probabilities) (invalid_argument rows_not_aligned)
    rest ← check_columns columns
    ok (attrs ∷ rest)

  -- BuildRowsHashing of each column.
  unfoldable pub build_rows_hashings :
      List Column → Result (List (List (DistributionChoice P.doubles)))
  build_rows_hashings [] = ok []
  build_rows_hashings (column ∷ columns) = do
    hashing ←
        DistributedConsistentHashing.build P.doubles
          (number_choices P.doubles 0 column.probabilities)
    rest ← build_rows_hashings columns
    ok (hashing ∷ rest)

  unfoldable pub build : SparseUpdateMatrix → Result SparseUpdateMatrixImpl
  build config = do
    guard (not (length config.columns == 0)) (invalid_argument no_column)
    attrs ← check_columns config.columns
    matchers ← build_matchers P B config.hash_field_mask attrs
    hashings ← build_rows_hashings config.columns
    ok (record {
      hash_matcher = matchers.0;
      filters_matcher = matchers.1;
      row_hashings = hashings;
      random_seed = config.random_seed;
      rows = map (λ c. c.rows) config.columns;
      pass_through_non_matches = config.pass_through_non_matches;
    })

  unfoldable pub update : SparseUpdateMatrixImpl → LabelerEvent P → Result (LabelerEvent P)
  update m event = do
    indexes ←
        select_from_matrix P B m.hash_matcher m.filters_matcher m.row_hashings m.random_seed event
    if is_no_match indexes.column_index
        then (if m.pass_through_non_matches
            then ok event
            else err (invalid_argument no_column_matching))
        else do
          rows ← or_error (at_index m.rows indexes.column_index) (internal column_out_of_range)
          merge_row P B rows indexes.row_index event
