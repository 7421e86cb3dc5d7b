-- ===== src/Utils/UpdateMatrixHelper.antt =====
-- utils/update_matrix_helper.cc.
pub mod Selected
use Prim.Native.String.{String, ◌++◌}
use virtual_people_core_serv.Prelude.{
  List, Option, none, some, Result, ok, err, ◌>>=◌, internal, no_column_matcher, index_out_of_range,
  ℤ, pos, no_matching_index, is_no_match, at_index, if◌then◌else◌,
}
use virtual_people_core_serv.External.Events.{Platform, LabelerEvent}
use virtual_people_core_serv.External.Protobuf.{Protobuf}
use virtual_people_core_serv.Utils.DistributedConsistentHashing.{DistributionChoice, hash}
use virtual_people_core_serv.Utils.FieldFiltersMatcher.{get_first_match}
use virtual_people_core_serv.Utils.HashFieldMaskMatcher.{HashFieldMaskMatcher, get_match}

pub record MatrixIndexes : Type 0 where
  pub column_index : ℤ
  pub row_index : ℤ

module _ (P : Platform) (B : Protobuf P) where
  -- The column by the hash matcher if it is set, else by the filters.
  unfoldable pub column_of :
      Option (HashFieldMaskMatcher P B) → Option (List B.FieldFilter) → LabelerEvent P → Result ℤ
  column_of (some matcher) filters event = ok (get_match P B matcher event)
  column_of none (some filters) event = ok (get_first_match P B filters event)
  column_of none none event = err (internal no_column_matcher)

  unfoldable pub select_from_matrix :
      Option (HashFieldMaskMatcher P B)
      → Option (List B.FieldFilter)
      → List (List (DistributionChoice P.doubles))
      → String
      → LabelerEvent P
      → Result MatrixIndexes
  unfolding column_of
  select_from_matrix hash_matcher filters_matcher row_hashings random_seed event = do
    column_index ← column_of hash_matcher filters_matcher event
    let seed = random_seed ++ P.hashing.decimal event.acting_fingerprint
    if is_no_match column_index
        then ok (record { column_index = no_matching_index; row_index = no_matching_index })
        else elim (at_index row_hashings column_index) [
          | none ↦ err (internal index_out_of_range)
          | some hashing ↦ ok (record {
            column_index = column_index;
            row_index = pos (hash P.doubles P.hashing hashing seed);
          })
        ]
