-- ===== src/Model/UpdateMatrix/Rows.antt =====
-- What an update matrix that is built merges into an event.
use Prim.Native.String.{◌++◌}
use virtual_people_core_serv.Prelude.{
  Bool, Result, arith, ℕ, some, none, Option, ◌<◌, ◌≡◌, refl, sym, ap, subst, ◌∙◌, List, ok, err,
  pos, no_matching_index, length, get_elem?, get_elem?_total, All-get_elem?, if◌then◌else◌,
  Returns-of_ok, invalid_argument, no_column_matching,
}
use virtual_people_core_serv.External.Events.{Platform, LabelerEvent}
use virtual_people_core_serv.External.Protobuf.{Protobuf}
use virtual_people_core_serv.Utils.DistributedConsistentHashing.{DistributionChoice, hash}
use virtual_people_core_serv.Utils.DistributedConsistentHashing.Selection.{Numbered, hash-lt}
use virtual_people_core_serv.Utils.UpdateMatrixHelper.{column_of, select_from_matrix}
use virtual_people_core_serv.Utils.UpdateMatrixHelper.Selected.{MatchesBelow}
use virtual_people_core_serv.Model.UpdateMatrix.{
  UpdateMatrix, UpdateMatrixImpl, build, merge_row, update,
}
use virtual_people_core_serv.Utils.HashFieldMaskMatcher.{index_of}
use virtual_people_core_serv.Model.UpdateMatrix.Columns.{
  ColumnOf, IsHashing, build_matchers-ColumnOf, build_row_hashings-IsHashing,
}
use virtual_people_core_serv.Model.UpdateMatrix.Built.{IsBuilt, build-IsBuilt}

module _ (P : Platform) (B : Protobuf P) where
  -- The hashing of the column gives a row of the configuration for the seed and the acting
  -- fingerprint, and the result has that row merged in.
  abbrev pub IsColumnUpdate :
      UpdateMatrix P B → LabelerEvent P → Result (LabelerEvent P) → ℕ → Type 0
  IsColumnUpdate config event result i =
      (hashing : List (DistributionChoice P.doubles)) × (row : LabelerEvent P) × (i
        < length config.columns)
      × IsHashing P B config.probabilities (length config.rows) (length config.columns) i hashing
      × (get_elem? config.rows (
            hash P.doubles P.hashing hashing
              (config.random_seed ++ P.hashing.decimal event.acting_fingerprint))
          ≡ some row)
      × (result ≡ ok (B.merge_event event row))

  -- The result for the column of the event, or for none.
  abbrev pub IsUpdate :
      UpdateMatrix P B → LabelerEvent P → Result (LabelerEvent P) → Option ℕ → Type 0
  IsUpdate config event result none = result ≡ (
      if config.pass_through_non_matches
      then ok event
      else err (invalid_argument no_column_matching))
  IsUpdate config event result (some i) = IsColumnUpdate config event result i

  update-of_row :
      (m : UpdateMatrixImpl P B) (event : LabelerEvent P) (i : ℕ)
      (hashing : List (DistributionChoice P.doubles)) (row : LabelerEvent P)
      → column_of P B m.hash_matcher m.filters_matcher event ≡ ok (pos i)
      → get_elem? m.row_hashings i ≡ some hashing
      → get_elem? m.rows (
          hash P.doubles P.hashing hashing
            (m.random_seed ++ P.hashing.decimal event.acting_fingerprint))
        ≡ some row
      → update P B m event ≡ ok (B.merge_event event row)
  unfolding update select_from_matrix merge_row
  update-of_row m event i hashing row found at there =
      rw (found, select_from_matrix, at, merge_row, there) refl

  update-of_none :
      (m : UpdateMatrixImpl P B) (event : LabelerEvent P) (flag : Bool)
      → column_of P B m.hash_matcher m.filters_matcher event ≡ ok no_matching_index
      → m.pass_through_non_matches ≡ flag
      → update P B m event ≡ (if flag then ok event else err (invalid_argument no_column_matching))
  unfolding update select_from_matrix
  update-of_none m event flag found same =
      rw (found, select_from_matrix)
        (ap (λ b. if b then ok event else err (invalid_argument no_column_matching)) same)

  update-column :
      (config : UpdateMatrix P B) (m : UpdateMatrixImpl P B) (event : LabelerEvent P) (i : ℕ)
      → IsBuilt P B config m
      → column_of P B m.hash_matcher m.filters_matcher event ≡ ok (pos i)
      → i < length config.columns
      → IsColumnUpdate config event (update P B m event) i
  update-column config m event i built found h =
      let seed = config.random_seed ++ P.hashing.decimal event.acting_fingerprint in
      let (hashing, at) =
        get_elem?_total m.row_hashings i (subst (λ n. i < n) (sym built.hashes.0) h) in
      let below =
        hash-lt P.doubles P.hashing seed (length config.rows) hashing
          (All-get_elem? (Numbered P.doubles (length config.rows)) m.row_hashings i built.hashes.1
            at)
          built.filled in
      let (row, there) =
        get_elem?_total config.rows (hash P.doubles P.hashing hashing seed) below in
      (
        hashing,
        row,
        h,
        subst
            (λ c.
              IsHashing P B config.probabilities (length config.rows) (length config.columns) c
                hashing)
            (omega arith)
            (build_row_hashings-IsHashing P B config.probabilities (length config.rows)
              (length config.columns) (length config.columns) 0 m.row_hashings built.hashings i
              hashing at),
        there,
        update-of_row m event i hashing row found at (
            ap
              (λ s. get_elem? m.rows (
                hash P.doubles P.hashing hashing (s ++ P.hashing.decimal event.acting_fingerprint)))
              built.seed
            ∙ ap (λ rows. get_elem? rows (hash P.doubles P.hashing hashing seed)) built.rows
            ∙ there),
      )

  column_of-lt :
      (config : UpdateMatrix P B) (m : UpdateMatrixImpl P B) (event : LabelerEvent P) (i : ℕ)
      → MatchesBelow P B (length config.columns) m.hash_matcher m.filters_matcher
      → column_of P B m.hash_matcher m.filters_matcher event ≡ ok (pos i)
      → i < length config.columns
  column_of-lt config m event i matches found =
      Returns-of_ok (column_of P B m.hash_matcher m.filters_matcher event) (matches event) found

  -- Update of an update matrix that Build gives of a configuration takes the column of the
  -- event: with a mask the first column with the masked hash of the event, without one the
  -- first column the filter of which matches the event. It merges into the event the row of the
  -- configuration at the index that Hash gives for the random seed of the configuration and the
  -- acting fingerprint, which is always one of the rows; the hashing is what
  -- DistributedConsistentHashing::Build gives of a choice for each row, with its index and the
  -- probability at row * columns + column. Where there is no such column, the event passes or
  -- is refused, by the flag of the configuration.
  pub update-row :
      (config : UpdateMatrix P B) (m : UpdateMatrixImpl P B) (event : LabelerEvent P)
      → build P B config ≡ ok m
      → (found : Option ℕ) × ColumnOf P B config.hash_field_mask config.columns event found
        × IsUpdate config event (update P B m event) found
  update-row config m event e =
      let built = Returns-of_ok (build P B config) (build-IsBuilt P B config) e in
      let (found, column, index) =
        build_matchers-ColumnOf P B config.hash_field_mask config.columns
          (m.hash_matcher, m.filters_matcher) event built.some_column built.matchers in
      (found, column, by_column built found index)
    where
      by_column :
          IsBuilt P B config m
          → (found : Option ℕ)
          → column_of P B m.hash_matcher m.filters_matcher event ≡ ok (index_of found)
          → IsUpdate config event (update P B m event) found
      by_column built none index =
          update-of_none m event config.pass_through_non_matches index built.flag
      by_column built (some i) index =
          update-column config m event i built index
            (column_of-lt config m event i built.matches index)
