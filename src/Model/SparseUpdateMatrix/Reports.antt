-- ===== src/Model/SparseUpdateMatrix/Reports.antt =====
-- A sparse update matrix that is built updates every event or refuses it with a reported error.
use Prim.Native.String.{String, ◌++◌}
use virtual_people_core_serv.Prelude.{
  ℕ, zero, suc, ◌<◌, ◌≡◌, refl, sym, ap, subst, ◌∙◌, inl, inr, not, List, [], ◌∷◌, map, some,
  some-injective, length, length-map, get_elem?, All, arith, ◌==◌, guard, or_error, Returns,
  Returns-ok, Returns-err, Returns->>=, Returns->>=_any, Returns-if, Returns-guard, Reports,
  AnyStatus, invalid_argument, no_row, no_column, rows_not_aligned, no_column_attrs,
}
use virtual_people_core_serv.External.Events.{Platform, LabelerEvent}
use virtual_people_core_serv.External.Protobuf.{Protobuf}
use virtual_people_core_serv.Utils.DistributedConsistentHashing.{DistributionChoice, hash}
use virtual_people_core_serv.Utils.DistributedConsistentHashing
use virtual_people_core_serv.Utils.PopulationNodeHelper.{number_choices}
use virtual_people_core_serv.Utils.PopulationNodeHelper.Collapse.{hash-lt-length}
use virtual_people_core_serv.Utils.UpdateMatrixHelper.{select_from_matrix}
use virtual_people_core_serv.Utils.UpdateMatrixHelper.Selected.{
  MatchesBelow, select_from_matrix-Selected,
}
use virtual_people_core_serv.Model.UpdateMatrix.{build_matchers}
use virtual_people_core_serv.Model.UpdateMatrix.Built.{build_matchers-MatchesBelow}
use virtual_people_core_serv.Model.UpdateMatrix.Reports.{merge_row-IsReported}
use virtual_people_core_serv.Model.SparseUpdateMatrix.{
  Column, SparseUpdateMatrix, SparseUpdateMatrixImpl, check_columns, build_rows_hashings, build,
  update,
}

module _ (P : Platform) (B : Protobuf P) where
  -- What the first loop of Build checks of a column.
  pub record IsChecked (column : Column P B) : Type 0 where
    pub filled : 0 < length column.rows
    pub aligned : length column.rows ≡ length column.probabilities

  -- Each hashing selects one of its rows.
  unfoldable pub Aligned :
      List (List (LabelerEvent P)) → List (List (DistributionChoice P.doubles)) → Type 0
  Aligned [] [] = Unit
  Aligned [] (hashing ∷ hashings) = ⊥
  Aligned (row ∷ rows) [] = ⊥
  Aligned (row ∷ rows) (hashing ∷ hashings) =
      ((seed : String) → hash P.doubles P.hashing hashing seed < length row) × Aligned rows hashings

  check_columns-IsChecked :
      (columns : List (Column P B))
      → Returns
          (λ attrs. (length attrs ≡ length columns) × All IsChecked columns)
          AnyStatus
          (check_columns P B columns)
  unfolding check_columns
  check_columns-IsChecked [] = Returns-ok _ (refl, tt)
  check_columns-IsChecked (column ∷ columns) =
      Returns->>=_any (or_error column.column_attrs (invalid_argument no_column_attrs)) _
        (λ attrs _.
          Returns->>= (guard (not (length column.rows == 0)) (invalid_argument no_row)) _
            (Returns-guard AnyStatus _ _ tt)
            (λ _ _ filled.
              Returns->>=
                (guard (length column.rows == length column.probabilities)
                  (invalid_argument rows_not_aligned))
                _ (Returns-guard AnyStatus _ _ tt)
                (λ _ _ aligned.
                  Returns->>= (check_columns P B columns) _ (check_columns-IsChecked columns)
                    (λ rest _ (count, checked). Returns-ok _ (
                      ap suc count,
                      (
                        record {
                          filled = ground (arith, filled);
                          aligned = ground (arith, aligned);
                        },
                        checked,
                      ),
                    )))))

  build_rows_hashings-Aligned :
      (columns : List (Column P B))
      → All IsChecked columns
      → Returns
          (λ hashings. Aligned (map (λ c. c.rows) columns) hashings)
          AnyStatus
          (build_rows_hashings P B columns)
  unfolding build_rows_hashings Aligned
  build_rows_hashings-Aligned [] checked = Returns-ok _ tt
  build_rows_hashings-Aligned (column ∷ columns) (checked, rest_checked) =
      Returns->>=_any
        (DistributedConsistentHashing.build P.doubles
          (number_choices P.doubles 0 column.probabilities))
        _
        (λ hashing built.
          Returns->>= (build_rows_hashings P B columns) _
            (build_rows_hashings-Aligned columns rest_checked)
            (λ rest _ aligned. Returns-ok _ (
              (λ seed.
                  subst (λ n. hash P.doubles P.hashing hashing seed < n) (sym checked.aligned)
                    (hash-lt-length P column.probabilities hashing seed built
                      (subst (λ n. 0 < n) checked.aligned checked.filled))),
              aligned,
            )))

  Aligned-length :
      (rows : List (List (LabelerEvent P))) (hashings : List (List (DistributionChoice P.doubles)))
      → Aligned rows hashings
      → length rows ≡ length hashings
  unfolding Aligned
  Aligned-length [] [] h = refl
  Aligned-length [] (hashing ∷ hashings) h = absurd h
  Aligned-length (row ∷ rows) [] h = absurd h
  Aligned-length (row ∷ rows) (hashing ∷ hashings) h = ap suc (Aligned-length rows hashings h.1)

  Aligned-get_elem? :
      (rows : List (List (LabelerEvent P))) (hashings : List (List (DistributionChoice P.doubles)))
      (i : ℕ) (hashing : List (DistributionChoice P.doubles)) (seed : String)
      → Aligned rows hashings
      → get_elem? hashings i ≡ some hashing
      → (row : List (LabelerEvent P)) × (get_elem? rows i ≡ some row)
        × (hash P.doubles P.hashing hashing seed < length row)
  unfolding Aligned
  Aligned-get_elem? [] [] i hashing seed h e = cc
  Aligned-get_elem? [] (first ∷ hashings) i hashing seed h e = absurd h
  Aligned-get_elem? (row ∷ rows) [] i hashing seed h e = cc
  Aligned-get_elem? (row ∷ rows) (first ∷ hashings) zero hashing seed h e = (
    row,
    refl,
    subst (λ g. hash P.doubles P.hashing g seed < length row) (some-injective e) (h.0 seed),
  )
  Aligned-get_elem? (row ∷ rows) (first ∷ hashings) (suc i) hashing seed h e =
      Aligned-get_elem? rows hashings i hashing seed h.1 e

  update-IsReported :
      (m : SparseUpdateMatrixImpl P B)
      → MatchesBelow P B (length m.row_hashings) m.hash_matcher m.filters_matcher
      → Aligned m.rows m.row_hashings
      → Reports (update P B m)
  unfolding update
  update-IsReported m matches aligned event =
      let seed = m.random_seed ++ P.hashing.decimal event.acting_fingerprint in
      Returns->>=
        (select_from_matrix P B m.hash_matcher m.filters_matcher m.row_hashings m.random_seed event)
        _
        (select_from_matrix-Selected P B m.hash_matcher m.filters_matcher m.row_hashings
          m.random_seed event matches)
        (λ indexes _ selected. elim selected [
          | inl none_found ↦ rw none_found (
              Returns-if m.pass_through_non_matches _ _ (λ _. Returns-ok _ tt)
                (λ _. Returns-err _ tt))
          | inr (i, hashing, column, found, row) ↦
              let (rows, there, lt) =
                Aligned-get_elem? m.rows m.row_hashings i hashing seed aligned found in
              rw (column, row, there) (merge_row-IsReported P B rows _ event lt)
        ])

  pub build-Reports :
      (config : SparseUpdateMatrix P B)
      → Returns (λ m. Reports (update P B m)) AnyStatus (build P B config)
  unfolding build
  build-Reports config =
      Returns->>=_any (guard (not (length config.columns == 0)) (invalid_argument no_column)) _
        (λ _ _.
          Returns->>= (check_columns P B config.columns) _ (check_columns-IsChecked config.columns)
            (λ attrs _ (count, checked).
              Returns->>= (build_matchers P B config.hash_field_mask attrs) _
                (build_matchers-MatchesBelow P B config.hash_field_mask attrs)
                (λ matchers _ matches.
                  Returns->>= (build_rows_hashings P B config.columns) _
                    (build_rows_hashings-Aligned config.columns checked)
                    (λ hashings _ aligned. Returns-ok _ (
                      update-IsReported _
                        (subst (λ n. MatchesBelow P B n matchers.0 matchers.1)
                          (count
                            ∙ sym (length-map config.columns (λ c. c.rows))
                            ∙ Aligned-length (map (λ c. c.rows) config.columns) hashings aligned)
                          matches)
                        aligned)))))
