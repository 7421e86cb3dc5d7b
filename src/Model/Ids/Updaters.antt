-- ===== src/Model/Ids/Updaters.antt =====
-- The updaters that merge events in add no id that the configuration does not hold.
use virtual_people_core_serv.Prelude.{
  ℕ, ◌≡◌, sym, subst, inl, inr, not, List, [], ◌∷◌, map, none, some, ok, err, ℤ, pos, negsuc,
  get_elem?, All, All-append, All-get_elem?, length, ◌==◌, guard, or_error, at_index, is_no_match,
  Option-cases, Returns, Returns-ok, Returns-err, Returns->>=, Returns->>=_any, Returns-if,
  Returns-or_error, AnyStatus, invalid_argument, internal, no_column, column_out_of_range, no_nodes,
  no_condition, no_update, Status, Returns-mono,
}
use virtual_people_core_serv.External.Events.{Platform, LabelerEvent}
use virtual_people_core_serv.External.Protobuf.{Protobuf, KeepsActivities}
use virtual_people_core_serv.Utils.UpdateMatrixHelper.{select_from_matrix}
use virtual_people_core_serv.Utils.FieldFiltersMatcher.{get_first_match}
use virtual_people_core_serv.Model.UpdateMatrix
use virtual_people_core_serv.Model.UpdateMatrix.{
  UpdateMatrix, UpdateMatrixImpl, build_matchers, merge_row,
}
use virtual_people_core_serv.Model.UpdateMatrix.Built.{build-IsBuilt}
use virtual_people_core_serv.Model.SparseUpdateMatrix
use virtual_people_core_serv.Model.SparseUpdateMatrix.{
  Column, SparseUpdateMatrix, SparseUpdateMatrixImpl, check_columns, build_rows_hashings,
}
use virtual_people_core_serv.Model.ConditionalMerge
use virtual_people_core_serv.Model.ConditionalMerge.{
  ConditionalMergeNode, ConditionalMerge, ConditionalMergeImpl, build_nodes,
}
use virtual_people_core_serv.Model.Ids.Allows.{UpdateAllowed}
use virtual_people_core_serv.Model.Ids.{IsAllowed, Allowed, Keeps}

module _ (P : Platform) (B : Protobuf P) (Q : ℕ → Type 0) (law : KeepsActivities B) where
  merge_event-Allowed :
      (event part : LabelerEvent P)
      → Allowed P Q event
      → Allowed P Q part
      → Allowed P Q (B.merge_event event part)
  merge_event-Allowed event part allowed allowed' =
      subst (All (IsAllowed P Q)) (sym (law.merge_activities event part)) (
        All-append (IsAllowed P Q) event.virtual_person_activities part.virtual_person_activities
          allowed allowed')

  merge_part-Keeps :
      (parts : List (LabelerEvent P)) (status : Status) (index : ℤ)
      → All (Allowed P Q) parts
      → (event : LabelerEvent P) → Allowed P Q event
      → Returns (Allowed P Q) AnyStatus (elim (at_index parts index) [
        | none ↦ err status
        | some part ↦ ok (B.merge_event event part)
      ])
  merge_part-Keeps parts status (negsuc n) all event allowed = Returns-err status tt
  merge_part-Keeps parts status (pos i) all event allowed =
      elim (Option-cases (get_elem? parts i)) [
        | inl missing ↦ rw missing (Returns-err status tt)
        | inr (part, there) ↦ rw there (
            Returns-ok _ (
              merge_event-Allowed event part allowed
                (All-get_elem? (Allowed P Q) parts i all there)))
      ]

  merge_row-Keeps :
      (rows : List (LabelerEvent P)) (index : ℤ)
      → All (Allowed P Q) rows
      → Keeps P Q (merge_row P B rows index)
  unfolding merge_row
  merge_row-Keeps rows index all event allowed = merge_part-Keeps rows _ index all event allowed

  pub update_matrix-Keeps :
      (config : UpdateMatrix P B)
      → All (Allowed P Q) config.rows
      → Returns
          (λ m. Keeps P Q (UpdateMatrix.update P B m))
          AnyStatus
          (UpdateMatrix.build P B config)
  unfolding UpdateMatrix.update
  update_matrix-Keeps config all =
      Returns-mono (UpdateMatrix.build P B config) (build-IsBuilt P B config)
        (λ m built event allowed.
          Returns->>=_any
            (select_from_matrix P B m.hash_matcher m.filters_matcher m.row_hashings m.random_seed
              event)
            _
            (λ indexes _.
              Returns-if (is_no_match indexes.column_index) _ _
                (λ _.
                  Returns-if m.pass_through_non_matches _ _ (λ _. Returns-ok _ allowed)
                    (λ _. Returns-err _ tt))
                (λ _.
                  merge_row-Keeps m.rows indexes.row_index
                    (subst (All (Allowed P Q)) (sym built.rows) all) event allowed)))

  map-rows :
      (columns : List (Column P B))
      → All (λ c. All (Allowed P Q) c.rows) columns
      → All (All (Allowed P Q)) (map (λ c. c.rows) columns)
  map-rows [] all = tt
  map-rows (column ∷ columns) all = (all.0, map-rows columns all.1)

  at_index-All :
      (rows : List (List (LabelerEvent P))) (index : ℤ) (row : List (LabelerEvent P))
      → All (All (Allowed P Q)) rows
      → at_index rows index ≡ some row
      → All (Allowed P Q) row
  at_index-All rows (pos i) row all e = All-get_elem? (All (Allowed P Q)) rows i all e
  at_index-All rows (negsuc n) row all e = cc

  pub sparse_update_matrix-Keeps :
      (config : SparseUpdateMatrix P B)
      → All (λ c. All (Allowed P Q) c.rows) config.columns
      → Returns
          (λ m. Keeps P Q (SparseUpdateMatrix.update P B m))
          AnyStatus
          (SparseUpdateMatrix.build P B config)
  unfolding SparseUpdateMatrix.build SparseUpdateMatrix.update
  sparse_update_matrix-Keeps config all =
      Returns->>=_any (guard (not (length config.columns == 0)) (invalid_argument no_column)) _
        (λ _ _. Returns->>=_any (check_columns P B config.columns) _ (λ attrs _.
          Returns->>=_any (build_matchers P B config.hash_field_mask attrs) _ (λ matchers _.
            Returns->>=_any (build_rows_hashings P B config.columns) _ (λ hashings _.
              Returns-ok _ (λ event allowed.
                Returns->>=_any
                  (select_from_matrix P B matchers.0 matchers.1 hashings config.random_seed event) _
                  (λ indexes _.
                    Returns-if (is_no_match indexes.column_index) _ _
                      (λ _.
                        Returns-if config.pass_through_non_matches _ _ (λ _. Returns-ok _ allowed)
                          (λ _. Returns-err _ tt))
                      (λ _.
                        Returns->>=
                          (or_error
                            (at_index (map (λ c. c.rows) config.columns) indexes.column_index)
                            (internal column_out_of_range))
                          _
                          (Returns-or_error {Q = All (Allowed P Q)} _ _ tt (λ row there.
                            at_index-All _ indexes.column_index row (map-rows config.columns all)
                              there))
                          (λ rows _ rows_allowed.
                            merge_row-Keeps rows indexes.row_index rows_allowed event
                              allowed))))))))

  build_nodes-Allowed :
      (nodes : List (ConditionalMergeNode P B))
      → All (λ n. UpdateAllowed P Q n.update) nodes
      → Returns (λ parts. All (Allowed P Q) parts.1) AnyStatus (build_nodes P B nodes)
  unfolding build_nodes
  build_nodes-Allowed [] all = Returns-ok _ tt
  build_nodes-Allowed (node ∷ nodes) all =
      Returns->>=_any (or_error node.condition (invalid_argument no_condition)) _ (λ condition _.
        Returns->>= (or_error node.update (invalid_argument no_update)) _
          (Returns-or_error {Q = Allowed P Q} _ _ tt (λ part e. subst (UpdateAllowed P Q) e all.0))
          (λ part _ part_allowed. Returns->>=_any (B.new_filter condition) _ (λ filter _.
            Returns->>= (build_nodes P B nodes) _ (build_nodes-Allowed nodes all.1)
              (λ rest _ rest_allowed. Returns-ok _ (part_allowed, rest_allowed)))))

  pub conditional_merge-Keeps :
      (config : ConditionalMerge P B)
      → All (λ n. UpdateAllowed P Q n.update) config.nodes
      → Returns
          (λ m. Keeps P Q (ConditionalMerge.update P B m))
          AnyStatus
          (ConditionalMerge.build P B config)
  unfolding ConditionalMerge.build ConditionalMerge.update
  conditional_merge-Keeps config all =
      Returns->>=_any (guard (not (length config.nodes == 0)) (invalid_argument no_nodes)) _ (λ _ _.
        Returns->>= (build_nodes P B config.nodes) _ (build_nodes-Allowed config.nodes all)
          (λ parts _ parts_allowed. Returns-ok _ (λ event allowed.
            Returns-if (is_no_match (get_first_match P B parts.0 event)) _ _
              (λ _.
                Returns-if config.pass_through_non_matches _ _ (λ _. Returns-ok _ allowed)
                  (λ _. Returns-err _ tt))
              (λ _.
                merge_part-Keeps parts.1 _ (get_first_match P B parts.0 event) parts_allowed event
                  allowed))))
