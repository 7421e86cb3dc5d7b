-- ===== src/Model/UpdateMatrix/Reports.antt =====
-- An update matrix that is built updates every event or refuses it with a reported error.
use Prim.Native.String.{◌++◌}
use virtual_people_core_serv.Prelude.{
  ℕ, ◌<◌, ◌≡◌, sym, ap, subst, inl, inr, List, pos, length, get_elem?_total, All, All-get_elem?,
  Returns, Returns-mono, Returns-ok, Returns-err, Returns->>=, Returns-if, Reports, AnyStatus,
  Reported,
}
use virtual_people_core_serv.External.Events.{Platform, LabelerEvent}
use virtual_people_core_serv.External.Protobuf.{Protobuf}
use virtual_people_core_serv.Utils.DistributedConsistentHashing.Selection.{Numbered, hash-lt}
use virtual_people_core_serv.Utils.UpdateMatrixHelper.{select_from_matrix}
use virtual_people_core_serv.Utils.UpdateMatrixHelper.Selected.{
  MatchesBelow, select_from_matrix-Selected,
}
use virtual_people_core_serv.Model.UpdateMatrix.Built.{build-IsBuilt}
use virtual_people_core_serv.Model.UpdateMatrix.{
  UpdateMatrix, UpdateMatrixImpl, build, merge_row, update,
}

module _ (P : Platform) (B : Protobuf P) where
  pub merge_row-IsReported :
      (rows : List (LabelerEvent P)) (i : ℕ) (event : LabelerEvent P)
      → i < length rows
      → Reported (merge_row P B rows (pos i) event)
  unfolding merge_row
  merge_row-IsReported rows i event h =
      let (row, found) = get_elem?_total rows i h in rw (found, merge_row) (Returns-ok _ tt)

  update-IsReported :
      (m : UpdateMatrixImpl P B)
      → MatchesBelow P B (length m.row_hashings) m.hash_matcher m.filters_matcher
      → 0 < length m.rows
      → All (Numbered P.doubles (length m.rows)) m.row_hashings
      → Reports (update P B m)
  unfolding update
  update-IsReported m matches filled all event =
      let seed = m.random_seed ++ P.hashing.decimal event.acting_fingerprint in
      Returns->>=
        (select_from_matrix P B m.hash_matcher m.filters_matcher m.row_hashings m.random_seed event)
        _
        (select_from_matrix-Selected P B m.hash_matcher m.filters_matcher m.row_hashings
          m.random_seed event matches)
        (λ indexes _ selected. elim selected [
          | inl none_found ↦ rw none_found (
              Returns-if m.pass_through_non_matches _ _ (λ _. Returns-ok _ tt)
                (λ _. Returns-err _ tt))
          | inr (i, hashing, column, found, row) ↦
              rw (column, row)
                (merge_row-IsReported m.rows _ event (
                  hash-lt P.doubles P.hashing seed (length m.rows) hashing
                    (All-get_elem? (Numbered P.doubles (length m.rows)) m.row_hashings i all found)
                    filled))
        ])

  pub build-Reports :
      (config : UpdateMatrix P B)
      → Returns (λ m. Reports (update P B m)) AnyStatus (build P B config)
  build-Reports config = Returns-mono (build P B config) (build-IsBuilt P B config) (λ m built.
      let same : length config.rows ≡ length m.rows = ap length (sym built.rows) in
      update-IsReported m
        (subst (λ n. MatchesBelow P B n m.hash_matcher m.filters_matcher) (sym built.hashes.0)
          built.matches)
        (subst (λ n. 0 < n) same built.filled)
        (subst (λ n. All (Numbered P.doubles n) m.row_hashings) same built.hashes.1))
