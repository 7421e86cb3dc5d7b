-- ===== src/Utils/HashFieldMaskMatcher.antt =====
-- utils/hash_field_mask_matcher.cc. The flat_hash_map from hashes to indexes is an association
-- list, and a pointer to an event an `Option`.
pub mod Matching
use virtual_people_core_serv.Prelude.{
  ℕ, suc, Bool, true, false, List, [], ◌∷◌, Option, none, some, Result, ok, err, ◌>>=◌,
  invalid_argument, empty_events, null_event, empty_hash_field_mask, same_hash, ℤ, pos,
  no_matching_index, ◌==◌, if◌then◌else◌,
}
use virtual_people_core_serv.External.Events.{Platform, LabelerEvent}
use virtual_people_core_serv.External.Protobuf.{Protobuf}

unfoldable pub find : ℕ → List (ℕ × ℕ) → Option ℕ
find hash [] = none
find hash ((key, index) ∷ hashes) = if key == hash then some index else find hash hashes

abbrev pub index_of : Option ℕ → ℤ
index_of none = no_matching_index
index_of (some index) = pos index

module _ (P : Platform) (B : Protobuf P) where
  pub record HashFieldMaskMatcher : Type 0 where
    pub hashes : List (ℕ × ℕ)
    pub hash_field_mask : B.FieldMask

  unfoldable pub hash_labeler_event : LabelerEvent P → B.FieldMask → ℕ
  hash_labeler_event event hash_field_mask =
      P.hashing.fingerprint64 (B.masked_text event hash_field_mask)

  -- The loop of Build over the events left; a hash that the map holds is an error.
  unfoldable pub collect_hashes :
      B.FieldMask → List (Option (LabelerEvent P)) → ℕ → List (ℕ × ℕ) → Result (List (ℕ × ℕ))
  collect_hashes mask [] index hashes = ok hashes
  collect_hashes mask (none ∷ events) index hashes = err (invalid_argument null_event)
  collect_hashes mask (some event ∷ events) index hashes =
      let hash = hash_labeler_event event mask in
      elim (find hash hashes) [
        | none ↦ collect_hashes mask events (suc index) ((hash, index) ∷ hashes)
        | some _ ↦ err (invalid_argument same_hash)
      ]

  unfoldable pub build : List (Option (LabelerEvent P)) → B.FieldMask → Result HashFieldMaskMatcher
  build [] mask = err (invalid_argument empty_events)
  build (event ∷ events) mask =
      if B.has_no_path mask then err (invalid_argument empty_hash_field_mask) else do
        hashes ← collect_hashes mask (event ∷ events) 0 []
        ok (record { hashes = hashes; hash_field_mask = mask })

  unfoldable pub get_match : HashFieldMaskMatcher → LabelerEvent P → ℤ
  get_match matcher event =
      index_of (find (hash_labeler_event event matcher.hash_field_mask) matcher.hashes)
