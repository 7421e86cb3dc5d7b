-- ===== src/Utils/HashFieldMaskMatcher/Matching.antt =====
-- GetMatch finds the one event of the configuration that has the hash.
use virtual_people_core_serv.Prelude.{
  ℕ, suc, ◌≡◌, ap, inl, inr, List, [], ◌∷◌, Option, none, some, arith, Bool-cases, Option-cases, ok,
  map, ◌==◌, if◌then◌else◌, >>=-eq-ok, ok-injective, subst,
}
use virtual_people_core_serv.External.Events.{Platform, LabelerEvent}
use virtual_people_core_serv.External.Protobuf.{Protobuf}
use virtual_people_core_serv.Utils.HashFieldMaskMatcher.{
  find, index_of, HashFieldMaskMatcher, hash_labeler_event, collect_hashes, build, get_match,
}

module _ (P : Platform) (B : Protobuf P) where
  -- The index of the first event with the hash.
  abbrev pub position : B.FieldMask → ℕ → List (LabelerEvent P) → ℕ → Option ℕ
  position mask hash [] index = none
  position mask hash (event ∷ events) index =
      if hash_labeler_event P B event mask == hash
      then some index
      else position mask hash events (suc index)

  abbrev pub orelse : Option ℕ → Option ℕ → Option ℕ
  orelse none b = b
  orelse (some a) b = some a

  -- The map that the loop ends with: what it held, and the events by position.
  find-collect :
      (mask : B.FieldMask) (events : List (LabelerEvent P)) (index : ℕ)
      (hashes result : List (ℕ × ℕ))
      → collect_hashes P B mask (map some events) index hashes ≡ ok result
      → (hash : ℕ) → find hash result ≡ orelse (find hash hashes) (position mask hash events index)
  unfolding collect_hashes find
  find-collect mask [] index hashes result e hash = ground arith
  find-collect mask (event ∷ events) index hashes result e hash =
      elim (Option-cases (find (hash_labeler_event P B event mask) hashes)) [
        | inl fresh ↦
            let rest =
              find-collect mask events (suc index)
                ((hash_labeler_event P B event mask, index) ∷ hashes) result
                (rw (fresh, collect_hashes) at e) hash in
            elim (Bool-cases (hash_labeler_event P B event mask == hash)) [
              | inl same ↦
                  let e' : hash_labeler_event P B event mask ≡ hash = ground arith in
                  ground (arith, rest, ap (λ h. find h hashes) e')
              | inr other ↦ ground (arith, rest)
            ]
        | inr (_, held) ↦ cc (rw (held, collect_hashes) at e)
      ]

  -- GetMatch of a matcher that Build gives of events returns the position of the first of them
  -- whose masked hash is that of the input, or kNoMatchingIndex.
  pub get_match-position :
      (event : LabelerEvent P) (events : List (LabelerEvent P)) (mask : B.FieldMask)
      (matcher : HashFieldMaskMatcher P B) (input : LabelerEvent P)
      → build P B (map some (event ∷ events)) mask ≡ ok matcher
      → get_match P B matcher input
        ≡ index_of (position mask (hash_labeler_event P B input mask) (event ∷ events) 0)
  unfolding build get_match find
  get_match-position event events mask matcher input e = elim (Bool-cases (B.has_no_path mask)) [
    | inl empty ↦ cc (rw (empty, build) at e)
    | inr full ↦
        let (hashes, collected, e') =
          >>=-eq-ok (collect_hashes P B mask (map some (event ∷ events)) 0 []) _
            (rw (full, build) at e) in
        subst
          (λ m.
            get_match P B m input
            ≡ index_of (position mask (hash_labeler_event P B input mask) (event ∷ events) 0))
          (ok-injective e')
          (ap index_of (
            find-collect mask (event ∷ events) 0 [] hashes collected
              (hash_labeler_event P B input mask)))
  ]
