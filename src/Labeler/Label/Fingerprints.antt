-- ===== src/Labeler/Label/Fingerprints.antt =====
-- What SetFingerprints sets.
use virtual_people_core_serv.Prelude.{
  ℕ, List, [], ◌∷◌, Option, none, some, ◌≡◌, refl, Option-cases, inl, inr,
}
use virtual_people_core_serv.External.Events.{
  Platform, UserInfo, ProfileInfo, EventId, LabelerInput, LabelerEvent,
}
use virtual_people_core_serv.Labeler.Label.{
  set_user_info_fingerprint, fingerprint_field, fingerprint_profile, map_profile,
  fingerprint_event_id, acting_fingerprint_of, set_fingerprints,
}

-- The user infos of a profile.
abbrev pub user_infos : ProfileInfo → List (Option UserInfo)
user_infos p =
    p.email_user_info ∷ p.phone_user_info ∷ p.logged_in_id_user_info ∷ p.logged_out_id_user_info
    ∷ p.proprietary_id_space_1_user_info ∷ p.proprietary_id_space_2_user_info
    ∷ p.proprietary_id_space_3_user_info ∷ p.proprietary_id_space_4_user_info
    ∷ p.proprietary_id_space_5_user_info ∷ p.proprietary_id_space_6_user_info
    ∷ p.proprietary_id_space_7_user_info ∷ p.proprietary_id_space_8_user_info
    ∷ p.proprietary_id_space_9_user_info ∷ p.proprietary_id_space_10_user_info ∷ []

module _ (P : Platform) where
  -- The fingerprint of the user id if there is one, else what was set before.
  abbrev pub user_fingerprint : UserInfo → Option ℕ
  user_fingerprint info = elim info.user_id [
    | some id ↦ some (P.hashing.fingerprint64 id)
    | none ↦ info.user_id_fingerprint
  ]

  -- The user info keeps its id and has its fingerprint; one that is not set stays so.
  abbrev pub HasFingerprint : Option UserInfo → Option UserInfo → Type 0
  HasFingerprint (some info) (some info') =
      (info'.user_id ≡ info.user_id) × (info'.user_id_fingerprint ≡ user_fingerprint info)
  HasFingerprint none none = Unit
  HasFingerprint (some info) none = ⊥
  HasFingerprint none (some info') = ⊥

  abbrev pub HaveFingerprints : List (Option UserInfo) → List (Option UserInfo) → Type 0
  HaveFingerprints [] [] = Unit
  HaveFingerprints (field ∷ fields) (field' ∷ fields') =
      HasFingerprint field field' × HaveFingerprints fields fields'
  HaveFingerprints (field ∷ fields) [] = ⊥
  HaveFingerprints [] (field' ∷ fields') = ⊥

  abbrev pub ProfileHasFingerprints : Option ProfileInfo → Option ProfileInfo → Type 0
  ProfileHasFingerprints (some p) (some p') = HaveFingerprints (user_infos p) (user_infos p')
  ProfileHasFingerprints none none = Unit
  ProfileHasFingerprints (some p) none = ⊥
  ProfileHasFingerprints none (some p') = ⊥

  -- The event id, if there is one, has its fingerprint, which is the acting fingerprint of the
  -- result; else the acting fingerprint is the one from before.
  abbrev pub EventIdHasFingerprint : Option EventId → Option EventId → ℕ → ℕ → Type 0
  EventIdHasFingerprint (some e) (some e') before after =
      (e' ≡ record { id = e.id; id_fingerprint = some (P.hashing.fingerprint64 e.id) })
      × (after ≡ P.hashing.fingerprint64 e.id)
  EventIdHasFingerprint none none before after = after ≡ before
  EventIdHasFingerprint (some e) none before after = ⊥
  EventIdHasFingerprint none (some e') before after = ⊥

  fingerprint_field-HasFingerprint :
      (field : Option UserInfo) → HasFingerprint field (fingerprint_field P field)
  unfolding fingerprint_field set_user_info_fingerprint
  fingerprint_field-HasFingerprint none = tt
  fingerprint_field-HasFingerprint (some info) = elim (Option-cases info.user_id) [
    | inl unset ↦ rw (unset, set_user_info_fingerprint) (unset, refl)
    | inr (id, set) ↦ rw (set, set_user_info_fingerprint) (set, refl)
  ]

  map_profile-HasFingerprints :
      (p : Option ProfileInfo) → ProfileHasFingerprints p (map_profile P p)
  unfolding map_profile fingerprint_profile
  map_profile-HasFingerprints none = tt
  map_profile-HasFingerprints (some p) =
      let set = fingerprint_field-HasFingerprint in
      (
        set p.email_user_info,
        (
          set p.phone_user_info,
          (
            set p.logged_in_id_user_info,
            (
              set p.logged_out_id_user_info,
              (
                set p.proprietary_id_space_1_user_info,
                (
                  set p.proprietary_id_space_2_user_info,
                  (
                    set p.proprietary_id_space_3_user_info,
                    (
                      set p.proprietary_id_space_4_user_info,
                      (
                        set p.proprietary_id_space_5_user_info,
                        (
                          set p.proprietary_id_space_6_user_info,
                          (
                            set p.proprietary_id_space_7_user_info,
                            (
                              set p.proprietary_id_space_8_user_info,
                              (
                                set p.proprietary_id_space_9_user_info,
                                (set p.proprietary_id_space_10_user_info, tt),
                              ),
                            ),
                          ),
                        ),
                      ),
                    ),
                  ),
                ),
              ),
            ),
          ),
        ),
      )

  event_id-HasFingerprint :
      (e : Option EventId) (n : ℕ)
      → EventIdHasFingerprint e (fingerprint_event_id P e) n (acting_fingerprint_of P e n)
  unfolding fingerprint_event_id acting_fingerprint_of
  event_id-HasFingerprint none n = refl
  event_id-HasFingerprint (some e) n = (refl, refl)

  -- SetFingerprints changes of an event only the input and the acting fingerprint, and of the
  -- input only the event id and the profile. Each of the 14 user infos of a profile that is set
  -- keeps its user id and has the fingerprint of that id, or its former fingerprint where it
  -- has no id; one that is not set stays so. An event id keeps its id and has the fingerprint
  -- of it, which is the acting fingerprint; without an event id the acting fingerprint stays.
  pub set_fingerprints-HasFingerprints :
      (event : LabelerEvent P) (input : LabelerInput P)
      → (event_id : Option EventId) × (profile : Option ProfileInfo) × (acting : ℕ)
        × EventIdHasFingerprint input.event_id event_id event.acting_fingerprint acting
        × ProfileHasFingerprints input.profile_info profile
        × (set_fingerprints P event input ≡ record event {
          labeler_input = some (record input { event_id = event_id; profile_info = profile });
          acting_fingerprint = acting;
        })
  unfolding set_fingerprints
  set_fingerprints-HasFingerprints event input = (
    _,
    _,
    _,
    event_id-HasFingerprint input.event_id event.acting_fingerprint,
    map_profile-HasFingerprints input.profile_info,
    refl,
  )
