-- ===== src/Labeler/Label.antt =====
-- src/main/cc/wfa/virtual_people/core/labeler/labeler.cc: Labeler::Label and the fingerprints.
pub mod Fingerprints
use Prim.Native.String.{String}
use virtual_people_core_serv.Prelude.{
  ℕ, Bool, true, false, List, [], Option, none, some, Result, ok, err, ◌>>=◌, if◌then◌else◌,
}
use virtual_people_core_serv.External.Events.{
  Platform, UserInfo, ProfileInfo, EventId, LabelerInput, LabelerEvent, VirtualPersonActivity,
  PoolAssignment,
}
use virtual_people_core_serv.External.Protobuf.{Protobuf}
use virtual_people_core_serv.Model.ModelNode.{ModelNode}
use virtual_people_core_serv.Model.ModelNode.Apply.{apply}

pub data LabelingMode : Type 0 where
  full pool_identity : LabelingMode

module _ (P : Platform) where
  pub record LabelerOutput : Type 0 where
    pub people : List (VirtualPersonActivity P)
    pub pool_assignments : List PoolAssignment
    pub serialized_debug_trace : Option String

  -- SetUserInfoFingerprint.
  unfoldable pub set_user_info_fingerprint : UserInfo → UserInfo
  set_user_info_fingerprint info = elim info.user_id [
    | some id ↦ record info { user_id_fingerprint = some (P.hashing.fingerprint64 id) }
    | none ↦ info
  ]

  -- One `if (profile_info->has_…)` of SetFingerprints.
  unfoldable pub fingerprint_field : Option UserInfo → Option UserInfo
  fingerprint_field none = none
  fingerprint_field (some info) = some (set_user_info_fingerprint info)

  -- SetFingerprints on the profile.
  unfoldable pub fingerprint_profile : ProfileInfo → ProfileInfo
  fingerprint_profile p = record {
    email_user_info = fingerprint_field p.email_user_info;
    phone_user_info = fingerprint_field p.phone_user_info;
    logged_in_id_user_info = fingerprint_field p.logged_in_id_user_info;
    logged_out_id_user_info = fingerprint_field p.logged_out_id_user_info;
    proprietary_id_space_1_user_info = fingerprint_field p.proprietary_id_space_1_user_info;
    proprietary_id_space_2_user_info = fingerprint_field p.proprietary_id_space_2_user_info;
    proprietary_id_space_3_user_info = fingerprint_field p.proprietary_id_space_3_user_info;
    proprietary_id_space_4_user_info = fingerprint_field p.proprietary_id_space_4_user_info;
    proprietary_id_space_5_user_info = fingerprint_field p.proprietary_id_space_5_user_info;
    proprietary_id_space_6_user_info = fingerprint_field p.proprietary_id_space_6_user_info;
    proprietary_id_space_7_user_info = fingerprint_field p.proprietary_id_space_7_user_info;
    proprietary_id_space_8_user_info = fingerprint_field p.proprietary_id_space_8_user_info;
    proprietary_id_space_9_user_info = fingerprint_field p.proprietary_id_space_9_user_info;
    proprietary_id_space_10_user_info = fingerprint_field p.proprietary_id_space_10_user_info;
  }

  unfoldable pub map_profile : Option ProfileInfo → Option ProfileInfo
  map_profile none = none
  map_profile (some p) = some (fingerprint_profile p)

  -- The first `if` of SetFingerprints, on the input and on the acting fingerprint.
  unfoldable pub fingerprint_event_id : Option EventId → Option EventId
  fingerprint_event_id none = none
  fingerprint_event_id (some e) =
      some (record e { id_fingerprint = some (P.hashing.fingerprint64 e.id) })

  unfoldable pub acting_fingerprint_of : Option EventId → ℕ → ℕ
  acting_fingerprint_of none acting_fingerprint = acting_fingerprint
  acting_fingerprint_of (some e) acting_fingerprint = P.hashing.fingerprint64 e.id

  -- SetFingerprints, of an event with its input.
  unfoldable pub set_fingerprints : LabelerEvent P → LabelerInput P → LabelerEvent P
  set_fingerprints event input = record event {
    labeler_input = some (record input {
      event_id = fingerprint_event_id input.event_id;
      profile_info = map_profile input.profile_info;
    });
    acting_fingerprint = acting_fingerprint_of input.event_id event.acting_fingerprint;
  }

  -- A LabelerEvent with no field set.
  abbrev pub empty_event : LabelerEvent P
  empty_event = record {
    labeler_input = none;
    acting_fingerprint = 0;
    pool_identity_mode = false;
    virtual_person_activities = [];
    pool_assignments = [];
    quantum_labels = none;
    label = none;
    event_rest = P.empty_rest;
  }

  unfoldable pub set_mode : LabelingMode → LabelerEvent P → LabelerEvent P
  set_mode LabelingMode.full event = event
  set_mode LabelingMode.pool_identity event = record event { pool_identity_mode = true }

  -- The event that Label applies the model to.
  unfoldable pub prepare : LabelerInput P → LabelingMode → LabelerEvent P
  prepare input mode = set_mode mode (set_fingerprints empty_event input)

  -- `fuel` bounds the loops of the leaves.
  module _ (B : Protobuf P) (fuel : ℕ) where
    -- Labeler::Label, with the output it is given.
    unfoldable pub label :
        ModelNode P B → LabelerInput P → LabelerOutput → LabelingMode → Result LabelerOutput
    label root input output mode = do
      event ← apply P B fuel root (prepare input mode)
      ok (record {
        people = event.virtual_person_activities;
        pool_assignments = event.pool_assignments;
        serialized_debug_trace =
            if input.enable_debug_trace
            then some (B.print_text event)
            else output.serialized_debug_trace;
      })
