-- ===== src/External/Events.antt =====
-- The messages of wfa/virtual_people/common that the program reads and writes: each field that the
-- program names, and the other fields as one value that it carries along. A field with presence is
-- an `Option`, a repeated field a list.
use Prim.Native.String.{String}
use virtual_people_core_serv.Prelude.{ℕ, Bool, List, Option}
use virtual_people_core_serv.External.Doubles.{Doubles}
use virtual_people_core_serv.External.Hashing.{Hashing}

pub record Platform : Type 1 where
  pub doubles : Doubles
  pub hashing : Hashing
  -- PersonLabelAttributes, with MergeFrom.
  pub Label : Type 0
  pub empty_label : Label
  pub merge_label : Label → Label → Label
  pub EventRest : Type 0
  pub empty_rest : EventRest
  pub InputRest : Type 0

pub record UserInfo : Type 0 where
  pub user_id : Option String
  pub user_id_fingerprint : Option ℕ

pub record ProfileInfo : Type 0 where
  pub email_user_info : Option UserInfo
  pub phone_user_info : Option UserInfo
  pub logged_in_id_user_info : Option UserInfo
  pub logged_out_id_user_info : Option UserInfo
  pub proprietary_id_space_1_user_info : Option UserInfo
  pub proprietary_id_space_2_user_info : Option UserInfo
  pub proprietary_id_space_3_user_info : Option UserInfo
  pub proprietary_id_space_4_user_info : Option UserInfo
  pub proprietary_id_space_5_user_info : Option UserInfo
  pub proprietary_id_space_6_user_info : Option UserInfo
  pub proprietary_id_space_7_user_info : Option UserInfo
  pub proprietary_id_space_8_user_info : Option UserInfo
  pub proprietary_id_space_9_user_info : Option UserInfo
  pub proprietary_id_space_10_user_info : Option UserInfo

pub record EventId : Type 0 where
  pub id : String
  pub id_fingerprint : Option ℕ

pub record RankAssignment : Type 0 where
  pub pool_offset : ℕ
  pub local_rank : ℕ

pub record PoolAssignment : Type 0 where
  pub pool_offset : ℕ
  pub pool_size : ℕ
  pub ranked_size : ℕ

module _ (P : Platform) where
  pub record LabelerInput : Type 0 where
    pub event_id : Option EventId
    pub profile_info : Option ProfileInfo
    pub timestamp_usec : ℕ
    pub rank_assignments : List RankAssignment
    pub enable_debug_trace : Bool
    pub input_rest : P.InputRest

  pub record QuantumLabel : Type 0 where
    pub labels : List P.Label
    pub probabilities : List P.doubles.Double
    pub seed : String

  pub record VirtualPersonActivity : Type 0 where
    pub virtual_person_id : Option ℕ
    pub label : Option P.Label

  pub record LabelerEvent : Type 0 where
    pub labeler_input : Option LabelerInput
    pub acting_fingerprint : ℕ
    pub pool_identity_mode : Bool
    pub virtual_person_activities : List VirtualPersonActivity
    pub pool_assignments : List PoolAssignment
    pub quantum_labels : Option (List QuantumLabel)
    pub label : Option P.Label
    pub event_rest : P.EventRest
