-- ===== src/External/Protobuf.antt =====
-- Protobuf reflection, field masks, and the field filters of wfa/virtual_people/common.
use Prim.Native.String.{String}
use virtual_people_core_serv.Prelude.{ℕ, Bool, Option, Result, ◌≡◌, ◌++◌}
use virtual_people_core_serv.External.Events.{Platform, LabelerEvent}

-- google::protobuf::FieldDescriptor::CppType
pub data CppType : Type 0 where
  int32 int64 uint32 uint64 double float bool enum string message : CppType

-- The position in the enumeration, to compare two types.
abbrev pub type_tag : CppType → ℕ
type_tag CppType.int32 = 1
type_tag CppType.int64 = 2
type_tag CppType.uint32 = 3
type_tag CppType.uint64 = 4
type_tag CppType.double = 5
type_tag CppType.float = 6
type_tag CppType.bool = 7
type_tag CppType.enum = 8
type_tag CppType.string = 9
type_tag CppType.message = 10

pub record Protobuf (P : Platform) : Type 1 where
  pub merge_event : LabelerEvent P → LabelerEvent P → LabelerEvent P
  -- A resolved path of field descriptors; `cpp_type` is that of its last one.
  pub Field : Type 0
  pub get_field : String → Result Field
  pub cpp_type : Field → CppType
  -- GetValueFromProto: `none` where the field is not set. SetValueToProto.
  pub Value : Type 0
  pub get_value : LabelerEvent P → Field → Option Value
  pub set_value : LabelerEvent P → Field → Value → LabelerEvent P
  pub value_of_ℕ : ℕ → Value
  pub ℕ_of_value : Value → ℕ
  pub double_of_value : Value → P.doubles.Double
  -- FieldFilter::New, of a config and of an event, and IsMatch.
  pub FieldFilterProto : Type 0
  pub FieldFilter : Type 0
  pub new_filter : FieldFilterProto → Result FieldFilter
  pub new_event_filter : LabelerEvent P → Result FieldFilter
  pub is_match : FieldFilter → LabelerEvent P → Bool
  -- FieldMask: whether it has no path, and the serialized event that MergeMessageTo masks.
  pub FieldMask : Type 0
  pub has_no_path : FieldMask → Bool
  pub masked_text : LabelerEvent P → FieldMask → String
  -- TextFormat::PrintToString.
  pub print_text : LabelerEvent P → String

-- MergeFrom appends the repeated fields, and a field path leads to a single field.
pub record KeepsActivities {P : Platform} (B : Protobuf P) : Type 0 where
  pub merge_activities :
      (event part : LabelerEvent P)
      → (B.merge_event event part).virtual_person_activities
        ≡ event.virtual_person_activities ++ part.virtual_person_activities
  pub set_activities :
      (event : LabelerEvent P) (f : B.Field) (value : B.Value)
      → (B.set_value event f value).virtual_person_activities ≡ event.virtual_person_activities
