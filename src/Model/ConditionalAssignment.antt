-- ===== src/Model/ConditionalAssignment.antt =====
-- conditional_assignment_impl.cc.
pub mod Reports
use Prim.Native.String.{String}
use virtual_people_core_serv.Prelude.{
  Bool, true, false, not, List, [], ◌∷◌, Option, none, some, Result, ok, ◌>>=◌, ◌>>◌, guard,
  invalid_argument, no_condition, no_assignments, no_source_field, no_target_field,
  field_types_differ, unsupported_type, or_error, length, ◌==◌, if◌then◌else◌,
}
use virtual_people_core_serv.External.Events.{Platform, LabelerEvent}
use virtual_people_core_serv.External.Protobuf.{Protobuf, CppType, type_tag}

-- The types that GetAssignmentFunction knows.
unfoldable pub is_assignable : CppType → Bool
is_assignable CppType.float = false
is_assignable CppType.double = false
is_assignable CppType.message = false
is_assignable _ = true

module _ (P : Platform) (B : Protobuf P) where
  pub record AssignmentConfig : Type 0 where
    pub source_field : Option String
    pub target_field : Option String

  pub record ConditionalAssignment : Type 0 where
    pub condition : Option B.FieldFilterProto
    pub assignments : List AssignmentConfig

  pub record Assignment : Type 0 where
    pub source : B.Field
    pub target : B.Field

  pub record ConditionalAssignmentImpl : Type 0 where
    pub condition : B.FieldFilter
    pub assignments : List Assignment

  unfoldable pub build_assignments : List AssignmentConfig → Result (List Assignment)
  build_assignments [] = ok []
  build_assignments (config ∷ configs) = do
    source_name ← or_error config.source_field (invalid_argument no_source_field)
    target_name ← or_error config.target_field (invalid_argument no_target_field)
    source ← B.get_field source_name
    target ← B.get_field target_name
    guard (type_tag (B.cpp_type source) == type_tag (B.cpp_type target))
        (invalid_argument field_types_differ)
    guard (is_assignable (B.cpp_type source)) (invalid_argument unsupported_type)
    rest ← build_assignments configs
    ok (record { source = source; target = target } ∷ rest)

  unfoldable pub build : ConditionalAssignment → Result ConditionalAssignmentImpl
  build config = do
    condition ← or_error config.condition (invalid_argument no_condition)
    guard (not (length config.assignments == 0)) (invalid_argument no_assignments)
    filter ← B.new_filter condition
    assignments ← build_assignments config.assignments
    ok (record { condition = filter; assignments = assignments })

  -- Assign: a source that is not set leaves the event as it is.
  unfoldable pub assign : LabelerEvent P → Assignment → LabelerEvent P
  assign event assignment = elim (B.get_value event assignment.source) [
    | none ↦ event
    | some value ↦ B.set_value event assignment.target value
  ]

  unfoldable pub assign_all : LabelerEvent P → List Assignment → LabelerEvent P
  unfolding assign
  assign_all event [] = event
  assign_all event (assignment ∷ rest) = assign_all (assign event assignment) rest

  unfoldable pub update : ConditionalAssignmentImpl → LabelerEvent P → Result (LabelerEvent P)
  update m event =
      if B.is_match m.condition event then ok (assign_all event m.assignments) else ok event
