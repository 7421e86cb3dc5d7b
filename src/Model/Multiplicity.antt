-- ===== src/Model/Multiplicity.antt =====
-- multiplicity_impl.cc.
pub mod Reports
pub mod Bounds
use Prim.Native.String.{String, ◌++◌}
use virtual_people_core_serv.Prelude.{
  ℕ, suc, ◌-◌, ◌^◌, Bool, true, false, Option, none, some, Result, ok, err, ◌>>=◌, ◌>>◌, guard,
  invalid_argument, internal, out_of_range, unsupported_type, no_multiplicity_ref,
  no_person_index_field, invalid_person_index_type, no_max_value, no_cap_at_max, no_random_seed,
  exceeds_max, negative_multiplicity, multiplicity_not_set, invalid_extractor, undefined_arithmetic,
  or_error, ltb, ◌==◌, if◌then◌else◌,
}
use virtual_people_core_serv.External.Doubles.{Doubles}
use virtual_people_core_serv.External.Events.{Platform, LabelerEvent}
use virtual_people_core_serv.External.Protobuf.{Protobuf, CppType}

-- GetExtractMultiplicityFunction knows the numeric types, IsIntegerFieldType the integers.
unfoldable pub is_numeric : CppType → Bool
is_numeric CppType.int32 = true
is_numeric CppType.int64 = true
is_numeric CppType.uint32 = true
is_numeric CppType.uint64 = true
is_numeric CppType.float = true
is_numeric CppType.double = true
is_numeric _ = false

unfoldable pub is_integer_field_type : CppType → Bool
is_integer_field_type CppType.int32 = true
is_integer_field_type CppType.int64 = true
is_integer_field_type CppType.uint32 = true
is_integer_field_type CppType.uint64 = true
is_integer_field_type _ = false

-- Either the integral part of an expectation that is not negative, or one more, where an int
-- holds them.
unfoldable pub compute_bimodal_integer : (D : Doubles) → D.Double → ℕ → Result ℕ
compute_bimodal_integer D expectation seed = do
  integral_part ← or_error (D.to_int (D.floor expectation)) undefined_arithmetic
  let fractional_part = D.sub expectation (D.of_ℕ integral_part)
  let threshold = D.to_ℕ (D.mul fractional_part (D.of_ℕ (2 ^ 64 - 1)))
  if ltb seed threshold
      then (guard (ltb (suc integral_part) (2 ^ 31)) undefined_arithmetic >> ok (suc integral_part))
      else ok integral_part

module _ (P : Platform) (B : Protobuf P) where
  pub data MultiplicityRef : Type 0 where
    expected_multiplicity : P.doubles.Double → MultiplicityRef
    expected_multiplicity_field : String → MultiplicityRef
    multiplicity_ref_not_set : MultiplicityRef

  pub record Multiplicity : Type 0 where
    pub multiplicity_ref : MultiplicityRef
    pub person_index_field : Option String
    pub max_value : Option P.doubles.Double
    pub cap_at_max : Option Bool
    pub random_seed : Option String

  pub data MultiplicityExtractor : Type 0 where
    monostate : MultiplicityExtractor
    explicit_value : P.doubles.Double → MultiplicityExtractor
    from_field : B.Field → MultiplicityExtractor

  pub record MultiplicityImpl : Type 0 where
    pub multiplicity_extractor : MultiplicityExtractor
    pub cap_at_max : Bool
    pub max_value : P.doubles.Double
    pub person_index_field : B.Field
    pub random_seed : String

  unfoldable pub build_extractor : MultiplicityRef → Result MultiplicityExtractor
  build_extractor (expected_multiplicity value) = ok (explicit_value value)
  build_extractor (expected_multiplicity_field name) = do
    field ← B.get_field name
    guard (is_numeric (B.cpp_type field)) (invalid_argument unsupported_type)
    ok (from_field field)
  build_extractor multiplicity_ref_not_set = err (invalid_argument no_multiplicity_ref)

  unfoldable pub build : Multiplicity → Result MultiplicityImpl
  unfolding build_extractor
  build config = do
    extractor ← build_extractor config.multiplicity_ref
    name ← or_error config.person_index_field (invalid_argument no_person_index_field)
    field ← B.get_field name
    guard (is_integer_field_type (B.cpp_type field)) (invalid_argument invalid_person_index_type)
    max_value ← or_error config.max_value (invalid_argument no_max_value)
    cap_at_max ← or_error config.cap_at_max (invalid_argument no_cap_at_max)
    random_seed ← or_error config.random_seed (invalid_argument no_random_seed)
    ok (record {
      multiplicity_extractor = extractor;
      cap_at_max = cap_at_max;
      max_value = max_value;
      person_index_field = field;
      random_seed = random_seed;
    })

  -- The expectation before it is capped.
  unfoldable pub extract : MultiplicityExtractor → LabelerEvent P → Result P.doubles.Double
  extract monostate event = err (internal invalid_extractor)
  extract (explicit_value value) event = ok value
  extract (from_field field) event = elim (B.get_value event field) [
    | none ↦ err (invalid_argument multiplicity_not_set)
    | some value ↦ ok (B.double_of_value value)
  ]

  unfoldable pub cap : MultiplicityImpl → P.doubles.Double → Result P.doubles.Double
  cap m expected =
      if P.doubles.lt m.max_value expected
      then (if m.cap_at_max then ok m.max_value else err (out_of_range exceeds_max))
      else ok expected

  unfoldable pub compute_event_multiplicity : MultiplicityImpl → LabelerEvent P → Result ℕ
  compute_event_multiplicity m event = do
    extracted ← extract m.multiplicity_extractor event
    expected ← cap m extracted
    let event_seed =
        P.hashing.fingerprint64 (m.random_seed ++ P.hashing.decimal event.acting_fingerprint)
    if P.doubles.lt expected (P.doubles.of_ℕ 0)
        then err (out_of_range negative_multiplicity)
        else compute_bimodal_integer P.doubles expected event_seed

  unfoldable pub get_fingerprint_for_index : MultiplicityImpl → ℕ → ℕ → ℕ
  get_fingerprint_for_index m input index =
      if index == 0
      then input
      else P.hashing.fingerprint64
          (m.random_seed ++ "-clone-" ++ P.hashing.decimal index ++ "-" ++ P.hashing.decimal input)
