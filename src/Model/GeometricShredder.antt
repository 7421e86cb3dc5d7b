-- ===== src/Model/GeometricShredder.antt =====
-- geometric_shredder_impl.cc.
pub mod Reports
use Prim.Native.String.{String, ◌++◌}
use virtual_people_core_serv.Prelude.{
  ℕ, not, ◌||◌, Result, ok, ◌>>=◌, ◌>>◌, guard, invalid_argument, psi_out_of_range,
  randomness_not_uint64, target_not_uint64, target_not_set, randomness_not_set,
  undefined_arithmetic, or_error, ◌==◌, if◌then◌else◌,
}
use virtual_people_core_serv.External.Events.{Platform, LabelerEvent}
use virtual_people_core_serv.External.Protobuf.{Protobuf, CppType, type_tag}
use virtual_people_core_serv.Utils.Hash.{exp_hash}

module _ (P : Platform) (B : Protobuf P) where
  pub record GeometricShredder : Type 0 where
    pub psi : P.doubles.Double
    pub randomness_field : String
    pub target_field : String
    pub random_seed : String

  pub record GeometricShredderImpl : Type 0 where
    pub psi : P.doubles.Double
    pub randomness_field : B.Field
    pub target_field : B.Field
    pub random_seed : String

  unfoldable pub build : GeometricShredder → Result GeometricShredderImpl
  build config = do
    guard
        (not (
          P.doubles.lt config.psi (P.doubles.of_ℕ 0) || P.doubles.lt (P.doubles.of_ℕ 1) config.psi))
        (invalid_argument psi_out_of_range)
    randomness ← B.get_field config.randomness_field
    guard (type_tag (B.cpp_type randomness) == type_tag CppType.uint64)
        (invalid_argument randomness_not_uint64)
    target ← B.get_field config.target_field
    guard (type_tag (B.cpp_type target) == type_tag CppType.uint64)
        (invalid_argument target_not_uint64)
    ok (record {
      psi = config.psi;
      randomness_field = randomness;
      target_field = target;
      random_seed = config.random_seed;
    })

  -- Floor(ExpHash(randomness) / (-Log(psi)))
  unfoldable pub geometric : P.doubles.Double → ℕ → Result ℕ
  geometric psi randomness =
      or_error
        (P.doubles.to_uint64 (
          P.doubles.floor (
            P.doubles.div (exp_hash P.doubles P.hashing (P.hashing.decimal randomness))
              (P.doubles.neg (P.doubles.log_float psi)))))
        undefined_arithmetic

  unfoldable pub shred_hash : GeometricShredderImpl → LabelerEvent P → Result ℕ
  unfolding geometric
  shred_hash m event = if P.doubles.eq m.psi (P.doubles.of_ℕ 0) then ok 0 else do
    value ← or_error (B.get_value event m.randomness_field) (invalid_argument randomness_not_set)
    let randomness = B.ℕ_of_value value
    if P.doubles.eq m.psi (P.doubles.of_ℕ 1) then ok randomness else geometric m.psi randomness

  unfoldable pub shred : GeometricShredderImpl → ℕ → LabelerEvent P → Result (LabelerEvent P)
  shred m hash event = do
    value ← or_error (B.get_value event m.target_field) (invalid_argument target_not_set)
    let full_seed =
        P.hashing.decimal (B.ℕ_of_value value)
        ++ "-shred-"
        ++ P.hashing.decimal hash
        ++ "-"
        ++ m.random_seed
    ok (B.set_value event m.target_field (B.value_of_ℕ (P.hashing.fingerprint64 full_seed)))

  unfoldable pub update : GeometricShredderImpl → LabelerEvent P → Result (LabelerEvent P)
  update m event = do hash ← shred_hash m event; if hash == 0 then ok event else shred m hash event
