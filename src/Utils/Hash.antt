-- ===== src/Utils/Hash.antt =====
-- utils/hash.cc.
use Prim.Native.String.{String}
use virtual_people_core_serv.Prelude.{◌-◌, ◌^◌}
use virtual_people_core_serv.External.Doubles.{Doubles}
use virtual_people_core_serv.External.Hashing.{Hashing}

module _ (D : Doubles) (H : Hashing) where
  unfoldable pub float_hash : String → D.Double
  float_hash seed = D.div (D.of_ℕ (H.fingerprint64 seed)) (D.of_ℕ (2 ^ 64 - 1))

  unfoldable pub exp_hash : String → D.Double
  exp_hash seed = D.neg (D.log (float_hash seed))
