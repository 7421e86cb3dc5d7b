-- ===== src/External/Hashing.antt =====
-- util::Fingerprint64 of farmhash, and absl::StrCat's text of an integer.
use Prim.Native.String.{String}
use virtual_people_core_serv.Prelude.{ℕ, ℤ, ◌^◌, ◌<◌}

pub record Hashing : Type 0 where
  pub fingerprint64 : String → ℕ
  pub decimal : ℕ → String
  pub decimal_ℤ : ℤ → String

-- A fingerprint is a uint64_t.
pub record FingerprintFits (H : Hashing) : Type 0 where
  pub fingerprint64_lt : (s : String) → H.fingerprint64 s < 2 ^ 64
