-- ===== src/Utils/Feistel.antt =====
-- utils/feistel.cc. The do-while loop takes fuel; Utils/Feistel/Walk shows how much is enough.
pub mod Pigeonhole
pub mod Rounds
pub mod Walk
pub mod Bijection
use Prim.Native.String.{String, ◌++◌}
use virtual_people_core_serv.Prelude.{
  ℕ, zero, suc, ◌+◌, ◌*◌, ◌/◌, ◌%◌, ◌≤◌, Option, none, some, ltb, leb, if◌then◌else◌, add64, mul64,
}
use virtual_people_core_serv.External.Doubles.{Doubles}
use virtual_people_core_serv.External.Hashing.{Hashing}

-- The rounds left, over a hash of the round's number and the right half.
unfoldable pub feistel_rounds : (ℕ → ℕ → ℕ) → ℕ → ℕ → ℕ → ℕ × ℕ → ℕ × ℕ
feistel_rounds hash half zero round s = s
feistel_rounds hash half (suc n) round (left, right) =
    feistel_rounds hash half n (round + 1) (right, add64 left (hash round right % half) % half)

-- The body of the loop: split, four rounds, join.
unfoldable pub feistel_pass : (ℕ → ℕ → ℕ) → ℕ → ℕ → ℕ
feistel_pass hash half current =
    let (left, right) = feistel_rounds hash half 4 0 (current / half, current % half) in
    add64 (mul64 left half) right

-- `none` means that the fuel ran out.
unfoldable pub cycle_walk : (ℕ → ℕ) → ℕ → ℕ → ℕ → Option ℕ
cycle_walk pass domain_size zero current = none
cycle_walk pass domain_size (suc fuel) current =
    let next = pass current in
    let rest = cycle_walk pass domain_size fuel next in
    if leb domain_size next then rest else some next

module _ (H : Hashing) (D : Doubles) where
  -- util::Fingerprint64(StrCat(seed, "-feistel-", round, "-", right))
  unfoldable pub round_hash : String → ℕ → ℕ → ℕ
  round_hash seed round right =
      H.fingerprint64 (seed ++ "-feistel-" ++ H.decimal round ++ "-" ++ H.decimal right)

  unfoldable pub half_of : ℕ → ℕ
  half_of domain_size = D.to_ℕ (D.ceil (D.sqrt (D.of_ℕ domain_size)))

  unfoldable pub feistel_permute : ℕ → ℕ → ℕ → String → Option ℕ
  feistel_permute fuel value domain_size seed =
      if leb domain_size 1
      then some 0
      else cycle_walk (feistel_pass (round_hash seed) (half_of domain_size)) domain_size fuel value
