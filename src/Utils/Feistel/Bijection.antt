-- ===== src/Utils/Feistel/Bijection.antt =====
-- FeistelPermute is a bijection of its domain.
use Prim.Native.String.{String}
use native.Mathlib.Nat.{mul-le-mul}
use virtual_people_core_serv.Prelude.{
  ℕ, ◌-◌, ◌*◌, ◌^◌, ◌≤◌, ◌<◌, ◌≡◌, some, inl, inr, arith, ltb, leb, Bool-cases,
}
use virtual_people_core_serv.External.Doubles.{Doubles, SqrtIsExact}
use virtual_people_core_serv.External.Hashing.{Hashing}
use virtual_people_core_serv.Utils.Feistel.{half_of, round_hash, feistel_pass, feistel_permute}
use virtual_people_core_serv.Utils.Feistel.Rounds.{feistel_pass-lt, feistel_pass-injective}
use virtual_people_core_serv.Utils.Feistel.Walk.{cycle_walk_total, cycle_walk-injective}

root_small : (h : ℕ) → (h - 1) * (h - 1) < 2 ^ 52 → h ≤ 2 ^ 32
root_small h less = elim (Bool-cases (ltb (2 ^ 32) h)) [
  | inl big ↦ let b : 2 ^ 26 ≤ h - 1 = ground arith in absurd (omega (arith, mul-le-mul b b))
  | inr small ↦ ground arith
]

square_small : (h : ℕ) → (h - 1) * (h - 1) < 2 ^ 31 → h * h ≤ 2 ^ 32
square_small h less = elim (Bool-cases (ltb (2 ^ 16) h)) [
  | inl big ↦ let b : 2 ^ 16 ≤ h - 1 = ground arith in absurd (omega (arith, mul-le-mul b b))
  | inr small ↦ let b : h ≤ 2 ^ 16 = ground arith in omega (arith, mul-le-mul b b)
]

module _ (H : Hashing) (D : Doubles) (exact : SqrtIsExact D) (n : ℕ) (fits : n < 2 ^ 52)
    (seed : String) where
  half-le : 0 < n → half_of H D n ≤ 2 ^ 32
  unfolding half_of
  half-le pos =
      let less = exact.ceil_sqrt_least n fits pos in
      root_small (D.to_ℕ (D.ceil (D.sqrt (D.of_ℕ n)))) (omega (arith, less))

  half_covers : n ≤ half_of H D n * half_of H D n
  unfolding half_of
  half_covers = exact.ceil_sqrt_covers n fits

  -- The cycle walk of FeistelPermute on a value of the domain ends within as many passes as the
  -- square of half has values, and the result lies in the domain. The square root is exact on
  -- the integers below 2 ^ 52.
  pub feistel_permute_total :
      (fuel value : ℕ)
      → value < n
      → half_of H D n * half_of H D n ≤ fuel
      → (y : ℕ) × (feistel_permute H D fuel value n seed ≡ some y) × (y < n)
  unfolding feistel_permute
  feistel_permute_total fuel value h enough = elim (Bool-cases (leb n 1)) [
    | inl tiny ↦ (0, ground arith, omega arith)
    | inr large ↦
        let small = half-le (omega arith) in
        rw large (
          cycle_walk_total (feistel_pass (round_hash H D seed) (half_of H D n)) n
            (half_of H D n * half_of H D n) half_covers
            (feistel_pass-lt (round_hash H D seed) (half_of H D n) small)
            (feistel_pass-injective (round_hash H D seed) (half_of H D n) small) fuel value h
            (omega (arith, half_covers)))
  ]

  -- FeistelPermute gives two values of a domain of size 1 to below 2 ^ 52 the same image only
  -- where the values are equal, whatever the fuel that sufficed. The square root is exact on
  -- the integers below 2 ^ 52.
  pub feistel_permute-injective :
      (fuel fuel' value value' y : ℕ)
      → value < n
      → value' < n
      → feistel_permute H D fuel value n seed ≡ some y
      → feistel_permute H D fuel' value' n seed ≡ some y
      → value ≡ value'
  unfolding feistel_permute
  feistel_permute-injective fuel fuel' value value' y h h' e e' = elim (Bool-cases (leb n 1)) [
    | inl tiny ↦ ground arith
    | inr large ↦
        let small = half-le (omega arith) in
        cycle_walk-injective (feistel_pass (round_hash H D seed) (half_of H D n)) n
          (half_of H D n * half_of H D n) half_covers
          (feistel_pass-lt (round_hash H D seed) (half_of H D n) small)
          (feistel_pass-injective (round_hash H D seed) (half_of H D n) small) fuel fuel' value
          value' y h h' (rw large at e) (rw large at e')
  ]

-- For a domain that fits an int32_t, fuel of 2 ^ 32 is enough.
pub half_square-le :
    (H : Hashing) (D : Doubles) (exact : SqrtIsExact D) (n : ℕ)
    → 0 < n
    → n < 2 ^ 31
    → half_of H D n * half_of H D n ≤ 2 ^ 32
unfolding half_of
half_square-le H D exact n h small =
    let less = exact.ceil_sqrt_least n (omega arith) h in
    square_small (D.to_ℕ (D.ceil (D.sqrt (D.of_ℕ n)))) (omega (arith, less))
