-- ===== src/External/Doubles.antt =====
-- IEEE 754 doubles and the functions of <cmath> that the program calls.
use virtual_people_core_serv.Prelude.{ℕ, ◌-◌, ◌*◌, ◌^◌, ◌≤◌, ◌<◌, ◌≡◌, Bool, true, false, Option}

pub record Doubles : Type 1 where
  pub Double : Type 0
  -- `a < b`; false where one of them is not a number.
  pub lt : Double → Double → Bool
  pub le : Double → Double → Bool
  pub eq : Double → Double → Bool
  -- A decimal literal n / d, and the conversion of a number that is not negative.
  pub ratio : ℕ → ℕ → Double
  pub of_ℕ : ℕ → Double
  -- static_cast<uint64_t>, static_cast<int64_t> of a value that is not negative.
  pub to_ℕ : Double → ℕ
  -- static_cast<int>, static_cast<uint64_t> of a value that may be too large for the type or not a
  -- number, which C++ leaves undefined: none. A value that is not negative converts to its integral
  -- part where the type holds it.
  pub to_int : Double → Option ℕ
  pub to_uint64 : Double → Option ℕ
  pub add : Double → Double → Double
  pub sub : Double → Double → Double
  pub mul : Double → Double → Double
  pub div : Double → Double → Double
  pub neg : Double → Double
  pub log : Double → Double
  -- std::log of a float, which is a float.
  pub log_float : Double → Double
  pub sqrt : Double → Double
  pub ceil : Double → Double
  pub floor : Double → Double
  -- std::numeric_limits<double>::max()
  pub largest : Double

-- The order of the doubles that are numbers; a value that is not a number is below none.
pub record IsOrder (D : Doubles) : Type 0 where
  pub lt_irrefl : (a : D.Double) → D.lt a a ≡ false
  pub lt_trans : (a b c : D.Double) → D.lt a b ≡ true → D.lt b c ≡ true → D.lt a c ≡ true

-- On integers that a double holds exactly, sqrt and ceil give the ceiling of the square root.
pub record SqrtIsExact (D : Doubles) : Type 0 where
  pub ceil_sqrt_covers :
      (n : ℕ) → n < 2 ^ 52 → let r = D.to_ℕ (D.ceil (D.sqrt (D.of_ℕ n))) in n ≤ r * r
  pub ceil_sqrt_least :
      (n : ℕ)
      → n < 2 ^ 52
      → 0 < n
      → let r = D.to_ℕ (D.ceil (D.sqrt (D.of_ℕ n))) in (r - 1) * (r - 1) < n

-- Rounding is monotone: a quotient, a product and a truncation keep the bounds that the exact
-- result has, for the sizes that are named, where a bound is the double nearest to an integer.
pub record RoundsMonotonically (D : Doubles) : Type 0 where
  pub div_bounds :
      (n k : ℕ)
      → 0 < k
      → k ≤ n
      → n < 2 ^ 53
      → (D.le (D.of_ℕ 1) (D.div (D.of_ℕ n) (D.of_ℕ k)) ≡ true)
        × (D.le (D.div (D.of_ℕ n) (D.of_ℕ k)) (D.of_ℕ n) ≡ true)
  pub mul_bounds :
      (a m : ℕ) (q : D.Double)
      → a ≤ 2 ^ 31
      → m ≤ 2 ^ 31
      → D.le (D.of_ℕ 1) q ≡ true
      → D.le q (D.of_ℕ m) ≡ true
      → (D.le (D.of_ℕ a) (D.mul (D.of_ℕ a) q) ≡ true)
        × (D.le (D.mul (D.of_ℕ a) q) (D.of_ℕ (a * m)) ≡ true)
  pub trunc_ge :
      (a b : ℕ) (x : D.Double)
      → a < 2 ^ 53
      → b ≤ 2 ^ 62
      → D.le (D.of_ℕ a) x ≡ true
      → D.le x (D.of_ℕ b) ≡ true
      → a ≤ D.to_ℕ x
