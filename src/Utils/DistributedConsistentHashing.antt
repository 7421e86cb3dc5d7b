-- ===== src/Utils/DistributedConsistentHashing.antt =====
-- utils/distributed_consistent_hashing.cc. Every caller numbers its choices from 0, so a choice's
-- id is a number.
pub mod Selection
pub mod Build
pub mod Reports
use Prim.Native.String.{String, ◌++◌}
use virtual_people_core_serv.Prelude.{
  ℕ, Bool, true, false, ◌||◌, List, [], ◌∷◌, map, Result, ok, err, ◌>>=◌, invalid_argument,
  empty_distribution, negative_probability, not_summing_to_one, if◌then◌else◌,
}
use virtual_people_core_serv.External.Doubles.{Doubles}
use virtual_people_core_serv.External.Hashing.{Hashing}
use virtual_people_core_serv.Utils.Hash.{exp_hash}

module _ (D : Doubles) where
  pub record DistributionChoice : Type 0 where
    pub choice_id : ℕ
    pub probability : D.Double

  -- kNormalizeError
  pub normalize_error : D.Double
  normalize_error = D.ratio 1 10000000

  -- The loop that checks and sums the probabilities.
  pub sum_probabilities : List DistributionChoice → D.Double → Result D.Double
  sum_probabilities [] sum = ok sum
  sum_probabilities (choice ∷ rest) sum = elim (D.lt choice.probability (D.of_ℕ 0)) [
    | true ↦ err (invalid_argument negative_probability)
    | false ↦ sum_probabilities rest (D.add sum choice.probability)
  ]

  pub normalize : D.Double → DistributionChoice → DistributionChoice
  normalize sum choice = record choice { probability = D.div choice.probability sum }

  -- Whether the sum is away from 1.
  pub is_off : D.Double → Bool
  unfolding normalize_error
  is_off sum =
      D.lt sum (D.sub (D.of_ℕ 1) normalize_error) || D.lt (D.add (D.of_ℕ 1) normalize_error) sum

  unfoldable pub build : List DistributionChoice → Result (List DistributionChoice)
  unfolding sum_probabilities normalize is_off
  build [] = err (invalid_argument empty_distribution)
  build (choice ∷ rest) = do
    sum ← sum_probabilities (choice ∷ rest) (D.of_ℕ 0)
    if is_off sum
        then err (invalid_argument not_summing_to_one)
        else ok (map (normalize sum) (choice ∷ rest))

  module _ (H : Hashing) where
    unfoldable pub get_full_seed : String → ℕ → String
    get_full_seed random_seed choice =
        "consistent-hashing-" ++ random_seed ++ "-" ++ H.decimal choice

    unfoldable pub compute_xi : String → DistributionChoice → D.Double
    compute_xi random_seed choice =
        D.div (exp_hash D H (get_full_seed random_seed choice.choice_id)) choice.probability

    -- The loop of Hash over the choices left.
    unfoldable pub hash_loop : String → List DistributionChoice → ℕ → D.Double → ℕ
    hash_loop random_seed [] choice_id choice_xi = choice_id
    hash_loop random_seed (choice ∷ rest) choice_id choice_xi =
        let xi = compute_xi random_seed choice in
        elim (D.lt xi choice_xi) [
          | true ↦ hash_loop random_seed rest choice.choice_id xi
          | false ↦ hash_loop random_seed rest choice_id choice_xi
        ]

    unfoldable pub hash : List DistributionChoice → String → ℕ
    hash distribution random_seed = hash_loop random_seed distribution 0 D.largest
