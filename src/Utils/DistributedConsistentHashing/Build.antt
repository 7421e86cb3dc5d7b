-- ===== src/Utils/DistributedConsistentHashing/Build.antt =====
-- When Build succeeds.
use virtual_people_core_serv.Prelude.{
  ℕ, ◌≡◌, refl, sym, ap, ◌∙◌, inl, inr, ◌≢◌, ◌↔◌, false, List, [], ◌∷◌, map, ok, err, All, arith,
  Bool-cases, invalid_argument, not_summing_to_one, if◌then◌else◌, >>=-eq-ok, subst,
}
use virtual_people_core_serv.External.Doubles.{Doubles}
use virtual_people_core_serv.Utils.DistributedConsistentHashing.{
  DistributionChoice, sum_probabilities, normalize, normalize_error, is_off, build,
}
use virtual_people_core_serv.Utils.DistributedConsistentHashing.Selection.{Numbered}

module _ (D : Doubles) where
  -- The sum of the probabilities, from the left.
  abbrev pub sum_from : D.Double → List (DistributionChoice D) → D.Double
  sum_from sum [] = sum
  sum_from sum (c ∷ cs) = sum_from (D.add sum c.probability) cs

  abbrev pub NonNegative : List (DistributionChoice D) → Type 0
  NonNegative = All (λ c. D.lt c.probability (D.of_ℕ 0) ≡ false)

  -- The sum lies from 1 - 1 / 10000000 to 1 + 1 / 10000000.
  abbrev pub NearOne : D.Double → Type 0
  NearOne sum =
      (D.lt sum (D.sub (D.of_ℕ 1) (D.ratio 1 10000000)) ≡ false)
      × (D.lt (D.add (D.of_ℕ 1) (D.ratio 1 10000000)) sum ≡ false)

  -- The choices with each probability divided by the sum.
  abbrev pub divided : D.Double → List (DistributionChoice D) → List (DistributionChoice D)
  divided sum [] = []
  divided sum (c ∷ cs) =
      record { choice_id = c.choice_id; probability = D.div c.probability sum } ∷ divided sum cs

  normalize-divided :
      (sum : D.Double) (cs : List (DistributionChoice D))
      → map (normalize D sum) cs ≡ divided sum cs
  unfolding normalize
  normalize-divided sum [] = refl
  normalize-divided sum (c ∷ cs) = ap (λ ds. normalize D sum c ∷ ds) (normalize-divided sum cs)

  is_off-NearOne : (sum : D.Double) → (is_off D sum ≡ false) ↔ NearOne sum
  unfolding is_off normalize_error
  is_off-NearOne sum = ground arith

  sum-NonNegative :
      (cs : List (DistributionChoice D)) (s : D.Double)
      → NonNegative cs
      → sum_probabilities D cs s ≡ ok (sum_from s cs)
  unfolding sum_probabilities
  sum-NonNegative [] s all = refl
  sum-NonNegative (c ∷ cs) s all =
      rw (all.0, sum_probabilities) (sum-NonNegative cs (D.add s c.probability) all.1)

  NonNegative-of_ok :
      (cs : List (DistributionChoice D)) (s : D.Double) {t : D.Double}
      → sum_probabilities D cs s ≡ ok t
      → NonNegative cs × (t ≡ sum_from s cs)
  unfolding sum_probabilities
  NonNegative-of_ok [] s e = (tt, ground arith)
  NonNegative-of_ok (c ∷ cs) s e = elim (Bool-cases (D.lt c.probability (D.of_ℕ 0))) [
    | inl neg ↦ cc (rw (neg, sum_probabilities) at e)
    | inr fine ↦
        let (rest, total) =
          NonNegative-of_ok cs (D.add s c.probability) (rw (fine, sum_probabilities) at e) in
        ((fine, rest), total)
  ]

  normal_of_ok :
      (sum : D.Double) (cs ds : List (DistributionChoice D))
      → (if is_off D sum
          then err (invalid_argument not_summing_to_one)
          else ok (map (normalize D sum) cs))
        ≡ ok ds
      → (is_off D sum ≡ false) × (ds ≡ map (normalize D sum) cs)
  normal_of_ok sum cs ds e = ground arith

  -- Build of a distribution succeeds exactly where it is not empty, no probability is negative,
  -- and the sum from the left is neither below 1 - 1 / 10000000 nor above 1 + 1 / 10000000, and
  -- then gives each choice with its id and its probability divided by the sum.
  pub build_iff :
      (cs ds : List (DistributionChoice D))
      → (build D cs ≡ ok ds) ↔ (
          (cs ≢ [])
          × NonNegative cs
          × NearOne (sum_from (D.of_ℕ 0) cs)
          × (ds ≡ divided (sum_from (D.of_ℕ 0) cs) cs))
  unfolding build
  build_iff [] ds = ((λ e. cc), (λ h. absurd (h.0 refl)))
  build_iff (c ∷ cs) ds = (forth, back)
    where
      all : List (DistributionChoice D)
      all = c ∷ cs

      forth :
          build D (c ∷ cs) ≡ ok ds
          → (all ≢ [])
            × NonNegative all
            × NearOne (sum_from (D.of_ℕ 0) all)
            × (ds ≡ divided (sum_from (D.of_ℕ 0) all) all)
      forth e =
          let (sum, summed, rest) = >>=-eq-ok (sum_probabilities D all (D.of_ℕ 0)) _ e in
          let (nonneg, total) = NonNegative-of_ok all (D.of_ℕ 0) summed in
          let (near, result) = normal_of_ok sum all ds rest in
          (
            (λ empty. cc),
            nonneg,
            (is_off-NearOne _).0 (ap (is_off D) (sym total) ∙ near),
            result ∙ ap (λ s. map (normalize D s) all) total ∙ normalize-divided _ all,
          )

      back :
          (all ≢ [])
            × NonNegative all
            × NearOne (sum_from (D.of_ℕ 0) all)
            × (ds ≡ divided (sum_from (D.of_ℕ 0) all) all)
          → build D (c ∷ cs) ≡ ok ds
      back h =
          rw (sum-NonNegative all (D.of_ℕ 0) h.1, (is_off-NearOne _).1 h.2, h.3)
            (ap ok (normalize-divided _ all))

  divided-Numbered :
      (n : ℕ) (s : D.Double) (cs : List (DistributionChoice D))
      → Numbered D n cs
      → Numbered D n (divided s cs)
  divided-Numbered n s [] all = tt
  divided-Numbered n s (c ∷ cs) all = (all.0, divided-Numbered n s cs all.1)

  -- Build keeps the ids of the choices.
  pub build-Numbered :
      (n : ℕ) (cs ds : List (DistributionChoice D))
      → build D cs ≡ ok ds
      → Numbered D n cs
      → Numbered D n ds
  build-Numbered n cs ds e all =
      subst (Numbered D n) (sym ((build_iff cs ds).0 e).3) (divided-Numbered n _ cs all)
