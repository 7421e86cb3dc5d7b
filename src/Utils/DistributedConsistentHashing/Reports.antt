-- ===== src/Utils/DistributedConsistentHashing/Reports.antt =====
-- Build ends with a distribution or a reported error.
use virtual_people_core_serv.Prelude.{
  List, [], ◌∷◌, inl, inr, Bool-cases, Returns-ok, Returns-err, Reported, report_rules,
}
use virtual_people_core_serv.External.Doubles.{Doubles}
use virtual_people_core_serv.Utils.DistributedConsistentHashing.{
  DistributionChoice, sum_probabilities, build,
}

module _ (D : Doubles) where
  sum_probabilities-IsReported :
      (cs : List (DistributionChoice D)) (sum : D.Double) → Reported (sum_probabilities D cs sum)
  unfolding sum_probabilities
  sum_probabilities-IsReported [] sum = Returns-ok sum tt
  sum_probabilities-IsReported (c ∷ cs) sum = elim (Bool-cases (D.lt c.probability (D.of_ℕ 0))) [
    | inl negative ↦ rw (negative, sum_probabilities) (Returns-err _ tt)
    | inr fine ↦ rw (fine, sum_probabilities) (sum_probabilities-IsReported cs _)
  ]

  pub build-IsReported : (cs : List (DistributionChoice D)) → Reported (build D cs)
  unfolding build
  build-IsReported [] = Returns-err _ tt
  build-IsReported (c ∷ cs) = search (report_rules, sum_probabilities-IsReported)
