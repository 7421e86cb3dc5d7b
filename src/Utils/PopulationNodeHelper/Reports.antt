-- ===== src/Utils/PopulationNodeHelper/Reports.antt =====
-- Quantum labels are merged or refused with a reported error.
use Prim.Native.String.{String, ◌++◌}
use virtual_people_core_serv.Prelude.{
  ◌<◌, ◌≡◌, not, List, [], ◌∷◌, Option, length, arith, get_elem?_total, ◌==◌, guard, Returns-ok,
  Returns->>=, Returns-guard, IsReported, invalid_argument, empty_quantum_label,
  quantum_label_sizes, Reported,
}
use virtual_people_core_serv.Utils.DistributedConsistentHashing.Reports.{build-IsReported}
use virtual_people_core_serv.External.Events.{Platform, QuantumLabel}
use virtual_people_core_serv.Utils.DistributedConsistentHashing.{build, hash}
use virtual_people_core_serv.Utils.PopulationNodeHelper.{
  number_choices, collapse_quantum_label, collapse_all,
}
use virtual_people_core_serv.Utils.PopulationNodeHelper.Collapse.{hash-lt-length}

module _ (P : Platform) where
  collapse_quantum_label-IsReported :
      (q : QuantumLabel P) (seed_suffix : String) (output : Option P.Label)
      → Reported (collapse_quantum_label P q seed_suffix output)
  unfolding collapse_quantum_label
  collapse_quantum_label-IsReported q seed_suffix output =
      Returns->>= (guard (not (length q.labels == 0)) (invalid_argument empty_quantum_label)) _
        (Returns-guard IsReported _ _ tt)
        (λ _ _ filled.
          Returns->>=
            (guard (length q.labels == length q.probabilities)
              (invalid_argument quantum_label_sizes))
            _ (Returns-guard IsReported _ _ tt)
            (λ _ _ same.
              Returns->>= (build P.doubles (number_choices P.doubles 0 q.probabilities)) _
                (build-IsReported P.doubles _)
                (λ hashing built _.
                  let seed = "quantum-label-collapse-" ++ q.seed ++ seed_suffix in
                  let positive : 0 < length q.labels = ground (arith, filled) in
                  let equal : length q.labels ≡ length q.probabilities = ground (arith, same) in
                  let lt =
                    hash-lt-length P q.probabilities hashing seed built
                      (omega (arith, positive, equal)) in
                  let (label, found) =
                    get_elem?_total q.labels (hash P.doubles P.hashing hashing seed)
                      (omega (arith, lt, equal)) in
                  rw found (Returns-ok _ tt))))

  pub collapse_all-IsReported :
      (qs : List (QuantumLabel P)) (seed_suffix : String) (output : Option P.Label)
      → Reported (collapse_all P qs seed_suffix output)
  unfolding collapse_all
  collapse_all-IsReported [] seed_suffix output = Returns-ok _ tt
  collapse_all-IsReported (q ∷ qs) seed_suffix output =
      Returns->>= (collapse_quantum_label P q seed_suffix output) _
        (collapse_quantum_label-IsReported q seed_suffix output)
        (λ label _ _. collapse_all-IsReported qs seed_suffix label)
