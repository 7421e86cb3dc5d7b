-- ===== src/Utils/PopulationNodeHelper.antt =====
-- utils/population_node_helper.cc.
pub mod Collapse
pub mod Reports
use Prim.Native.String.{String, ◌++◌}
use virtual_people_core_serv.Prelude.{
  ℕ, zero, suc, Bool, true, false, not, List, [], ◌∷◌, Option, none, some, Result, ok, err, ◌>>=◌,
  ◌>>◌, guard, invalid_argument, undefined, empty_quantum_label, quantum_label_sizes, or_error,
  length, get_elem?, ◌==◌,
}
use virtual_people_core_serv.External.Doubles.{Doubles}
use virtual_people_core_serv.External.Events.{Platform, QuantumLabel}
use virtual_people_core_serv.Utils.DistributedConsistentHashing.{DistributionChoice, build, hash}

-- The choices of a list of probabilities, numbered from `index`.
unfoldable pub number_choices : (D : Doubles) → ℕ → List D.Double → List (DistributionChoice D)
number_choices D index [] = []
number_choices D index (p ∷ ps) =
    record { choice_id = index; probability = p } ∷ number_choices D (suc index) ps

-- `mutable_label()` and MergeFrom.
abbrev pub merge_into : (P : Platform) → Option P.Label → P.Label → Option P.Label
merge_into P none label = some (P.merge_label P.empty_label label)
merge_into P (some old) label = some (P.merge_label old label)

module _ (P : Platform) where
  unfoldable pub collapse_quantum_label :
      QuantumLabel P → String → Option P.Label → Result (Option P.Label)
  collapse_quantum_label quantum_label seed_suffix output_label = do
    guard (not (length quantum_label.labels == 0)) (invalid_argument empty_quantum_label)
    guard (length quantum_label.labels == length quantum_label.probabilities)
        (invalid_argument quantum_label_sizes)
    hashing ← build P.doubles (number_choices P.doubles 0 quantum_label.probabilities)
    let seed = "quantum-label-collapse-" ++ quantum_label.seed ++ seed_suffix
    label ←
        or_error (get_elem? quantum_label.labels (hash P.doubles P.hashing hashing seed)) undefined
    ok (merge_into P output_label label)

  -- The loop over the quantum labels of an event.
  unfoldable pub collapse_all :
      List (QuantumLabel P) → String → Option P.Label → Result (Option P.Label)
  collapse_all [] seed_suffix label = ok label
  collapse_all (quantum_label ∷ rest) seed_suffix label = do
    label' ← collapse_quantum_label quantum_label seed_suffix label
    collapse_all rest seed_suffix label'
