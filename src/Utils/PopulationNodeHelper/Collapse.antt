-- ===== src/Utils/PopulationNodeHelper/Collapse.antt =====
-- The label that is read is always there.
use Prim.Native.String.{String, ◌++◌}
use virtual_people_core_serv.Prelude.{
  ℕ, suc, ◌+◌, ◌<◌, ◌≤◌, ◌≡◌, List, [], ◌∷◌, ok, length, arith, Option, some, get_elem?,
  get_elem?_total, ◌==◌, true, false,
}
use virtual_people_core_serv.External.Doubles.{Doubles}
use virtual_people_core_serv.External.Events.{Platform, QuantumLabel}
use virtual_people_core_serv.Utils.DistributedConsistentHashing.{DistributionChoice, build, hash}
use virtual_people_core_serv.Utils.DistributedConsistentHashing.Build.{build-Numbered}
use virtual_people_core_serv.Utils.DistributedConsistentHashing.Selection.{Numbered, hash-lt}
use virtual_people_core_serv.Utils.PopulationNodeHelper.{
  number_choices, merge_into, collapse_quantum_label,
}

pub number_choices-Numbered :
    (D : Doubles) (index n : ℕ) (ps : List D.Double)
    → index + length ps ≤ n
    → Numbered D n (number_choices D index ps)
unfolding number_choices
number_choices-Numbered D index n [] h = tt
number_choices-Numbered D index n (p ∷ ps) h =
    (omega arith, number_choices-Numbered D (suc index) n ps (omega arith))

-- The hashing built of numbered choices hashes below their number.
pub hash-lt-length :
    (P : Platform) (ps : List P.doubles.Double) (hashing : List (DistributionChoice P.doubles))
    (seed : String)
    → build P.doubles (number_choices P.doubles 0 ps) ≡ ok hashing
    → 0 < length ps
    → hash P.doubles P.hashing hashing seed < length ps
hash-lt-length P ps hashing seed e h =
    hash-lt P.doubles P.hashing seed (length ps) hashing
      (build-Numbered P.doubles (length ps) _ hashing e
        (number_choices-Numbered P.doubles 0 (length ps) ps (omega arith)))
      h

module _ (P : Platform) where
  -- CollapseQuantumLabel of a quantum label with at least one label, as many probabilities as
  -- labels, and probabilities that Build accepts, merges in the label at the index that Hash
  -- gives for the seed and the suffix, which is always one of the labels.
  pub collapse_quantum_label-chosen :
      (q : QuantumLabel P) (seed_suffix : String) (output : Option P.Label)
      (hashing : List (DistributionChoice P.doubles))
      → 0 < length q.labels
      → length q.labels ≡ length q.probabilities
      → build P.doubles (number_choices P.doubles 0 q.probabilities) ≡ ok hashing
      → (label : P.Label) × (get_elem? q.labels
            (hash P.doubles P.hashing hashing ("quantum-label-collapse-" ++ q.seed ++ seed_suffix))
          ≡ some label)
        × (collapse_quantum_label P q seed_suffix output ≡ ok (merge_into P output label))
  unfolding collapse_quantum_label
  collapse_quantum_label-chosen q seed_suffix output hashing pos same built =
      let seed = "quantum-label-collapse-" ++ q.seed ++ seed_suffix in
      let lt = hash-lt-length P q.probabilities hashing seed built (omega arith) in
      let (label, found) =
        get_elem?_total q.labels (hash P.doubles P.hashing hashing seed) (omega (arith, lt)) in
      let filled : (length q.labels == 0) ≡ false = ground arith in
      let equal : (length q.labels == length q.probabilities) ≡ true = ground arith in
      (label, found, rw (filled, equal, built, found))
