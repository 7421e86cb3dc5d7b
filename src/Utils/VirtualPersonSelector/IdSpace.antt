-- ===== src/Utils/VirtualPersonSelector/IdSpace.antt =====
-- The id space of a list of pools: the specification of the selector.
use virtual_people_core_serv.Prelude.{
  ℕ, ◌+◌, ◌-◌, ◌^◌, ◌≤◌, ◌<◌, ◌≡◌, ◌⊎◌, inl, inr, List, [], ◌∷◌, Option, none, some, arith, ltb,
  if◌then◌else◌, Bool-cases, ltb→lt, ltb_false→le,
}
use virtual_people_core_serv.Utils.VirtualPersonSelector.{VirtualPersonPool}

abbrev pub population : List VirtualPersonPool → ℕ
population [] = 0
population (pool ∷ pools) = pool.total_population + population pools

-- The entry of the id space at an index: the specification of the selector.
abbrev pub nth_person : List VirtualPersonPool → ℕ → Option ℕ
nth_person [] i = none
nth_person (pool ∷ pools) i =
    if ltb i pool.total_population
    then some (pool.population_offset + i)
    else nth_person pools (i - pool.total_population)

-- The id range of a pool fits a uint64_t.
abbrev pub Fits : VirtualPersonPool → Type 0
Fits pool = pool.population_offset + pool.total_population ≤ 2 ^ 64

-- The id is in the range of one of the pools.
abbrev pub InSpace : ℕ → List VirtualPersonPool → Type 0
InSpace v [] = ⊥
InSpace v (pool ∷ pools) =
    ((pool.population_offset ≤ v) × (v < pool.population_offset + pool.total_population))
    ⊎ InSpace v pools

pub nth_person-InSpace :
    (pools : List VirtualPersonPool) (i : ℕ)
    → i < population pools
    → (v : ℕ) × (nth_person pools i ≡ some v) × InSpace v pools
nth_person-InSpace [] i h = absurd (omega arith)
nth_person-InSpace (p ∷ pools) i h = elim (Bool-cases (ltb i p.total_population)) [
  | inl here ↦ (
    p.population_offset + i,
    rw here,
    inl (omega arith, omega (arith, ltb→lt i p.total_population here)),
  )
  | inr later ↦
      let le = ltb_false→le i p.total_population later in
      let (v, e, inside) = nth_person-InSpace pools (i - p.total_population) (omega arith) in
      (v, rw later e, inr inside)
]
