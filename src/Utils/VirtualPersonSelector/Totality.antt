-- ===== src/Utils/VirtualPersonSelector/Totality.antt =====
-- A selector that is built has an id for every index and every seed.
use virtual_people_core_serv.Prelude.{
  ℕ, ◌^◌, ◌≤◌, ◌≡◌, refl, ◌⊎◌, inl, inr, false, List, [], ◌∷◌, some, ok, arith, Bool-cases, ◌==◌,
  ltb, of_int32, ok-injective, subst,
}
use virtual_people_core_serv.External.Doubles.{Doubles, RoundsMonotonically}
use virtual_people_core_serv.Utils.ConsistentHash.Bounds.{jump_consistent_hash-to_int32}
use virtual_people_core_serv.Utils.VirtualPersonSelector.{
  VirtualPersonPool, VirtualPersonIdPool, VirtualPersonSelector, compile_pools, build,
  prev_upper_bound, person_id, id_of_index, get_virtual_person_id,
}

-- The first pool starts at the index.
abbrev pub StartsAt : ℕ → List VirtualPersonIdPool → Type 0
StartsAt index [] = ⊥
StartsAt index (pool ∷ pools) = pool.population_index_offset ≡ index

compile_pools-StartsAt :
    (pools : List VirtualPersonPool) (total : ℕ)
    → ((compile_pools pools total).1 ≡ total) ⊎ StartsAt total (compile_pools pools total).0
unfolding compile_pools
compile_pools-StartsAt [] total = inl refl
compile_pools-StartsAt (pool ∷ pools) total = elim (Bool-cases (pool.total_population == 0)) [
  | inl empty ↦ rw (empty, compile_pools) (compile_pools-StartsAt pools total)
  | inr filled ↦ inr (rw (filled, compile_pools) refl)
]

pub build-StartsAt :
    (pools : List VirtualPersonPool) (selector : VirtualPersonSelector)
    → build pools ≡ ok selector
    → StartsAt 0 selector.pools
unfolding build
build-StartsAt pools selector e = elim (Bool-cases ((compile_pools pools 0).1 == 0)) [
  | inl empty ↦ cc (rw (empty, build) at e)
  | inr filled ↦
      let built = ok-injective (rw (filled, build) at e) in
      elim (compile_pools-StartsAt pools 0) [
        | inl none_left ↦ absurd (ground arith)
        | inr starts ↦ subst (λ s. StartsAt 0 s.pools) built starts
      ]
]

prev_upper_bound_total :
    (index : ℕ) (before : VirtualPersonIdPool) (pools : List VirtualPersonIdPool)
    → (pool : VirtualPersonIdPool) × (prev_upper_bound index (some before) pools ≡ some pool)
unfolding prev_upper_bound
prev_upper_bound_total index before [] = (before, refl)
prev_upper_bound_total index before (pool ∷ pools) =
    elim (Bool-cases (ltb index pool.population_index_offset)) [
      | inl early ↦ (before, rw (early, prev_upper_bound) refl)
      | inr late ↦ rw (late, prev_upper_bound) (prev_upper_bound_total index pool pools)
    ]

pub id_of_index_total :
    (pools : List VirtualPersonIdPool) (index : ℕ)
    → StartsAt 0 pools
    → (id : ℕ) × (id_of_index pools index ≡ some id)
unfolding id_of_index prev_upper_bound
id_of_index_total [] index h = absurd h
id_of_index_total (pool ∷ pools) index h =
    let (found, e) = prev_upper_bound_total index pool pools in
    let late : ltb index pool.population_index_offset ≡ false = ground arith in
    (person_id index found, rw (late, e) refl)

pub get_virtual_person_id_total :
    (D : Doubles) (rounds : RoundsMonotonically D) (fuel : ℕ) (selector : VirtualPersonSelector)
    (seed : ℕ)
    → 2 ^ 32 ≤ fuel
    → StartsAt 0 selector.pools
    → (id : ℕ) × (get_virtual_person_id D fuel selector seed ≡ some id)
unfolding get_virtual_person_id
get_virtual_person_id_total D rounds fuel selector seed enough starts =
    let (bucket, e) =
      jump_consistent_hash-to_int32 D rounds fuel seed selector.total_population enough in
    let (id, found) = id_of_index_total selector.pools (of_int32 bucket) starts in
    (id, rw (e, get_virtual_person_id, found) refl)
