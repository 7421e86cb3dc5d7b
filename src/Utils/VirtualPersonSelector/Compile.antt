-- ===== src/Utils/VirtualPersonSelector/Compile.antt =====
-- The compiled pools resolve an index as the id space does.
use virtual_people_core_serv.Prelude.{
  ℕ, ◌+◌, ◌-◌, ◌^◌, ◌≤◌, ◌<◌, ◌≡◌, refl, ap, ◌∙◌, inl, inr, true, false, List, [], ◌∷◌, Option,
  none, some, arith, ltb, ◌==◌, Bool-cases, All, add64, sub64, add64_exact, le→ltb_false, lt→ltb,
  ltb→lt, ltb_false→le,
}
use virtual_people_core_serv.Utils.VirtualPersonSelector.IdSpace.{population, nth_person, Fits}
use virtual_people_core_serv.Utils.VirtualPersonSelector.{
  VirtualPersonPool, VirtualPersonIdPool, compile_pools, prev_upper_bound, person_id, id_in,
  id_of_index,
}

pub sum-compile_pools :
    (pools : List VirtualPersonPool) (total : ℕ)
    → total + population pools < 2 ^ 64
    → (compile_pools pools total).1 ≡ total + population pools
unfolding compile_pools
sum-compile_pools [] total h = omega arith
sum-compile_pools (p ∷ pools) total h = ground (
  arith,
  sum-compile_pools pools total,
  sum-compile_pools pools (add64 total p.total_population),
  add64_exact total p.total_population,
)

-- An index below the first compiled pool stays with the pool before.
before_first :
    (pools : List VirtualPersonPool) (total i : ℕ) (before : Option VirtualPersonIdPool)
    → i < total
    → prev_upper_bound i before (compile_pools pools total).0 ≡ before
unfolding compile_pools prev_upper_bound
before_first [] total i before h = refl
before_first (p ∷ pools) total i before h = ground (arith, before_first pools total i before)

person_id_exact :
    (i index offset : ℕ)
    → index ≤ i
    → i - index + offset < 2 ^ 64
    → i < 2 ^ 64
    → person_id i (record { virtual_people_id_offset = offset; population_index_offset = index })
      ≡ offset + (i - index)
unfolding person_id sub64 add64
person_id_exact i index offset le fits small = omega arith

compile_empty :
    (p : VirtualPersonPool) (pools : List VirtualPersonPool) (total : ℕ)
    → (p.total_population == 0) ≡ true
    → compile_pools (p ∷ pools) total ≡ compile_pools pools total
unfolding compile_pools
compile_empty p pools total h = ground arith

compile_filled :
    (p : VirtualPersonPool) (pools : List VirtualPersonPool) (total : ℕ)
    → (p.total_population == 0) ≡ false
    → total + p.total_population < 2 ^ 64
    → (compile_pools (p ∷ pools) total).0
      ≡ record { virtual_people_id_offset = p.population_offset; population_index_offset = total }
        ∷ (compile_pools pools (total + p.total_population)).0
unfolding compile_pools
compile_filled p pools total h fits =
    rw (← add64_exact total p.total_population fits) (ground arith)

nth_skip :
    (p : VirtualPersonPool) (pools : List VirtualPersonPool) (i j : ℕ)
    → p.total_population ≤ i
    → i - p.total_population ≡ j
    → nth_person (p ∷ pools) i ≡ nth_person pools j
nth_skip p pools i j le e = rw (le→ltb_false i p.total_population le, e) refl

prev_step :
    (i : ℕ) (before : Option VirtualPersonIdPool) (pool : VirtualPersonIdPool)
    (pools : List VirtualPersonIdPool)
    → pool.population_index_offset ≤ i
    → prev_upper_bound i before (pool ∷ pools) ≡ prev_upper_bound i (some pool) pools
unfolding prev_upper_bound
prev_step i before pool pools le = rw (le→ltb_false i pool.population_index_offset le) refl

abbrev entry : VirtualPersonPool → ℕ → VirtualPersonIdPool
entry p total = record {
  virtual_people_id_offset = p.population_offset;
  population_index_offset = total;
}

-- An index inside the first pool.
resolve_here :
    (p : VirtualPersonPool) (pools : List VirtualPersonPool) (total i : ℕ)
    → total ≤ i
    → i < total + p.total_population
    → total + p.total_population < 2 ^ 64
    → Fits p
    → id_in
        (prev_upper_bound i
          (some (entry p total))
          (compile_pools pools (total + p.total_population)).0)
        i
      ≡ nth_person (p ∷ pools) (i - total)
resolve_here p pools total i le lt small fit =
    rw
      (
        before_first pools (total + p.total_population) i (some (entry p total)) lt,
        person_id_exact i total p.population_offset le (omega arith) (omega arith),
        lt→ltb (i - total) p.total_population (omega arith),
      )
      refl

-- From the population `total` on, an index is resolved as in the id space of the pools left.
resolve-compile :
    (pools : List VirtualPersonPool) (total i : ℕ) (before : Option VirtualPersonIdPool)
    → total ≤ i
    → i < total + population pools
    → total + population pools < 2 ^ 64
    → All Fits pools
    → id_in (prev_upper_bound i before (compile_pools pools total).0) i
      ≡ nth_person pools (i - total)
resolve-compile [] total i before le lt small fit = absurd (omega arith)
resolve-compile (p ∷ pools) total i before le lt small fit =
    elim (Bool-cases (p.total_population == 0)) [
      | inl empty ↦
          let zero_size : p.total_population ≡ 0 = ground arith in
          rw
            (
              compile_empty p pools total empty,
              nth_skip p pools (i - total) (i - total) (omega arith) (omega arith),
            )
            (resolve-compile pools total i before le (omega arith) (omega arith) fit.1)
      | inr filled ↦
          rw
            (
              compile_filled p pools total filled (omega arith),
              prev_step i before (entry p total) _ le,
            )
            (elim (Bool-cases (ltb i (total + p.total_population))) [
              | inl here ↦ resolve_here p pools total i le (ltb→lt _ _ here) (omega arith) fit.0
              | inr later ↦
                  let le' = ltb_false→le i (total + p.total_population) later in
                  rw
                    (nth_skip p pools (i - total) (i - (total + p.total_population)) (omega arith)
                      (omega arith))
                    (resolve-compile pools (total + p.total_population) i (some (entry p total)) le'
                      (omega arith) (omega arith) fit.1)
            ])
    ]

-- Through the compiled pools an index is resolved as in the id space.
pub id_of_index-nth_person :
    (pools : List VirtualPersonPool) (i : ℕ)
    → i < population pools
    → population pools < 2 ^ 64
    → All Fits pools
    → id_of_index (compile_pools pools 0).0 i ≡ nth_person pools i
unfolding id_of_index
id_of_index-nth_person pools i lt small fit =
    let start : i - 0 ≡ i = omega arith in
    resolve-compile pools 0 i none (omega arith) (omega arith) (omega arith) fit
    ∙ ap (nth_person pools) start
