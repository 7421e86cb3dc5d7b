-- ===== src/Tests/Caching.antt =====
-- Runs of the cache.
use virtual_people_core_serv.Prelude.{ℕ, ◌⊎◌, [], ◌∷◌, some, ok, ◌≡◌, refl, arith, ◌==◌, ==_iff}
use virtual_people_core_serv.Selector.LruCache.{LruCache, lookup, add, get}
use virtual_people_core_serv.Selector.LruCache.Invariant.{IsValid}
use virtual_people_core_serv.Selector.LruCache.Operations.{add-IsValid, get-IsValid}

abbrev full_cache : LruCache ℕ ℕ
full_cache = record { cache_data = (1, 10) ∷ (2, 20) ∷ []; access_order = 2 ∷ 1 ∷ []; capacity = 2 }

full_cache-IsValid : IsValid full_cache
full_cache-IsValid = record {
  order_distinct = ((λ m. ground arith), ((λ m. m), tt));
  data_distinct = ((λ m. ground arith), ((λ m. m), tt));
  keys_in_order = λ k m. ground arith;
  order_in_keys = λ k m. ground arith;
  size_same = refl;
  size_le = omega arith;
}

add-IsValid_example :
    (c' : LruCache ℕ ℕ) × (add ◌==◌ full_cache 3 30 ≡ ok c')
    × IsValid c'
    × (c'.capacity ≡ 2)
    × ((k v : ℕ)
        → lookup ◌==◌ k c'.cache_data ≡ some v
        → ((k ≡ 3) × (v ≡ 30)) ⊎ (lookup ◌==◌ k full_cache.cache_data ≡ some v))
add-IsValid_example =
    add-IsValid ◌==◌ ==_iff full_cache 3 30 full_cache-IsValid (omega arith) (λ m. ground arith)

get-IsValid_example :
    (c' : LruCache ℕ ℕ) × (get ◌==◌ full_cache 1 ≡ (lookup ◌==◌ 1 full_cache.cache_data, c'))
    × IsValid c'
    × (c'.cache_data ≡ full_cache.cache_data)
    × (c'.capacity ≡ 2)
get-IsValid_example = get-IsValid ◌==◌ ==_iff full_cache 1 full_cache-IsValid
