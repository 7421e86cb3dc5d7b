-- ===== src/Selector/LruCache.antt =====
-- src/main/cc/wfa/virtual_people/core/selector/lru_cache.cc. The hash map is an association list,
-- the list of keys has the key used last in front.
pub mod Invariant
pub mod Keys
pub mod Operations
pub mod Recency
use virtual_people_core_serv.Prelude.{
  ℕ, Bool, true, false, List, [], ◌∷◌, Option, none, some, Result, ok, err, ◌>>=◌, undefined, leb,
  length, if◌then◌else◌,
}

-- `capacity` is cache_size, as the comparison with size() converts it.
pub record LruCache (K V : Type 0) : Type 0 where
  pub cache_data : List (K × V)
  pub access_order : List K
  pub capacity : ℕ

-- LruCache::LruCache.
unfoldable pub new : {K V : Type 0} → ℕ → LruCache K V
new max_elements = record { cache_data = []; access_order = []; capacity = max_elements }

-- access_order.back(), and the list after pop_back().
unfoldable pub split_back : {K : Type 0} → List K → Option (K × List K)
split_back [] = none
split_back (k ∷ []) = some (k, [])
split_back (k ∷ k' ∷ ks) = elim (split_back (k' ∷ ks)) [
  | none ↦ none
  | some last ↦ some (last.0, k ∷ last.1)
]

module _ {K : Type 0} (same : K → K → Bool) where
  -- access_order.erase of the key where it stands first.
  unfoldable pub remove : K → List K → List K
  remove key [] = []
  remove key (k ∷ ks) = if same key k then ks else k ∷ remove key ks

  -- Whether the loop of Get finds the key.
  unfoldable pub stands_in : K → List K → Bool
  stands_in key [] = false
  stands_in key (k ∷ ks) = if same key k then true else stands_in key ks

  -- The loop of Get: the key moves to the front, if it is there.
  unfoldable pub move_to_front : K → List K → List K
  move_to_front key order = if stands_in key order then key ∷ remove key order else order

module _ {K V : Type 0} (same : K → K → Bool) where
  -- cache_data.find
  unfoldable pub lookup : K → List (K × V) → Option V
  lookup key [] = none
  lookup key ((k, v) ∷ rest) = if same key k then some v else lookup key rest

  -- cache_data.erase
  unfoldable pub erase : K → List (K × V) → List (K × V)
  erase key [] = []
  erase key ((k, v) ∷ rest) = if same key k then erase key rest else (k, v) ∷ erase key rest

  -- cache_data[key] = data
  unfoldable pub store : K → V → List (K × V) → List (K × V)
  store key value [] = (key, value) ∷ []
  store key value ((k, v) ∷ rest) =
      if same key k then (k, value) ∷ rest else (k, v) ∷ store key value rest

  -- The first lines of Add: back() of an empty list is undefined.
  unfoldable pub make_room : LruCache K V → Result (LruCache K V)
  make_room c =
      if leb c.capacity (length c.cache_data)
      then elim (split_back c.access_order) [
        | none ↦ err undefined
        | some last ↦
            ok (record c { cache_data = erase last.0 c.cache_data; access_order = last.1 })
      ]
      else ok c

  -- LruCache::Add.
  unfoldable pub add : LruCache K V → K → V → Result (LruCache K V)
  add c key value = do
    c ← make_room c
    ok (record c { cache_data = store key value c.cache_data; access_order = key ∷ c.access_order })

  -- LruCache::Get.
  unfoldable pub get : LruCache K V → K → Option V × LruCache K V
  get c key = elim (lookup key c.cache_data) [
    | none ↦ (none, c)
    | some v ↦ (some v, record c { access_order = move_to_front same key c.access_order })
  ]
