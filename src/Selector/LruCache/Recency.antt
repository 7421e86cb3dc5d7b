-- ===== src/Selector/LruCache/Recency.antt =====
-- The access order is the order in which the keys were last used.
use virtual_people_core_serv.Prelude.{
  ℕ, zero, suc, ◌-◌, ◌≤◌, ◌<◌, List, [], ◌∷◌, some, Bool, ◌≡◌, refl, sym, ap, ◌∙◌, inl, inr, length,
  arith, Bool-cases, ok, ok-injective, leb,
}
use virtual_people_core_serv.Selector.LruCache.{
  LruCache, split_back, lookup, remove, move_to_front, make_room, add, get,
}
use virtual_people_core_serv.Selector.LruCache.Invariant.{In, keys, IsValid, IsEquality, lookup-In}
use virtual_people_core_serv.Selector.LruCache.Keys.{stands_in_iff, length-remove}

-- The first elements of a list.
abbrev pub take : {K : Type 0} → ℕ → List K → List K
take zero l = []
take (suc n) [] = []
take (suc n) (k ∷ l) = k ∷ take n l

take_all : {K : Type 0} (n : ℕ) (l : List K) → length l ≤ n → take n l ≡ l
take_all zero [] h = refl
take_all zero (k ∷ l) h = absurd (omega arith)
take_all (suc n) [] h = refl
take_all (suc n) (k ∷ l) h = ap (λ r. k ∷ r) (take_all n l (omega arith))

-- What pop_back leaves of a list of n + 1 keys is its first n.
split_back-take :
    {K : Type 0} (n : ℕ) (l : List K)
    → length l ≡ suc n
    → (last : K × List K) × (split_back l ≡ some last) × (last.1 ≡ take n l)
unfolding split_back
split_back-take n [] h = absurd (omega arith)
split_back-take zero (k ∷ []) h = ((k, []), refl, refl)
split_back-take (suc n) (k ∷ []) h = absurd (omega arith)
split_back-take zero (k ∷ k' ∷ l) h = absurd (omega arith)
split_back-take (suc n) (k ∷ k' ∷ l) h =
    let (last, e, same) = split_back-take n (k' ∷ l) (omega arith) in
    ((last.0, k ∷ last.1), rw (e, split_back), ap (λ r. k ∷ r) same)

take_pred :
    {K : Type 0} (n : ℕ) (key : K) (l : List K) → 0 < n → take n (key ∷ l) ≡ key ∷ take (n - 1) l
take_pred zero key l h = absurd (omega arith)
take_pred (suc n) key l h = ap (λ m. key ∷ take m l) (omega arith)

module _ {K : Type 0} (same : K → K → Bool) (law : IsEquality same) where
  remove-absent : (k : K) (l : List K) → ¬ In k l → remove same k l ≡ l
  unfolding remove
  remove-absent k [] a = refl
  remove-absent k (k' ∷ l) a = let next = remove-absent k l in ground (arith, law k k')

module _ {K V : Type 0} (same : K → K → Bool) (law : IsEquality same) where
  -- The keys in the order of their last use, with `key` used now, and no more than the capacity.
  abbrev pub recent : LruCache K V → K → List K
  recent c key = take c.capacity (key ∷ remove same key c.access_order)

  pub add-recent :
      (c c' : LruCache K V) (key : K) (value : V)
      → IsValid c
      → 0 < c.capacity
      → ¬ In key (keys c.cache_data)
      → add same c key value ≡ ok c'
      → c'.access_order ≡ recent c key
  unfolding add make_room
  add-recent c c' key value valid pos absent e =
      let sizes = valid.size_same in
      let bound = valid.size_le in
      let gone =
        remove-absent same law key c.access_order (λ m. absent (valid.order_in_keys key m)) in
      elim (Bool-cases (leb c.capacity (length c.cache_data))) [
        | inr h ↦
            (let e' = rw (h, add, make_room) at e in
              sym (ap (λ x. x.access_order) (ok-injective e'))
              ∙ sym (
                  ap (λ l. take c.capacity (key ∷ l)) gone
                  ∙ take_all c.capacity (key ∷ c.access_order) (ground arith)))
        | inl h ↦
            (let (last, found, front) =
                split_back-take (c.capacity - 1) c.access_order (ground arith) in
              let e' = rw (h, found, add, make_room) at e in
              sym (ap (λ x. x.access_order) (ok-injective e'))
              ∙ ap (λ l. key ∷ l) front
              ∙ sym (take_pred c.capacity key c.access_order pos)
              ∙ sym (ap (λ l. take c.capacity (key ∷ l)) gone))
      ]

  pub get-recent :
      (c : LruCache K V) (key : K) (v : V)
      → IsValid c
      → lookup same key c.cache_data ≡ some v
      → (get same c key).1.access_order ≡ recent c key
  unfolding get move_to_front
  get-recent c key v valid h =
      let m = valid.keys_in_order key (lookup-In same law key v c.cache_data h) in
      let st = (stands_in_iff same law key c.access_order).1 m in
      let len = length-remove same law key c.access_order m in
      let bound = valid.size_le in
      rw (h, get, move_to_front, st)
        (sym
          (take_all c.capacity (key ∷ remove same key c.access_order) (omega (arith, len, bound))))
