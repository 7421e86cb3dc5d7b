-- ===== src/Selector/LruCache/Invariant.antt =====
-- What holds of the two lists of a cache, and how its list operations keep it.
use virtual_people_core_serv.Prelude.{
  suc, ◌≤◌, List, [], ◌∷◌, none, some, Bool, true, ◌≡◌, ◌≢◌, refl, ap, subst, ◌↔◌, ◌⊎◌, inl, inr,
  length, Any, arith, Bool-cases,
}
use virtual_people_core_serv.Selector.LruCache.{LruCache, split_back, lookup, erase, store}

-- The key stands in the list.
abbrev pub In : {K : Type 0} → K → List K → Type 0
In key ks = Any (λ k. key ≡ k) ks

-- No key stands twice in the list.
abbrev pub Distinct : {K : Type 0} → List K → Type 0
Distinct [] = Unit
Distinct (k ∷ ks) = (¬ In k ks) × Distinct ks

abbrev pub keys : {K V : Type 0} → List (K × V) → List K
keys [] = []
keys ((k, v) ∷ rest) = k ∷ keys rest

-- The cache holds the keys of its access order, each once, and no more than its capacity.
pub record IsValid {K V : Type 0} (c : LruCache K V) : Type 0 where
  pub order_distinct : Distinct c.access_order
  pub data_distinct : Distinct (keys c.cache_data)
  pub keys_in_order : (k : K) → In k (keys c.cache_data) → In k c.access_order
  pub order_in_keys : (k : K) → In k c.access_order → In k (keys c.cache_data)
  pub size_same : length c.cache_data ≡ length c.access_order
  pub size_le : length c.access_order ≤ c.capacity

module _ {K : Type 0} where
  -- A list that is not empty has a last key; it stands once in a list without repetition.
  pub split_back-cases :
      (k : K) (ks : List K)
      → (last : K × List K) × (split_back (k ∷ ks) ≡ some last)
        × (length (k ∷ ks) ≡ suc (length last.1))
        × ((x : K) → In x (k ∷ ks) → (x ≡ last.0) ⊎ In x last.1)
        × ((x : K) → In x last.1 → In x (k ∷ ks))
        × In last.0 (k ∷ ks)
        × (Distinct (k ∷ ks) → (¬ In last.0 last.1) × Distinct last.1)
  unfolding split_back
  split_back-cases k [] = ((k, []), refl, refl, (λ x m. m), (λ x m. absurd m), inl refl, λ d. d)
  split_back-cases k (k' ∷ ks) =
      let (last, e, len, cases, back, mem, dist) = split_back-cases k' ks in
      (
        (last.0, k ∷ last.1),
        (rw (e, split_back)),
        omega (arith, len),
        (λ x m. elim m [
          | inl same ↦ inr (inl same)
          | inr m' ↦ elim (cases x m') [ inl h ↦ inl h | inr h ↦ inr (inr h) ]
        ]),
        (λ x m. elim m [ inl same ↦ inl same | inr m' ↦ inr (back x m') ]),
        inr mem,
        (λ d. (
          (λ m. elim m [
            | inl same ↦ d.0 (subst (λ y. In y (k' ∷ ks)) same mem)
            | inr m' ↦ (dist d.1).0 m'
          ]),
          ((λ m. d.0 (back k m)), (dist d.1).1),
        )),
      )

-- The test of two keys for equality.
abbrev pub IsEquality : {K : Type 0} → (K → K → Bool) → Type 0
IsEquality {K = K} same = (a b : K) → (same a b ≡ true) ↔ (a ≡ b)

module _ {K V : Type 0} (same : K → K → Bool) (law : IsEquality same) where
  pub In-lookup : (x : K) (l : List (K × V)) → In x (keys l) → (v : V) × (lookup same x l ≡ some v)
  unfolding lookup
  In-lookup x [] m = absurd m
  In-lookup x ((k, v) ∷ rest) m = elim (Bool-cases (same x k)) [
    | inl h ↦ (v, rw (h, lookup))
    | inr h ↦ elim m [
      | inl e ↦ absurd (let t = (law x k).1 e in cc)
      | inr m' ↦ (let (w, found) = In-lookup x rest m' in (w, rw (h, lookup, found)))
    ]
  ]

  pub lookup-In : (x : K) (w : V) (l : List (K × V)) → lookup same x l ≡ some w → In x (keys l)
  unfolding lookup
  lookup-In x w [] h = cc
  lookup-In x w ((k, v) ∷ rest) h = let next = lookup-In x w rest in ground (arith, law x k)

  pub lookup-none : (x : K) (l : List (K × V)) → lookup same x l ≡ none → ¬ In x (keys l)
  lookup-none x l h m = let (v, e) = In-lookup x l m in cc

  -- Erasing a key leaves the others, with their values.
  pub In-erase :
      (x k : K) (l : List (K × V)) → In x (keys (erase same k l)) → (x ≢ k) × In x (keys l)
  unfolding erase
  In-erase x k [] m = absurd m
  In-erase x k ((k', v) ∷ rest) m = let next = In-erase x k rest in ground (arith, law k k')

  pub erase-In : (x k : K) (l : List (K × V)) → x ≢ k → In x (keys l) → In x (keys (erase same k l))
  unfolding erase
  erase-In x k [] ne m = absurd m
  erase-In x k ((k', v) ∷ rest) ne m = let next = erase-In x k rest ne in ground (arith, law k k')

  pub erase-Distinct :
      (k : K) (l : List (K × V)) → Distinct (keys l) → Distinct (keys (erase same k l))
  unfolding erase
  erase-Distinct k [] d = d
  erase-Distinct k ((k', v) ∷ rest) d =
      let next = erase-Distinct k rest d.1 in
      let old = In-erase k' k rest in ground (arith, law k k')

  erase-absent : (k : K) (l : List (K × V)) → ¬ In k (keys l) → erase same k l ≡ l
  unfolding erase
  erase-absent k [] a = refl
  erase-absent k ((k', v) ∷ rest) a = let next = erase-absent k rest in ground (arith, law k k')

  pub length-erase :
      (k : K) (l : List (K × V))
      → Distinct (keys l)
      → In k (keys l)
      → suc (length (erase same k l)) ≡ length l
  unfolding erase
  length-erase k [] d m = absurd m
  length-erase k ((k', v) ∷ rest) d m =
      let next = length-erase k rest d.1 in
      let whole : (¬ In k (keys rest)) → length (erase same k rest) ≡ length rest =
        λ a. ap length (erase-absent k rest a) in
      let head : k ≡ k' → ¬ In k (keys rest) = λ e m'. d.0 (subst (λ y. In y (keys rest)) e m') in
      ground (arith, law k k')

  -- What a lookup finds after an erasure it found before.
  pub lookup-erase :
      (x k : K) (l : List (K × V)) (w : V)
      → lookup same x (erase same k l) ≡ some w
      → lookup same x l ≡ some w
  unfolding erase lookup
  lookup-erase x k [] w h = h
  lookup-erase x k ((k', v) ∷ rest) w h =
      let next = lookup-erase x k rest w in
      let other : lookup same x (erase same k rest) ≡ some w → x ≢ k =
        λ h'. (In-erase x k rest (lookup-In x w (erase same k rest) h')).0 in
      ground (arith, law k k', law x k')

  -- A key that is not there is stored last.
  pub keys-store :
      (x k : K) (v : V) (l : List (K × V))
      → ¬ In k (keys l)
      → In x (keys (store same k v l)) ↔ ((x ≡ k) ⊎ In x (keys l))
  unfolding store
  keys-store x k v [] a = ((λ m. m), (λ m. m))
  keys-store x k v ((k', w) ∷ rest) a = let next = keys-store x k v rest in ground (arith, law k k')

  pub store-Distinct :
      (k : K) (v : V) (l : List (K × V))
      → ¬ In k (keys l)
      → Distinct (keys l)
      → Distinct (keys (store same k v l))
  unfolding store
  store-Distinct k v [] a d = ((λ m. m), tt)
  store-Distinct k v ((k', w) ∷ rest) a d =
      let next = store-Distinct k v rest in
      let new = keys-store k' k v rest in ground (arith, law k k')

  pub length-store :
      (k : K) (v : V) (l : List (K × V))
      → ¬ In k (keys l)
      → length (store same k v l) ≡ suc (length l)
  unfolding store
  length-store k v [] a = refl
  length-store k v ((k', w) ∷ rest) a = let next = length-store k v rest in ground (arith, law k k')

  pub lookup-store :
      (x k : K) (v w : V) (l : List (K × V))
      → lookup same x (store same k v l) ≡ some w
      → ((x ≡ k) × (w ≡ v)) ⊎ (lookup same x l ≡ some w)
  unfolding store lookup
  lookup-store x k v w [] h = ground (arith, law x k)
  lookup-store x k v w ((k', u) ∷ rest) h =
      let next = lookup-store x k v w rest in ground (arith, law x k', law k k')
