-- ===== src/Selector/LruCache/Operations.antt =====
-- Add, Get, and the read of a value through the cache.
use virtual_people_core_serv.Prelude.{
  suc, ◌<◌, List, [], ◌∷◌, some, Bool, ◌≡◌, ◌≢◌, refl, sym, ap, ◌∙◌, subst, ◌↔◌, ◌⊎◌, inl, inr,
  length, arith, Bool-cases, Option-cases, ok, leb,
}
use virtual_people_core_serv.Selector.LruCache.{
  LruCache, split_back, lookup, erase, store, remove, move_to_front, make_room, add, get,
}
use virtual_people_core_serv.Selector.LruCache.Keys.{
  In-remove, remove-Distinct, length-remove, stands_in_iff,
}
use virtual_people_core_serv.Selector.LruCache.Invariant.{
  In, Distinct, keys, IsValid, IsEquality, split_back-cases, lookup-In, In-erase, erase-In,
  erase-Distinct, length-erase, lookup-erase, keys-store, store-Distinct, length-store,
  lookup-store,
}

-- Each value in the cache is what `f` gives for its key.
abbrev pub Caches : {K V : Type 0} → (K → K → Bool) → (K → V) → LruCache K V → Type 0
Caches {K = K} {V = V} same f c = (k : K) (v : V) → lookup same k c.cache_data ≡ some v → v ≡ f k

module _ {K V : Type 0} (same : K → K → Bool) (law : IsEquality same) where
  -- What make_room gives: a valid cache of the same capacity with a place left, and no new entry.
  pub record MakesRoom (c c' : LruCache K V) : Type 0 where
    pub valid : IsValid c'
    pub room : length c'.access_order < c'.capacity
    pub capacity_same : c'.capacity ≡ c.capacity
    pub no_new_key : (k : K) → In k (keys c'.cache_data) → In k (keys c.cache_data)
    pub no_new_value :
        (k : K) (v : V) → lookup same k c'.cache_data ≡ some v → lookup same k c.cache_data ≡ some v

  evicted :
      (c : LruCache K V) (k : K) (ks : List K)
      → IsValid c
      → 0 < c.capacity
      → c.access_order ≡ k ∷ ks
      → (last : K × List K) × (split_back c.access_order ≡ some last)
        × MakesRoom c
            (record c { cache_data = erase same last.0 c.cache_data; access_order = last.1 })
  evicted c k ks valid pos shape =
      let (last, e, len, cases, back, mem, dist) = split_back-cases k ks in
      let in_order : (x : K) → In x (k ∷ ks) → In x c.access_order =
        λ x m. subst (λ l. In x l) (sym shape) m in
      let of_order : (x : K) → In x c.access_order → In x (k ∷ ks) =
        λ x m. subst (λ l. In x l) shape m in
      let last_in = valid.order_in_keys last.0 (in_order last.0 mem) in
      let d = dist (subst (λ l. Distinct l) shape valid.order_distinct) in
      let len₁ = length-erase same law last.0 c.cache_data valid.data_distinct last_in in
      let len₂ : length c.access_order ≡ suc (length last.1) = ap length shape ∙ len in
      (
        last,
        ap split_back shape ∙ e,
        record {
          valid = record {
            order_distinct = d.1;
            data_distinct = erase-Distinct same law last.0 c.cache_data valid.data_distinct;
            keys_in_order = λ x m.
                (let (ne, m') = In-erase same law x last.0 c.cache_data m in
                  elim (cases x (of_order x (valid.keys_in_order x m'))) [
                    | inl e' ↦ absurd (ne e')
                    | inr m'' ↦ m''
                  ]);
            order_in_keys = λ x m.
                erase-In same law x last.0 c.cache_data (λ e'. d.0 (subst (λ y. In y last.1) e' m))
                  (valid.order_in_keys x (in_order x (back x m)));
            size_same = omega arith;
            size_le = omega arith;
          };
          room = omega arith;
          capacity_same = refl;
          no_new_key = λ x m. (In-erase same law x last.0 c.cache_data m).1;
          no_new_value = λ x w h. lookup-erase same law x last.0 c.cache_data w h;
        },
      )

  make_room-MakesRoom :
      (c : LruCache K V)
      → IsValid c
      → 0 < c.capacity
      → (c' : LruCache K V) × (make_room same c ≡ ok c') × MakesRoom c c'
  unfolding make_room
  make_room-MakesRoom c valid pos = elim (Bool-cases (leb c.capacity (length c.cache_data))) [
    | inr h ↦ (
      c,
      rw (h, make_room),
      record {
        valid = valid;
        room = (let same_size = valid.size_same in ground arith);
        capacity_same = refl;
        no_new_key = λ x m. m;
        no_new_value = λ x w e. e;
      },
    )
    | inl h ↦
        (let (k, ks, shape) =
            nonempty c.access_order (let same_size = valid.size_same in ground arith) in
          let (last, e, makes) = evicted c k ks valid pos shape in
          (
            record c { cache_data = erase same last.0 c.cache_data; access_order = last.1 },
            rw (h, e, make_room),
            makes,
          ))
  ]
    where
      nonempty : (l : List K) → 0 < length l → (k : K) × (ks : List K) × (l ≡ k ∷ ks)
      nonempty [] h = absurd (omega arith)
      nonempty (k ∷ ks) h = (k, ks, refl)

  -- Add of a key that a valid cache with room for an entry does not hold succeeds, keeps the
  -- cache valid and its capacity, and any value found afterwards is the added one or was there
  -- before. The test of two keys is equality.
  pub add-IsValid :
      (c : LruCache K V) (key : K) (value : V)
      → IsValid c
      → 0 < c.capacity
      → ¬ In key (keys c.cache_data)
      → (c' : LruCache K V) × (add same c key value ≡ ok c')
        × IsValid c'
        × (c'.capacity ≡ c.capacity)
        × ((k : K) (v : V)
            → lookup same k c'.cache_data ≡ some v
            → ((k ≡ key) × (v ≡ value)) ⊎ (lookup same k c.cache_data ≡ some v))
  unfolding add
  add-IsValid c key value valid pos absent =
      let (r, e, makes) = make_room-MakesRoom c valid pos in
      let v = makes.valid in
      let absent' : ¬ In key (keys r.cache_data) = λ m. absent (makes.no_new_key key m) in
      let len = length-store same law key value r.cache_data absent' in
      let room = makes.room in
      let sizes = v.size_same in
      (
        record r {
          cache_data = store same key value r.cache_data;
          access_order = key ∷ r.access_order;
        },
        rw (e, add),
        record {
          order_distinct = ((λ m. absent' (v.order_in_keys key m)), v.order_distinct);
          data_distinct = store-Distinct same law key value r.cache_data absent' v.data_distinct;
          keys_in_order = λ x m. elim ((keys-store same law x key value r.cache_data absent').0 m) [
            | inl h ↦ inl h
            | inr m' ↦ inr (v.keys_in_order x m')
          ];
          order_in_keys = λ x m.
              (keys-store same law x key value r.cache_data absent').1
                (elim m [ inl h ↦ inl h | inr m' ↦ inr (v.order_in_keys x m') ]);
          size_same = omega (arith, len, sizes);
          size_le = omega (arith, room);
        },
        makes.capacity_same,
        λ k w found. elim (lookup-store same law k key value w r.cache_data found) [
          | inl h ↦ inl h
          | inr h ↦ inr (makes.no_new_value k w h)
        ],
      )

  -- Get of a valid cache returns what the map holds for the key, and keeps the cache valid, its
  -- entries and its capacity. The test of two keys is equality.
  pub get-IsValid :
      (c : LruCache K V) (key : K)
      → IsValid c
      → (c' : LruCache K V) × (get same c key ≡ (lookup same key c.cache_data, c'))
        × IsValid c'
        × (c'.cache_data ≡ c.cache_data)
        × (c'.capacity ≡ c.capacity)
  unfolding get move_to_front
  get-IsValid c key valid = elim (Option-cases (lookup same key c.cache_data)) [
    | inl h ↦ (c, rw (h, get), valid, refl, refl)
    | inr found ↦
        (let (w, h) = found in
          let m = valid.keys_in_order key (lookup-In same law key w c.cache_data h) in
          let st = (stands_in_iff same law key c.access_order).1 m in
          let len = length-remove same law key c.access_order m in
          let mem : (x : K)
              → In x (remove same key c.access_order) ↔ ((x ≢ key) × In x c.access_order) =
            λ x. In-remove same law x key c.access_order valid.order_distinct in
          let sizes = valid.size_same in
          let bound = valid.size_le in
          (
            record c { access_order = key ∷ remove same key c.access_order },
            rw (h, get, move_to_front, st),
            record {
              order_distinct = (
                (λ n. ((mem key).0 n).0 refl),
                remove-Distinct same law key c.access_order valid.order_distinct,
              );
              data_distinct = valid.data_distinct;
              keys_in_order = λ x n. moved x (valid.keys_in_order x n);
              order_in_keys = λ x n. elim n [
                | inl e ↦
                    subst (λ y. In y (keys c.cache_data)) (sym e)
                      (lookup-In same law key w c.cache_data h)
                | inr n' ↦ valid.order_in_keys x ((mem x).0 n').1
              ];
              size_same = omega (arith, len, sizes);
              size_le = omega (arith, len, bound);
            },
            refl,
            refl,
          ))
  ]
    where
      moved : (x : K) → In x c.access_order → In x (key ∷ remove same key c.access_order)
      moved x n =
          let mem = In-remove same law x key c.access_order valid.order_distinct in
          ground (arith, law x key)
