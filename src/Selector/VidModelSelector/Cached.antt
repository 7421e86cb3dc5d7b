-- ===== src/Selector/VidModelSelector/Cached.antt =====
-- The cache changes no answer: whatever was asked before, a selector answers as if it computed the
-- percentages afresh, and its cache stays valid.
use Prim.Native.String.{String}
use virtual_people_core_serv.Prelude.{
  ℕ, ◌<◌, true, false, not, List, [], ◌∷◌, Option, none, Result, ok, >>=-eq-ok, guard, ◌≡◌, refl,
  sym, ap, ◌∙◌, subst, inl, inr, map, arith, Bool-cases, Option-cases, ok-injective,
  invalid_argument, model_line_invalid,
}
use virtual_people_core_serv.External.Calendar.{Calendar, SameDayIsEquality}
use virtual_people_core_serv.External.Events.{Platform, LabelerInput}
use virtual_people_core_serv.Selector.LruCache.{lookup, new}
use virtual_people_core_serv.Selector.LruCache.Invariant.{IsValid, In, keys, lookup-none}
use virtual_people_core_serv.Selector.LruCache.Operations.{Caches, get-IsValid, add-IsValid}
use virtual_people_core_serv.Selector.Rollouts.{
  ModelRollout, same_text, read_model_line, calculate_percentages,
}
use virtual_people_core_serv.Selector.VidModelSelector.{
  cache_size, ModelLine, VidModelSelector, check_parents, build, read_from_cache,
  is_in_active_period, release_of, get_model_release, get_model_releases,
}

module _ (P : Platform) (C : Calendar P.doubles) (law : SameDayIsEquality C) where
  -- The selector's cache is valid, has room for an entry, and holds what CalculatePercentages gives.
  pub record IsCoherent (s : VidModelSelector P C) : Type 0 where
    pub valid : IsValid s.lru_cache
    pub caches : Caches C.same_day (calculate_percentages C s.model_rollouts) s.lru_cache
    pub has_room : 0 < s.lru_cache.capacity

  -- The answer of a selector without a cache.
  unfoldable pub answer :
      ModelLine P C → List ModelRollout → LabelerInput P → Result (Option String)
  answer line rollouts input = elim (is_in_active_period P C line input.timestamp_usec) [
    | true ↦
        release_of P C (calculate_percentages C rollouts (C.day_of_micros input.timestamp_usec))
          input
    | false ↦ ok none
  ]

  -- A new cache holds nothing.
  new-IsValid : {K V : Type 0} (n : ℕ) → IsValid (new {K = K} {V = V} n)
  unfolding new
  new-IsValid n = record {
    order_distinct = tt;
    data_distinct = tt;
    keys_in_order = λ k m. m;
    order_in_keys = λ k m. m;
    size_same = refl;
    size_le = omega arith;
  }

  -- ReadFromCache of a coherent selector succeeds with what CalculatePercentages gives for the
  -- day, and leaves a coherent selector with the same model line and rollouts. `==` of two days
  -- is equality.
  pub read_from_cache-IsCoherent :
      (s : VidModelSelector P C) (day : C.CivilDay)
      → IsCoherent s
      → (s' : VidModelSelector P C) × (read_from_cache P C s day
          ≡ ok (calculate_percentages C s.model_rollouts day, s'))
        × IsCoherent s'
        × (s'.model_line ≡ s.model_line)
        × (s'.model_rollouts ≡ s.model_rollouts)
  unfolding read_from_cache
  read_from_cache-IsCoherent s day coherent =
      let (c, e, valid, data_same, cap) =
        get-IsValid C.same_day law.same_day_iff s.lru_cache day coherent.valid in
      let room : 0 < c.capacity = subst (λ n. 0 < n) (sym cap) coherent.has_room in
      let caches : Caches C.same_day (calculate_percentages C s.model_rollouts) c =
        λ k v h. coherent.caches k v (sym (ap (λ l. lookup C.same_day k l) data_same) ∙ h) in
      elim (Option-cases (lookup C.same_day day s.lru_cache.cache_data)) [
        | inr found ↦
            (let (v, h) = found in
              (
                record s { lru_cache = c },
                rw (read_from_cache, e, h, coherent.caches day v h),
                record { valid = valid; caches = caches; has_room = room },
                refl,
                refl,
              ))
        | inl h ↦
            (let absent : ¬ In day (keys c.cache_data) =
                lookup-none C.same_day law.same_day_iff day c.cache_data
                  (ap (λ l. lookup C.same_day day l) data_same ∙ h) in
              let (c', e', valid', cap', from) =
                add-IsValid C.same_day law.same_day_iff c day
                  (calculate_percentages C s.model_rollouts day) valid room absent in
              (
                record s { lru_cache = c' },
                rw (read_from_cache, e, h, e'),
                record {
                  valid = valid';
                  caches = λ k v g. elim (from k v g) [
                    | inl new ↦ new.1 ∙ ap (calculate_percentages C s.model_rollouts) (sym new.0)
                    | inr old ↦ caches k v old
                  ];
                  has_room = subst (λ n. 0 < n) (sym cap') room;
                },
                refl,
                refl,
              ))
      ]

  -- One call on a coherent selector gives the answer that needs no cache, and leaves a coherent
  -- selector of the same model line and rollouts.
  pub get_model_release-IsCoherent :
      (s : VidModelSelector P C) (input : LabelerInput P)
      → IsCoherent s
      → (s' : VidModelSelector P C) × (get_model_release P C s input
          ≡ ok (answer s.model_line s.model_rollouts input, s'))
        × IsCoherent s'
        × (s'.model_line ≡ s.model_line)
        × (s'.model_rollouts ≡ s.model_rollouts)
  unfolding get_model_release answer
  get_model_release-IsCoherent s input coherent =
      elim (Bool-cases (is_in_active_period P C s.model_line input.timestamp_usec)) [
        | inr h ↦ (s, rw (get_model_release, answer, h), coherent, refl, refl)
        | inl h ↦
            (let (s', e, coherent', line, rollouts) =
                read_from_cache-IsCoherent s (C.day_of_micros input.timestamp_usec) coherent in
              (s', rw (get_model_release, answer, h, e), coherent', line, rollouts))
      ]

  get_model_releases-IsCoherent :
      (s : VidModelSelector P C) (inputs : List (LabelerInput P))
      → IsCoherent s
      → (s' : VidModelSelector P C) × (get_model_releases P C s inputs
          ≡ ok (map (answer s.model_line s.model_rollouts) inputs, s'))
        × IsCoherent s'
  unfolding get_model_releases
  get_model_releases-IsCoherent s [] coherent = (s, refl, coherent)
  get_model_releases-IsCoherent s (input ∷ inputs) coherent =
      let (s₁, e₁, coherent₁, line, rollouts) = get_model_release-IsCoherent s input coherent in
      let (s₂, e₂, coherent₂) = get_model_releases-IsCoherent s₁ inputs coherent₁ in
      (s₂, rw (get_model_releases, e₁, e₂, line, rollouts), coherent₂)

  build-IsCoherent :
      (line : ModelLine P C) (rollouts : List ModelRollout) (s : VidModelSelector P C)
      → build P C line rollouts ≡ ok s
      → IsCoherent s × (s.model_line ≡ line) × (s.model_rollouts ≡ rollouts)
  unfolding build new lookup
  build-IsCoherent line rollouts s e =
      let (_, _, e₁) =
        >>=-eq-ok
          (guard (not (same_text (read_model_line line.name) ""))
            (invalid_argument model_line_invalid))
          _ e in
      let (_, _, e₂) = >>=-eq-ok (check_parents P C (read_model_line line.name) rollouts) _ e₁ in
      let same = ok-injective e₂ in
      (
        subst (λ s. IsCoherent s) same
            (record {
              valid = new-IsValid cache_size;
              caches = λ k v h. cc;
              has_room = omega arith;
            }),
        ap (λ s. s.model_line) (sym same),
        ap (λ s. s.model_rollouts) (sym same),
      )

  -- A selector that Build gives answers every sequence of GetModelRelease calls as a selector
  -- without a cache does, call by call, and its cache is coherent afterwards. `==` of two days
  -- is equality.
  pub get_model_releases-answer :
      (line : ModelLine P C) (rollouts : List ModelRollout) (s : VidModelSelector P C)
      (inputs : List (LabelerInput P))
      → build P C line rollouts ≡ ok s
      → (s' : VidModelSelector P C) × (get_model_releases P C s inputs
          ≡ ok (map (answer line rollouts) inputs, s'))
        × IsCoherent s'
  get_model_releases-answer line rollouts s inputs e =
      let (coherent, l, r) = build-IsCoherent line rollouts s e in
      let (s', e', coherent') = get_model_releases-IsCoherent s inputs coherent in
      (s', e' ∙ rw (l, r), coherent')
