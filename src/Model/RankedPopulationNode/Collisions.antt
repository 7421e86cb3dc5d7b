-- ===== src/Model/RankedPopulationNode/Collisions.antt =====
-- Ranked events of a pool never share an id, nor with an unranked event of a disjoint node.
use virtual_people_core_serv.Prelude.{
  ℕ, ◌+◌, ◌^◌, ◌≤◌, ◌<◌, ◌≡◌, ◌≢◌, sym, ap, ◌∙◌, inl, inr, Option, some, ok, >>=-eq-ok, arith,
  Bool-cases, add64_exact, false, [], ◌∷◌, ok-injective, map,
}
use virtual_people_core_serv.External.Doubles.{SqrtIsExact, RoundsMonotonically}
use virtual_people_core_serv.External.Events.{Platform, LabelerEvent}
use virtual_people_core_serv.Utils.Feistel.{feistel_permute}
use virtual_people_core_serv.Utils.Feistel.Bijection.{
  feistel_permute_total, feistel_permute-injective, half_square-le,
}
use virtual_people_core_serv.Model.PopulationNode.{is_empty}
use virtual_people_core_serv.Model.PopulationNode.Ids.{add_activity-one}
use virtual_people_core_serv.Model.RankedPopulationNode.{
  disjoint, RankedPopulationNodeImpl, ranked_id, unranked_id, select_id, find_rank,
  rank_assignments, is_misused, label_event, apply,
}
use virtual_people_core_serv.Model.RankedPopulationNode.Ids.{
  IsValid, ranked_id-Within, unranked_id-disjoint, select_id-ranked,
}

module _ (P : Platform) (exact : SqrtIsExact P.doubles) (fuel : ℕ) (enough : 2 ^ 32 ≤ fuel)
    (node : RankedPopulationNodeImpl) (valid : IsValid node) where
  ranked_id-permute :
      (rank v : ℕ)
      → rank < node.ranked_size
      → ranked_id P fuel node rank ≡ ok v
      → (y : ℕ) × (feistel_permute P.hashing P.doubles fuel rank node.ranked_size node.random_seed
          ≡ some y)
        × (v ≡ node.pool_offset + y)
  unfolding ranked_id
  ranked_id-permute rank v h e =
      let square =
        half_square-le P.hashing P.doubles exact node.ranked_size (omega arith) (omega arith) in
      let (y, found, lt) =
        feistel_permute_total P.hashing P.doubles exact node.ranked_size (omega arith)
          node.random_seed fuel rank h (omega (arith, square)) in
      (y, found, sym (ok-injective (rw found at e)) ∙ add64_exact node.pool_offset y (omega arith))

  -- Two ranks below the ranked size with the same id are the same rank.
  pub ranked_id-injective :
      (rank rank' v : ℕ)
      → rank < node.ranked_size
      → rank' < node.ranked_size
      → ranked_id P fuel node rank ≡ ok v
      → ranked_id P fuel node rank' ≡ ok v
      → rank ≡ rank'
  ranked_id-injective rank rank' v h h' e e' =
      let (y, found, ey) = ranked_id-permute rank v h e in
      let (y', found', ey') = ranked_id-permute rank' v h' e' in
      let same : y' ≡ y = omega arith in
      feistel_permute-injective P.hashing P.doubles exact node.ranked_size (omega arith)
        node.random_seed fuel fuel rank rank' y h h' found (found' ∙ ap some same)

  -- The id that an event gets where it is labeled.
  abbrev pub Gets : LabelerEvent P → ℕ → Type 0
  Gets event v =
      select_id P fuel node event (find_rank node.pool_offset (rank_assignments P event)) ≡ ok v

  abbrev pub HasRank : LabelerEvent P → ℕ → Type 0
  HasRank event rank =
      (find_rank node.pool_offset (rank_assignments P event) ≡ some rank)
      × (rank < node.ranked_size)

  Gets-ranked :
      (event : LabelerEvent P) (rank v : ℕ)
      → HasRank event rank
      → Gets event v
      → ranked_id P fuel node rank ≡ ok v
  Gets-ranked event rank v (found, lt) e =
      sym (select_id-ranked P fuel node event rank lt)
      ∙ ap (select_id P fuel node event) (sym found)
      ∙ e

  apply-full :
      (event : LabelerEvent P)
      → event.pool_identity_mode ≡ false
      → apply P fuel node event ≡ label_event P fuel node event
  unfolding apply
  apply-full event full = ground arith

  label_event-Gets :
      (event labeled : LabelerEvent P)
      → label_event P fuel node event ≡ ok labeled
      → (v : ℕ) × (label : Option P.Label) × Gets event v
        × (labeled.virtual_person_activities
            ≡ record { virtual_person_id = some v; label = label } ∷ [])
  unfolding label_event
  label_event-Gets event labeled e =
      let assignments = rank_assignments P event in
      let rank = find_rank node.pool_offset assignments in
      elim (Bool-cases (is_empty event.virtual_person_activities)) [
        | inr early ↦ cc (rw (early, label_event) at e)
        | inl first ↦ elim (Bool-cases (is_misused assignments rank)) [
          | inl misused ↦ cc (rw (first, misused, label_event) at e)
          | inr fine ↦
              let (v, selected, e') =
                >>=-eq-ok (select_id P fuel node event rank) _
                  (rw (first, fine, label_event) at e) in
              let (label, activities) = add_activity-one P event labeled v e' in
              (v, label, selected, activities)
        ]
      ]

  pub apply-Gets :
      (event labeled : LabelerEvent P)
      → event.pool_identity_mode ≡ false
      → apply P fuel node event ≡ ok labeled
      → (v : ℕ) × (label : Option P.Label) × Gets event v
        × (labeled.virtual_person_activities
            ≡ record { virtual_person_id = some v; label = label } ∷ [])
  apply-Gets event labeled full e = label_event-Gets event labeled (sym (apply-full event full) ∙ e)

  -- Two events outside pass 1 that Apply of one valid ranked node labels with the same virtual
  -- person id, and whose ranks in the pool lie below the ranked size, have the same rank (fuel
  -- of at least 2 ^ 32, square roots exact below 2 ^ 52).
  pub apply-collision_free :
      (event event' labeled labeled' : LabelerEvent P) (rank rank' : ℕ)
      → event.pool_identity_mode ≡ false
      → event'.pool_identity_mode ≡ false
      → HasRank event rank
      → HasRank event' rank'
      → apply P fuel node event ≡ ok labeled
      → apply P fuel node event' ≡ ok labeled'
      → map (λ a. a.virtual_person_id) labeled.virtual_person_activities
        ≡ map (λ a. a.virtual_person_id) labeled'.virtual_person_activities
      → rank ≡ rank'
  apply-collision_free event event' labeled labeled' rank rank' full full' has has' e e' same =
      let (v, label, gets, acts) = apply-Gets event labeled full e in
      let (v', label', gets', acts') = apply-Gets event' labeled' full' e' in
      let ids : map (λ a. a.virtual_person_id) labeled.virtual_person_activities ≡ some v ∷ [] =
        ap (map (λ a. a.virtual_person_id)) acts in
      let ids' : map (λ a. a.virtual_person_id) labeled'.virtual_person_activities ≡ some v' ∷ [] =
        ap (map (λ a. a.virtual_person_id)) acts' in
      let lists : some v ∷ [] ≡ some v' ∷ [] = sym ids ∙ same ∙ ids' in
      let same_id : v ≡ v' = cc in
      ranked_id-injective rank rank' v has.1 has'.1 (Gets-ranked event rank v has gets)
        (Gets-ranked event' rank' v' has' gets' ∙ ap ok (sym same_id))

  -- In a valid disjoint node with ids left unranked, the id of a rank below the ranked size is
  -- never the id of an unranked event. The fuel is at least 2 ^ 32, the square root exact below
  -- 2 ^ 52 and rounding monotone.
  pub disjoint-apart :
      (rounds : RoundsMonotonically P.doubles) (rank v seed : ℕ)
      → node.ranked_size < node.pool_size
      → rank < node.ranked_size
      → ranked_id P fuel node rank ≡ ok v
      → unranked_id P fuel node disjoint seed ≢ ok v
  disjoint-apart rounds rank v seed room lt e e' =
      let (w, ew, ge, lt_ranked) = ranked_id-Within P exact fuel enough node valid rank lt in
      let (u, eu, ge_ranked, _) = unranked_id-disjoint P rounds fuel enough node valid seed room in
      let first : w ≡ v = ok-injective (sym ew ∙ e) in
      let second : u ≡ v = ok-injective (sym eu ∙ e') in omega arith
