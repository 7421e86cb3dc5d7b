-- ===== src/Model/RankedPopulationNode/Passes.antt =====
-- The two passes: what a node announces in pass 1 is what an event is ranked by in pass 2.
use Prim.Native.String.{String}
use virtual_people_core_serv.Prelude.{
  ℕ, ◌+◌, ◌^◌, ◌≤◌, ◌<◌, ◌≡◌, refl, sym, ap, ◌∙◌, subst, List, [], ◌∷◌, ◌++◌, Option, none, some,
  ok, ok-injective, true, false, arith, if◌then◌else◌, ◌>>=◌, ◌>>◌, guard, not, invalid_argument,
  activities_before_leaf, no_matching_rank,
}
use virtual_people_core_serv.External.Doubles.{SqrtIsExact}
use virtual_people_core_serv.External.Events.{Platform, LabelerEvent, PoolAssignment}
use virtual_people_core_serv.Utils.PopulationNodeHelper.{merge_into}
use virtual_people_core_serv.Model.PopulationNode.{is_empty, label_of, add_activity}
use virtual_people_core_serv.Model.RankedPopulationNode.{
  RankedPopulationNodeImpl, select_id, find_rank, rank_assignments, is_misused, announce,
  label_event, apply,
}
use virtual_people_core_serv.Model.RankedPopulationNode.Ids.{
  IsValid, ranked_id-Within, select_id-ranked,
}

module _ {A : Type 0} where
  cons-injective : {x y : A} {xs ys : List A} → x ∷ xs ≡ y ∷ ys → (x ≡ y) × (xs ≡ ys)
  cons-injective e = (cc, cc)

  append_one-cancel : (xs : List A) {a b : A} → xs ++ (a ∷ []) ≡ xs ++ (b ∷ []) → a ≡ b
  append_one-cancel [] e = (cons-injective e).0
  append_one-cancel (x ∷ xs) e = append_one-cancel xs (cons-injective e).1

-- An event without quantum labels is labeled.
label_of_total :
    (P : Platform) (event : LabelerEvent P) (seed_suffix : String)
    → event.quantum_labels ≡ none
    → (label : Option P.Label) × (label_of P event seed_suffix ≡ ok label)
unfolding label_of
label_of_total P event seed_suffix unset = (
  elim event.label [ none ↦ none | some label ↦ merge_into P none label ],
  rw (unset, label_of) refl,
)

add_activity_total :
    (P : Platform) (event : LabelerEvent P) (id : ℕ)
    → event.quantum_labels ≡ none
    → (label : Option P.Label) × (add_activity P event id
        ≡ ok (record event {
          virtual_person_activities = record { virtual_person_id = some id; label = label } ∷ [];
        }))
unfolding add_activity
add_activity_total P event id unset =
    let (label, e) = label_of_total P event (P.hashing.decimal id) unset in (label, rw e refl)

module _ (P : Platform) (exact : SqrtIsExact P.doubles) (fuel : ℕ) (enough : 2 ^ 32 ≤ fuel)
    (node : RankedPopulationNodeImpl) (valid : IsValid node) where
  pub apply-pass_one :
      (event : LabelerEvent P)
      → event.pool_identity_mode ≡ true
      → apply P fuel node event ≡ ok (announce P fuel node event)
  unfolding apply
  apply-pass_one event mode =
      ap (λ b. if b then ok (announce P fuel node event) else label_event P fuel node event) mode

  apply-pass_two :
      (event : LabelerEvent P)
      → event.pool_identity_mode ≡ false
      → apply P fuel node event ≡ label_event P fuel node event
  unfolding apply
  apply-pass_two event mode =
      ap (λ b. if b then ok (announce P fuel node event) else label_event P fuel node event) mode

  label_event-ranked :
      (event labeled : LabelerEvent P) (rank id : ℕ)
      → event.virtual_person_activities ≡ []
      → find_rank node.pool_offset (rank_assignments P event) ≡ some rank
      → select_id P fuel node event (some rank) ≡ ok id
      → add_activity P event id ≡ ok labeled
      → label_event P fuel node event ≡ ok labeled
  unfolding label_event
  label_event-ranked event labeled rank id fresh found selected labels =
      let assignments = rank_assignments P event in
      ap
        (λ activities.
          guard (is_empty activities) (invalid_argument activities_before_leaf)
          >> (guard (not (is_misused assignments (find_rank node.pool_offset assignments)))
                (invalid_argument no_matching_rank)
              >> (select_id P fuel node event (find_rank node.pool_offset assignments) >>= λ v.
                  add_activity P event v)))
        fresh
      ∙ ap
          (λ r.
            guard (not (is_misused assignments r)) (invalid_argument no_matching_rank)
            >> (select_id P fuel node event r >>= λ v. add_activity P event v))
          found
      ∙ ap (λ x. x >>= λ v. add_activity P event v) selected
      ∙ labels

  announced-of_ok :
      (event announced : LabelerEvent P) (assignment : PoolAssignment)
      → event.pool_identity_mode ≡ true
      → apply P fuel node event ≡ ok announced
      → announced.pool_assignments ≡ event.pool_assignments ++ (assignment ∷ [])
      → assignment ≡ record {
        pool_offset = node.pool_offset;
        pool_size = node.pool_size;
        ranked_size = node.ranked_size;
      }
  unfolding apply announce
  announced-of_ok event announced assignment mode e added =
      append_one-cancel event.pool_assignments (
        sym added
        ∙ ap (λ a. a.pool_assignments) (sym (ok-injective (sym (apply-pass_one event mode) ∙ e))))

  -- After a valid node announced an assignment in pass 1, Apply of an event of pass 2 that has
  -- no activity and no quantum labels, and the first rank of which for the announced offset is
  -- below the announced ranked size, always succeeds, and gives the event one activity, with an
  -- id in the ranked part that the assignment announced. The fuel is at least 2 ^ 32 and the
  -- square root exact below 2 ^ 52.
  pub apply-announced :
      (event announced : LabelerEvent P) (assignment : PoolAssignment) (later : LabelerEvent P)
      (rank : ℕ)
      → event.pool_identity_mode ≡ true
      → apply P fuel node event ≡ ok announced
      → announced.pool_assignments ≡ event.pool_assignments ++ (assignment ∷ [])
      → later.pool_identity_mode ≡ false
      → later.virtual_person_activities ≡ []
      → later.quantum_labels ≡ none
      → find_rank assignment.pool_offset (rank_assignments P later) ≡ some rank
      → rank < assignment.ranked_size
      → (id : ℕ) × (label : Option P.Label) × (assignment.pool_offset ≤ id)
        × (id < assignment.pool_offset + assignment.ranked_size)
        × (apply P fuel node later
            ≡ ok (record later {
              virtual_person_activities =
                  record { virtual_person_id = some id; label = label } ∷ [];
            }))
  apply-announced event announced assignment later rank mode e added full fresh unset found h =
      let same = announced-of_ok event announced assignment mode e added in
      let offset : assignment.pool_offset ≡ node.pool_offset = ap (λ a. a.pool_offset) same in
      let size : assignment.ranked_size ≡ node.ranked_size = ap (λ a. a.ranked_size) same in
      let found' = sym (ap (λ o. find_rank o (rank_assignments P later)) offset) ∙ found in
      let below : rank < node.ranked_size = subst (λ n. rank < n) size h in
      let (id, given, ge, lt) = ranked_id-Within P exact fuel enough node valid rank below in
      let (label, labels) = add_activity_total P later id unset in
      (
        id,
        label,
        omega arith,
        omega arith,
        apply-pass_two later full
            ∙ label_event-ranked later _ rank id fresh found'
                (select_id-ranked P fuel node later rank below ∙ given) labels,
      )
