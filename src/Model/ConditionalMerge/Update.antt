-- ===== src/Model/ConditionalMerge/Update.antt =====
-- What Update does to an event, by the first condition that matches.
use virtual_people_core_serv.Prelude.{
  ℕ, suc, ◌≡◌, sym, ap, ◌∙◌, ◌⊎◌, inl, inr, false, List, [], ◌∷◌, some, ok, err, All, length,
  get_elem?, get_elem?_total, get_elem?-lt, arith, invalid_argument, no_node_matching, ok-injective,
  >>=-eq-ok, or_error, if◌then◌else◌, no_condition, no_update,
}
use virtual_people_core_serv.External.Events.{Platform, LabelerEvent}
use virtual_people_core_serv.External.Protobuf.{Protobuf}
use virtual_people_core_serv.Utils.FieldFiltersMatcher.FirstMatch.{FirstAt, get_first_match-cases}
use virtual_people_core_serv.Model.ConditionalMerge.{
  ConditionalMergeNode, ConditionalMergeImpl, build_nodes, update,
}

module _ (P : Platform) (B : Protobuf P) where
  -- Each condition has its update.
  abbrev pub IsAligned : ConditionalMergeImpl P B → Type 0
  IsAligned m = length m.matcher ≡ length m.updates

  pub build_nodes-lengths :
      (nodes : List (ConditionalMergeNode P B)) (parts : List B.FieldFilter × List (LabelerEvent P))
      → build_nodes P B nodes ≡ ok parts
      → length parts.0 ≡ length parts.1
  unfolding build_nodes
  build_nodes-lengths [] parts e = ground arith
  build_nodes-lengths (node ∷ nodes) parts e =
      let (condition, _, e₁) =
        >>=-eq-ok (or_error node.condition (invalid_argument no_condition)) _ e in
      let (change, _, e₂) = >>=-eq-ok (or_error node.update (invalid_argument no_update)) _ e₁ in
      let (filter, _, e₃) = >>=-eq-ok (B.new_filter condition) _ e₂ in
      let (rest, built, e₄) = >>=-eq-ok (build_nodes P B nodes) _ e₃ in
      let ih = build_nodes-lengths nodes rest built in
      let whole : (filter ∷ rest.0, change ∷ rest.1) ≡ parts = ok-injective e₄ in
      sym (ap (λ p. length p.0) whole) ∙ ap suc ih ∙ ap (λ p. length p.1) whole

  -- Update of a node with an update for each condition merges in the update of the first
  -- condition that matches; where none matches the event passes unchanged or is refused, by the
  -- flag.
  pub update-cases :
      (m : ConditionalMergeImpl P B) (event : LabelerEvent P)
      → IsAligned m
      → (All (λ f. B.is_match f event ≡ false) m.matcher
          × (update P B m event ≡ (
              if m.pass_through_non_matches
              then ok event
              else err (invalid_argument no_node_matching))))
        ⊎ ((i : ℕ) × (part : LabelerEvent P) × FirstAt P B event m.matcher i
            × (get_elem? m.updates i ≡ some part)
            × (update P B m event ≡ ok (B.merge_event event part)))
  unfolding update
  update-cases m event aligned = elim (get_first_match-cases P B event m.matcher) [
    | inl (e, none_of) ↦ inl (none_of, rw e)
    | inr (i, e, first) ↦
        let (part, found) =
          get_elem?_total m.updates i (omega (arith, get_elem?-lt m.matcher i first.here)) in
        inr (i, part, first, found, rw (e, found))
  ]
