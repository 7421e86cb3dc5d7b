-- ===== src/Model/ModelNode/Clones.antt =====
-- What ApplyMultiplicity does: the child labels each clone, and what it gives is folded back in
-- the order of the clones.
use Prim.Native.String.{◌++◌ as ◌+++◌}
use mathlib.Core.List.{append_assoc, append-nil}
use virtual_people_core_serv.Prelude.{
  ℕ, zero, suc, ◌≡◌, ◌≢◌, refl, sym, ap, ◌∙◌, subst, List, [], ◌∷◌, ◌++◌, Result, ok, ok-injective,
  >>=-eq-ok, length, arith, ◌==◌, false,
}
use virtual_people_core_serv.External.Events.{
  Platform, LabelerEvent, VirtualPersonActivity, PoolAssignment,
}
use virtual_people_core_serv.External.Protobuf.{Protobuf}
use virtual_people_core_serv.Model.Multiplicity.{
  MultiplicityImpl, compute_event_multiplicity, get_fingerprint_for_index,
}
use virtual_people_core_serv.Model.ModelNode.Apply.{
  clones_from, apply_all, merge_labels, apply_multiplicity,
}

module _ (P : Platform) (B : Protobuf P) where
  -- The first clone keeps the fingerprint; each other one has the fingerprint of a text with the
  -- seed, its index and the fingerprint of the event.
  abbrev pub clone_fingerprint : MultiplicityImpl P B → ℕ → ℕ → ℕ
  clone_fingerprint m input zero = input
  clone_fingerprint m input (suc before) = P.hashing.fingerprint64 (
      m.random_seed
      +++ "-clone-"
      +++ P.hashing.decimal (suc before)
      +++ "-"
      +++ P.hashing.decimal input)

  get_fingerprint_for_index_lem :
      (m : MultiplicityImpl P B) (input index : ℕ)
      → get_fingerprint_for_index P B m input index ≡ clone_fingerprint m input index
  unfolding get_fingerprint_for_index
  get_fingerprint_for_index_lem m input zero = refl
  get_fingerprint_for_index_lem m input (suc before) = ground arith

  -- The clone with the index: its fingerprint, and the index in its field.
  abbrev pub clone_at : MultiplicityImpl P B → LabelerEvent P → ℕ → LabelerEvent P
  clone_at m event index =
      B.set_value
        (record event { acting_fingerprint = clone_fingerprint m event.acting_fingerprint index })
        m.person_index_field (B.value_of_ℕ index)

  abbrev pub all_activities : List (LabelerEvent P) → List (VirtualPersonActivity P)
  all_activities [] = []
  all_activities (event ∷ events) = event.virtual_person_activities ++ all_activities events

  abbrev pub all_pool_assignments : List (LabelerEvent P) → List PoolAssignment
  all_pool_assignments [] = []
  all_pool_assignments (event ∷ events) = event.pool_assignments ++ all_pool_assignments events

  -- `labeled` is what the child gives for the clones from `index`, in order.
  unfoldable pub LabelsClones :
      MultiplicityImpl P B
      → LabelerEvent P
      → (LabelerEvent P → Result (LabelerEvent P))
      → ℕ
      → List (LabelerEvent P)
      → Type 0
  LabelsClones m event child index [] = Unit
  LabelsClones m event child index (first ∷ rest) =
      (child (clone_at m event index) ≡ ok first) × LabelsClones m event child (suc index) rest

  apply_all-LabelsClones :
      (m : MultiplicityImpl P B) (event : LabelerEvent P)
      (child : LabelerEvent P → Result (LabelerEvent P)) (left index : ℕ)
      (labeled : List (LabelerEvent P))
      → apply_all P B child (clones_from P B m event left index) ≡ ok labeled
      → (length labeled ≡ left) × LabelsClones m event child index labeled
  unfolding apply_all clones_from LabelsClones
  apply_all-LabelsClones m event child zero index labeled e =
      subst (λ l. (length l ≡ 0) × LabelsClones m event child index l) (ok-injective e) (refl, tt)
  apply_all-LabelsClones m event child (suc left) index labeled e =
      let (first, given', e₁) =
        >>=-eq-ok
          (child (
            B.set_value
              (record event {
                acting_fingerprint = get_fingerprint_for_index P B m event.acting_fingerprint index;
              })
              m.person_index_field (B.value_of_ℕ index)))
          _ e in
      let given : child (clone_at m event index) ≡ ok first =
        ap
          (λ f. child (
            B.set_value (record event { acting_fingerprint = f }) m.person_index_field
              (B.value_of_ℕ index)))
          (sym (get_fingerprint_for_index_lem m event.acting_fingerprint index))
        ∙ given' in
      let (rest, all, e₂) =
        >>=-eq-ok (apply_all P B child (clones_from P B m event left (suc index))) _ e₁ in
      let (count, labels) = apply_all-LabelsClones m event child left (suc index) rest all in
      subst (λ l. (length l ≡ suc left) × LabelsClones m event child index l) (ok-injective e₂)
        (ap suc count, (given, labels))

  -- The event with the labels and the pools of the clones behind its own.
  abbrev pub folded : LabelerEvent P → List (LabelerEvent P) → LabelerEvent P
  folded event labeled = record event {
    virtual_person_activities = event.virtual_person_activities ++ all_activities labeled;
    pool_assignments = event.pool_assignments ++ all_pool_assignments labeled;
  }

  merge_labels-folded :
      (labeled : List (LabelerEvent P)) (event : LabelerEvent P)
      → merge_labels P B event labeled ≡ folded event labeled
  unfolding merge_labels
  merge_labels-folded [] event = simp append-nil
  merge_labels-folded (first ∷ rest) event = merge_labels-folded rest _ ∙ simp append_assoc

  -- ApplyMultiplicity of an event with a count other than 1, where it succeeds, has applied the
  -- child to as many clones as the count, in order from index 0, each with its index in the
  -- person index field; the first has the fingerprint of the event, and each other one the
  -- fingerprint of the text that joins the random seed, its index and the fingerprint of the
  -- event; the result is the event with the activities and the pool assignments that the child
  -- gave the clones behind its own, in the order of the clones.
  pub apply_multiplicity-clones :
      (m : MultiplicityImpl P B) (child : LabelerEvent P → Result (LabelerEvent P))
      (event result : LabelerEvent P) (n : ℕ)
      → compute_event_multiplicity P B m event ≡ ok n
      → n ≢ 1
      → apply_multiplicity P B m child event ≡ ok result
      → (labeled : List (LabelerEvent P)) × (length labeled ≡ n)
        × LabelsClones m event child 0 labeled
        × (result ≡ folded event labeled)
  unfolding apply_multiplicity
  apply_multiplicity-clones m child event result n counted several e =
      let other : (n == 1) ≡ false = ground arith in
      let (labeled, all, e') =
        >>=-eq-ok (apply_all P B child (clones_from P B m event n 0)) _
          (rw (counted, other, apply_multiplicity) at e) in
      let (count, labels) = apply_all-LabelsClones m event child n 0 labeled all in
      (labeled, count, labels, sym (ok-injective e') ∙ merge_labels-folded labeled event)
