-- ===== src/Model/Ids/Fields.antt =====
-- The updaters that set fields add no id.
use virtual_people_core_serv.Prelude.{
  ℕ, sym, subst, inl, inr, List, [], ◌∷◌, All, ◌==◌, or_error, Option-cases, Returns-ok,
  Returns->>=_any, Returns-if, invalid_argument, target_not_set,
}
use virtual_people_core_serv.External.Events.{Platform, LabelerEvent}
use virtual_people_core_serv.External.Protobuf.{Protobuf, KeepsActivities}
use virtual_people_core_serv.Model.ConditionalAssignment
use virtual_people_core_serv.Model.ConditionalAssignment.{
  ConditionalAssignmentImpl, Assignment, assign, assign_all,
}
use virtual_people_core_serv.Model.GeometricShredder
use virtual_people_core_serv.Model.GeometricShredder.{GeometricShredderImpl, shred_hash, shred}
use virtual_people_core_serv.Model.Ids.{IsAllowed, Allowed, Keeps}

module _ (P : Platform) (B : Protobuf P) (Q : ℕ → Type 0) (law : KeepsActivities B) where
  pub set_value-Allowed :
      (event : LabelerEvent P) (f : B.Field) (value : B.Value)
      → Allowed P Q event
      → Allowed P Q (B.set_value event f value)
  set_value-Allowed event f value allowed =
      subst (All (IsAllowed P Q)) (sym (law.set_activities event f value)) allowed

  assign_all-Allowed :
      (assignments : List (Assignment P B)) (event : LabelerEvent P)
      → Allowed P Q event
      → Allowed P Q (assign_all P B event assignments)
  unfolding assign_all assign
  assign_all-Allowed [] event allowed = allowed
  assign_all-Allowed (assignment ∷ rest) event allowed =
      assign_all-Allowed rest (assign P B event assignment)
        (elim (Option-cases (B.get_value event assignment.source)) [
          | inl unset ↦ rw (unset, assign) allowed
          | inr (value, set) ↦
              rw (set, assign) (set_value-Allowed event assignment.target value allowed)
        ])

  pub conditional_assignment-Keeps :
      (m : ConditionalAssignmentImpl P B) → Keeps P Q (ConditionalAssignment.update P B m)
  unfolding ConditionalAssignment.update
  conditional_assignment-Keeps m event allowed =
      Returns-if (B.is_match m.condition event) _ _
        (λ _. Returns-ok _ (assign_all-Allowed m.assignments event allowed))
        (λ _. Returns-ok _ allowed)

  shred-Keeps : (m : GeometricShredderImpl P B) (hash : ℕ) → Keeps P Q (shred P B m hash)
  unfolding shred
  shred-Keeps m hash event allowed =
      Returns->>=_any
        (or_error (B.get_value event m.target_field) (invalid_argument target_not_set)) _
        (λ value _. Returns-ok _ (set_value-Allowed event m.target_field _ allowed))

  pub geometric_shredder-Keeps :
      (m : GeometricShredderImpl P B) → Keeps P Q (GeometricShredder.update P B m)
  unfolding GeometricShredder.update
  geometric_shredder-Keeps m event allowed = Returns->>=_any (shred_hash P B m event) _ (λ hash _.
      Returns-if (hash == 0) _ _ (λ _. Returns-ok _ allowed)
        (λ _. shred-Keeps m hash event allowed))
