-- ===== src/Model/ModelNode/Extraction.antt =====
-- What holds of each node of a map holds of the node that is taken, and of those that are left.
use virtual_people_core_serv.Prelude.{
  ℕ, ◌≡◌, subst, inl, inr, [], ◌∷◌, some, some-injective, Bool-cases, Option-cases, All, ◌==◌,
}
use virtual_people_core_serv.External.Events.{Platform}
use virtual_people_core_serv.External.Protobuf.{Protobuf}
use virtual_people_core_serv.Model.ModelNode.{ModelNode}
use virtual_people_core_serv.Model.ModelNode.Build.{NodeRefs, extract}

module _ (P : Platform) (B : Protobuf P) (R : ModelNode P B → Type 0) where
  pub extract-All :
      (key : ℕ) (refs : NodeRefs P B) (taken : ModelNode P B × NodeRefs P B)
      → All (λ entry. R entry.1) refs
      → extract P B key refs ≡ some taken
      → R taken.0 × All (λ entry. R entry.1) taken.1
  unfolding extract
  extract-All key [] taken all e = cc
  extract-All key ((k, n) ∷ refs) taken all e = elim (Bool-cases (k == key)) [
    | inl found ↦
        subst (λ t. R t.0 × All (λ entry. R entry.1) t.1)
          (some-injective (rw (found, extract) at e)) all
    | inr other ↦ elim (Option-cases (extract P B key refs)) [
      | inl missing ↦ cc (rw (other, missing, extract) at e)
      | inr (later, there) ↦
          let ih = extract-All key refs later all.1 there in
          subst (λ t. R t.0 × All (λ entry. R entry.1) t.1)
            (some-injective (rw (other, there, extract) at e)) (ih.0, (all.0, ih.1))
    ]
  ]
