-- ===== src/Labeler/Build/References.antt =====
-- The keys of the map of references.
use virtual_people_core_serv.Prelude.{
  ℕ, suc, ◌≤◌, ◌<◌, false, [], ◌∷◌, ◌++◌, some, ◌≡◌, refl, All, arith, ◌==◌,
}
use virtual_people_core_serv.External.Events.{Platform}
use virtual_people_core_serv.External.Protobuf.{Protobuf}
use virtual_people_core_serv.Model.ModelNode.{ModelNode}
use virtual_people_core_serv.Model.ModelNode.Build.{NodeRefs, extract}
use virtual_people_core_serv.Labeler.Build.{has_key}

module _ (P : Platform) (B : Protobuf P) where
  -- The keys of the references, from `low` on and below `high`.
  abbrev pub Below : ℕ → NodeRefs P B → Type 0
  Below high refs = All (λ r. r.0 < high) refs

  abbrev pub From : ℕ → NodeRefs P B → Type 0
  From low refs = All (λ r. low ≤ r.0) refs

  pub has_key-Below :
      (k n : ℕ) (refs : NodeRefs P B) → n ≤ k → Below n refs → has_key P B k refs ≡ false
  unfolding has_key
  has_key-Below k n [] h b = refl
  has_key-Below k n (r ∷ refs) h b = let next = has_key-Below k n refs h b.1 in ground arith

  -- A reference under later ones is taken from among them.
  pub extract-middle :
      (i : ℕ) (m : ModelNode P B) (later refs : NodeRefs P B)
      → From (suc i) later
      → extract P B i (later ++ ((i, m) ∷ refs)) ≡ some (m, later ++ refs)
  unfolding extract
  extract-middle i m [] refs h = ground arith
  extract-middle i m ((k, x) ∷ later) refs h =
      let next = extract-middle i m later refs h.1 in
      let other : (k == i) ≡ false = ground arith in rw (other, extract, next)

  pub Below-mono : (n k : ℕ) (refs : NodeRefs P B) → n ≤ k → Below n refs → Below k refs
  Below-mono n k [] h b = tt
  Below-mono n k (r ∷ refs) h b = (omega arith, Below-mono n k refs h b.1)

  pub From-append : (n : ℕ) (xs ys : NodeRefs P B) → From n xs → From n ys → From n (xs ++ ys)
  From-append n [] ys f g = g
  From-append n (x ∷ xs) ys f g = (f.0, From-append n xs ys f.1 g)

  pub From-mono : (n k : ℕ) (refs : NodeRefs P B) → n ≤ k → From k refs → From n refs
  From-mono n k [] h f = tt
  From-mono n k (r ∷ refs) h f = (omega arith, From-mono n k refs h f.1)

  pub Below-cons :
      (n i k : ℕ) (m : ModelNode P B) (refs : NodeRefs P B)
      → n ≤ i
      → k ≡ suc i
      → Below n refs
      → Below k ((i, m) ∷ refs)
  Below-cons n i k m refs le next b = (omega arith, Below-mono n k refs (omega arith) b)
