-- ===== src/Labeler/Build/Subtrees.antt =====
-- What the loop over the list does with the nodes of a subtree.
use mathlib.Core.List.{append_assoc}
use virtual_people_core_serv.Prelude.{
  ℕ, suc, ◌≤◌, [], ◌∷◌, ◌++◌, none, Result, ok, err, ◌>>=◌, ok-injective, ◌≡◌, refl, sym, ap, subst,
  ◌∙◌, arith,
}
use virtual_people_core_serv.External.Events.{Platform}
use virtual_people_core_serv.External.Protobuf.{Protobuf}
use virtual_people_core_serv.Model.Config.{
  CompiledNode, Branches, branch, node_index, node, SelectBy, select_bys,
}
use virtual_people_core_serv.Model.ModelNode.{ModelNode, ModelNodes, child_node}
use virtual_people_core_serv.Model.ModelNode.Build.{NodeRefs, has_branch, build, build_children}
use virtual_people_core_serv.Model.ModelSerializer.{NodeList}
use virtual_people_core_serv.Labeler.Build.{build_nodes}
use virtual_people_core_serv.Labeler.Build.References.{
  Below, From, extract-middle, Below-mono, From-append, From-mono, Below-cons,
}

module _ (P : Platform) (B : Protobuf P) where
  -- A node, with its subtree as the nodes `ns` of the list, of which it is the last: the result `r`
  -- of building it, and what the loop over the list does with the nodes.
  abbrev pub BuildsNode : ℕ → ℕ → NodeList P B → Result (ModelNode P B × NodeRefs P B) → Type 0
  BuildsNode n k ns built =
      (r : Result (ModelNode P B)) × (built ≡ (r >>= λ m. ok (m, [])))
      × ((refs : NodeRefs P B) (rest : NodeList P B)
          → Below P B n refs
          → build_nodes P B (ns ++ rest) none refs
            ≡ (r >>= λ m. build_nodes P B rest none ((k, m) ∷ refs)))

  -- The children of a branch: the loop leaves their references `x.1` for the branch.
  abbrev pub BuildsChildren : ℕ → NodeList P B → Branches P B → Branches P B → Type 0
  BuildsChildren n ns bs bs' =
      (r : Result (ModelNodes P B × NodeRefs P B)) × (build_children P B bs []
        ≡ (r >>= λ x. ok (x.0, [])))
      × ((refs : NodeRefs P B) (rest : NodeList P B)
          → Below P B n refs
          → build_nodes P B (ns ++ rest) none refs
            ≡ (r >>= λ x. build_nodes P B rest none (x.1 ++ refs)))
      × ((x : ModelNodes P B × NodeRefs P B)
          → r ≡ ok x
          → From P B n x.1
            × ((refs : NodeRefs P B)
                → Below P B n refs
                → build_children P B bs' (x.1 ++ refs) ≡ ok (x.0, refs)))
      × (select_bys P B bs' ≡ select_bys P B bs)
      × (has_branch P B bs' ≡ has_branch P B bs)

  first_steps :
      (n i : ℕ) (ns ns' : NodeList P B) (m : ModelNode P B)
      → ((refs : NodeRefs P B) (more : NodeList P B)
          → Below P B n refs
          → build_nodes P B (ns ++ more) none refs ≡ build_nodes P B more none ((i, m) ∷ refs))
      → (refs : NodeRefs P B) (more : NodeList P B) → Below P B n refs
      → build_nodes P B ((ns ++ ns') ++ more) none refs
        ≡ build_nodes P B (ns' ++ more) none ((i, m) ∷ refs)
  first_steps n i ns ns' m steps refs more b =
      ap (λ l. build_nodes P B l none refs) (append_assoc ns ns' more) ∙ steps refs (ns' ++ more) b

  pub children_cons :
      (n i k : ℕ) (c : CompiledNode P B) (s : SelectBy P B) (rest rest' : Branches P B)
      (ns ns' : NodeList P B)
      → n ≤ i
      → k ≡ suc i
      → BuildsNode n i ns (build P B c [])
      → BuildsChildren k ns' rest rest'
      → BuildsChildren n (ns ++ ns') (branch (node c) s rest) (branch (node_index i) s rest')
  unfolding build_children select_bys
  children_cons n i k c s rest rest' ns ns' le next (err e, whole, steps)
        (r', whole', steps', taken, same, has) =
      (
        err e,
        rw whole,
        (λ refs more b.
            ap (λ l. build_nodes P B l none refs) (append_assoc ns ns' more)
            ∙ steps refs (ns' ++ more) b),
        (λ x h. cc),
        ap (λ l. s ∷ l) same,
        refl,
      )
  children_cons n i k c s rest rest' ns ns' le next (ok m, whole, steps)
        (err e, whole', steps', taken, same, has) =
      (
        err e,
        rw (whole, whole'),
        (λ refs more b.
            first_steps n i ns ns' m steps refs more b
            ∙ steps' ((i, m) ∷ refs) more (Below-cons P B n i k m refs le next b)),
        (λ x h. cc),
        ap (λ l. s ∷ l) same,
        refl,
      )
  children_cons n i k c s rest rest' ns ns' le next (ok m, whole, steps)
        (ok (ms, later), whole', steps', taken, same, has) =
      (
        ok (child_node m ms, later ++ ((i, m) ∷ [])),
        rw (whole, whole'),
        (λ refs more b.
            first_steps n i ns ns' m steps refs more b
            ∙ steps' ((i, m) ∷ refs) more (Below-cons P B n i k m refs le next b)
            ∙ ap (λ l. build_nodes P B more none l) (sym (append_assoc later ((i, m) ∷ []) refs))),
        (λ x h.
            subst
              (λ x.
                From P B n x.1
                × ((refs : NodeRefs P B)
                    → Below P B n refs
                    → build_children P B (branch (node_index i) s rest') (x.1 ++ refs)
                      ≡ ok (x.0, refs)))
              (ok-injective h) all_taken),
        ap (λ l. s ∷ l) same,
        refl,
      )
    where
      all_taken :
          From P B n (later ++ ((i, m) ∷ []))
          × ((refs : NodeRefs P B)
              → Below P B n refs
              → build_children P B
                  (branch (node_index i) s rest')
                  ((later ++ ((i, m) ∷ [])) ++ refs)
                ≡ ok (child_node m ms, refs))
      all_taken =
          let (from, children) = taken (ms, later) refl in
          (
            From-append P B n later ((i, m) ∷ []) (From-mono P B n k later (omega arith) from)
                (le, tt),
            λ refs b. rw (
              append_assoc later ((i, m) ∷ []) refs,
              extract-middle P B i m later refs (From-mono P B (suc i) k later (omega arith) from),
              children refs (Below-mono P B n k refs (omega arith) b),
            ),
          )
