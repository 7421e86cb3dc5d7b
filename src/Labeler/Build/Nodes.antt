-- ===== src/Labeler/Build/Nodes.antt =====
-- What the loop over the list does with a node after its subtree.
use Prim.Native.String.{String}
use mathlib.Core.List.{append_assoc}
use virtual_people_core_serv.Prelude.{
  ℕ, ◌≤◌, List, [], ◌∷◌, ◌++◌, Option, none, some, Result, ok, err, ◌>>=◌, ◌>>◌, ◌≡◌, refl, ap, ◌∙◌,
  arith, guard, Status, invalid_argument, no_branch,
}
use virtual_people_core_serv.External.Events.{Platform}
use virtual_people_core_serv.External.Protobuf.{Protobuf}
use virtual_people_core_serv.Model.Config.{
  CompiledNode, compiled_node, NodeType, branch_node, Branches, no_branches, branch, SelectBy,
  Action, select_bys,
}
use virtual_people_core_serv.Model.ModelNode.{
  Selector, Updaters, ModelNode, ModelNodes, branch_node_impl,
}
use virtual_people_core_serv.Model.Multiplicity.{MultiplicityImpl}
use virtual_people_core_serv.Model.ModelNode.Build.{
  NodeRefs, build_selector, has_branch, build, build_type, build_children, build_action,
}
use virtual_people_core_serv.Model.ModelSerializer.{NodeList}
use virtual_people_core_serv.Labeler.Build.{build_nodes}
use virtual_people_core_serv.Labeler.Build.References.{Below, has_key-Below}
use virtual_people_core_serv.Labeler.Build.Subtrees.{BuildsNode, BuildsChildren}

module _ (P : Platform) (B : Protobuf P) where
  -- The last node of a subtree, once the references of its children are there.
  last_node :
      (n k : ℕ) (name : String) (t : NodeType P B) (later refs : NodeRefs P B) (rest : NodeList P B)
      (r : Result (ModelNode P B))
      → n ≤ k
      → Below P B n refs
      → build_type P B t name (later ++ refs) ≡ (r >>= λ m. ok (m, refs))
      → build_nodes P B (compiled_node (some k) name t ∷ rest) none (later ++ refs)
        ≡ (r >>= λ m. build_nodes P B rest none ((k, m) ∷ refs))
  unfolding build_nodes build
  last_node n k name t later refs rest (err e) le b built = rw built
  last_node n k name t later refs rest (ok m) le b built =
      rw (built, has_key-Below P B k n refs le b)

  pub leaf :
      (n : ℕ) (name : String) (t : NodeType P B) (r : Result (ModelNode P B))
      → ((refs : NodeRefs P B) → build_type P B t name refs ≡ (r >>= λ m. ok (m, refs)))
      → BuildsNode P B n n (compiled_node (some n) name t ∷ []) (build_type P B t name [])
  leaf n name t r built =
      (r, built [], λ refs rest b. last_node n n name t [] refs rest r (omega arith) b (built refs))

  -- The rest of the build of a branch, over its children.
  abbrev finish :
      String → List (SelectBy P B) → String → Action P B → ModelNodes P B → Result (ModelNode P B)
  finish name bys seed action ms = do
    selector ← build_selector P B bys seed
    built ← build_action P B action
    ok (branch_node_impl name ms selector built.0 built.1)

  build_type-branch :
      (bs : Branches P B) (name seed : String) (action : Action P B) (given left : NodeRefs P B)
      (ms : ModelNodes P B)
      → build_children P B bs given ≡ ok (ms, left)
      → build_type P B (branch_node bs seed action) name given ≡ (
          (guard (has_branch P B bs) (invalid_argument no_branch)
            >> finish name (select_bys P B bs) seed action ms)
          >>= λ m. ok (m, left))
  unfolding build_type
  build_type-branch bs name seed action given left ms e = rw e (
      >>=_assoc (guard (has_branch P B bs) (invalid_argument no_branch))
        (build_selector P B (select_bys P B bs) seed) (build_action P B action) ms left)
    where
      >>=_assoc :
          (g : Result (Unit {0})) (sel : Result (Selector P B))
          (act : Result (Updaters P B × Option (MultiplicityImpl P B))) (ms : ModelNodes P B)
          (left : NodeRefs P B)
          → (g
              >> (sel >>= λ selector. act >>= λ built.
                  let pair : ModelNode P B × NodeRefs P B =
                    (branch_node_impl name ms selector built.0 built.1, left) in
                  ok pair))
            ≡ ((g
                  >> (sel >>= λ selector.
                      act >>= λ built. ok (branch_node_impl name ms selector built.0 built.1)))
                >>= λ m. ok (m, left))
      >>=_assoc (err e) sel act ms left = refl
      >>=_assoc (ok g) (err e) act ms left = refl
      >>=_assoc (ok g) (ok sel) (err e) ms left = refl
      >>=_assoc (ok g) (ok sel) (ok act) ms left = refl

  build_type-children_err :
      (bs : Branches P B) (name seed : String) (action : Action P B) (given : NodeRefs P B)
      (e : Status)
      → build_children P B bs given ≡ err e
      → build_type P B (branch_node bs seed action) name given ≡ err e
  unfolding build_type
  build_type-children_err no_branches name seed action given e h = cc
  build_type-children_err (branch child s rest) name seed action given e h = rw h

  pub branch-BuildsNode :
      (n k : ℕ) (name : String) (bs bs' : Branches P B) (seed : String) (action : Action P B)
      (ns : NodeList P B)
      → n ≤ k
      → BuildsChildren P B n ns bs bs'
      → BuildsNode P B n k
          (ns ++ (compiled_node (some k) name (branch_node bs' seed action) ∷ []))
          (build_type P B (branch_node bs seed action) name [])
  unfolding build_type
  branch-BuildsNode n k name bs bs' seed action ns le (err e, whole, steps, taken, same, has) = (
    err e,
    build_type-children_err bs name seed action [] e whole,
    (λ refs rest b.
        ap (λ l. build_nodes P B l none refs) (append_assoc ns _ rest) ∙ steps refs _ b),
  )
  branch-BuildsNode n k name bs bs' seed action ns le
        (ok (ms, later), whole, steps, taken, same, has) =
      (
        (do
          guard (has_branch P B bs) (invalid_argument no_branch)
          finish name (select_bys P B bs) seed action ms),
        build_type-branch bs name seed action [] [] ms whole,
        (λ refs rest b.
            let again = (taken (ms, later) refl).1 refs b in
            let last : CompiledNode P B =
              compiled_node (some k) name (branch_node bs' seed action) in
            ap (λ l. build_nodes P B l none refs) (append_assoc ns (last ∷ []) rest)
            ∙ steps refs (last ∷ rest) b
            ∙ last_node n k name (branch_node bs' seed action) later refs rest _ le b (
                build_type-branch bs' name seed action (later ++ refs) refs ms again
                ∙ rw (same, has))),
      )
