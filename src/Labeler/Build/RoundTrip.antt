-- ===== src/Labeler/Build/RoundTrip.antt =====
-- Labeler::Build of the list that the serializer makes of a root, against Labeler::Build of the root.
use Prim.Native.String.{String}
use mathlib.Core.List.{append_assoc, append-nil}
use virtual_people_core_serv.Prelude.{
  ℕ, suc, ◌-◌, ◌^◌, ◌≤◌, ◌<◌, [], ◌∷◌, ◌++◌, none, some, Result, ok, err, ◌>>=◌, >>=-eq-ok,
  ok-injective, ◌≡◌, refl, sym, ap, subst, ◌∙◌, length, arith, invalid_argument, node_type_not_set,
}
use virtual_people_core_serv.External.Events.{Platform}
use virtual_people_core_serv.External.Protobuf.{Protobuf}
use virtual_people_core_serv.Model.Config.{
  CompiledNode, compiled_node, NodeType, branch_node, stop_node, population_node,
  ranked_population_node, type_not_set, Branches, no_branches, branch, node_index, node,
  child_node_not_set,
}
use virtual_people_core_serv.Model.ModelNode.{
  ModelNode, stop_node_impl, population_node_impl, ranked_population_node_impl, no_nodes,
}
use virtual_people_core_serv.Model.PopulationNode
use virtual_people_core_serv.Model.RankedPopulationNode
use virtual_people_core_serv.Model.ModelNode.Build.{NodeRefs, build, build_type, build_children}
use virtual_people_core_serv.Model.ModelSerializer.{
  NodeList, to_uint32, add_to_node_list, add_type, add_children, to_node_list_representation,
}
use virtual_people_core_serv.Model.ModelSerializer.Sizes.{
  add_to_node_list-Grows, add_type-Grows, add_children-Grows,
}
use virtual_people_core_serv.Labeler.Build.{build_root, build_nodes, take_root, build_list}
use virtual_people_core_serv.Labeler.Build.References.{Below, From}
use virtual_people_core_serv.Labeler.Build.Subtrees.{BuildsNode, BuildsChildren, children_cons}
use virtual_people_core_serv.Labeler.Build.Nodes.{leaf, branch-BuildsNode}

module _ (P : Platform) (B : Protobuf P) where
  -- What the serializer adds for a node of the type: its subtree and itself.
  abbrev Leaf : ℕ → String → NodeType P B → NodeList P B → NodeType P B × ℕ × NodeList P B → Type 0
  Leaf n name t list x =
      (ns : NodeList P B) × (x.2 ++ (compiled_node (some x.1) name x.0 ∷ []) ≡ list ++ ns)
      × BuildsNode P B n x.1 ns (build_type P B t name [])

  unchanged-Leaf :
      (t : NodeType P B) (name : String) (n : ℕ) (list : NodeList P B)
      (x : NodeType P B × ℕ × NodeList P B) (r : Result (ModelNode P B))
      → ((refs : NodeRefs P B) → build_type P B t name refs ≡ (r >>= λ m. ok (m, refs)))
      → ok (t, n, list) ≡ ok x
      → Leaf n name t list x
  unchanged-Leaf t name n list x r built e =
      subst (λ x. Leaf n name t list x) (ok-injective e)
        (compiled_node (some n) name t ∷ [], refl, leaf P B n name t r built)

  >>=_then :
      {A : Type 0} (built : Result A) (make : A → ModelNode P B) (refs : NodeRefs P B)
      → (built >>= λ impl. let pair : ModelNode P B × NodeRefs P B = (make impl, refs) in ok pair)
        ≡ ((built >>= λ impl. ok (make impl)) >>= λ m. ok (m, refs))
  >>=_then (ok impl) make refs = refl
  >>=_then (err e) make refs = refl

  to_uint32_small : (n : ℕ) → n < 2 ^ 32 → to_uint32 n ≡ n
  unfolding to_uint32
  to_uint32_small n h = omega arith

  -- What the serializer adds for a node.
  abbrev SerializesNode :
      ℕ → NodeList P B → CompiledNode P B → CompiledNode P B × ℕ × NodeList P B → Type 0
  SerializesNode n list c x =
      (k : ℕ) × (ns : NodeList P B) × (n ≤ k)
      × (x.1 ≡ suc k)
      × (x.2 ≡ list ++ ns)
      × BuildsNode P B n k ns (build P B c [])

  abbrev SerializesChildren :
      ℕ → NodeList P B → Branches P B → Branches P B × ℕ × NodeList P B → Type 0
  SerializesChildren n list bs x =
      (ns : NodeList P B) × (x.2 ≡ list ++ ns) × BuildsChildren P B n ns bs x.0

  mutual
    unfolding add_to_node_list build

    serialized-node :
        (c : CompiledNode P B) (n : ℕ) (list : NodeList P B)
        (x : CompiledNode P B × ℕ × NodeList P B)
        → add_to_node_list P B c n list ≡ ok x
        → x.1 ≤ 2 ^ 32
        → SerializesNode n list c x
    serialized-node (compiled_node index name type) n list x e small =
        let (added, e₁, e₂) = >>=-eq-ok (add_type P B type n list) _ e in
        let (d, grown, _) = add_type-Grows P B type n list added e₁ in
        let same = ok-injective e₂ in
        let next : x.1 ≡ suc added.1 = omega (arith, ap (λ y. y.1) same) in
        let exact = to_uint32_small added.1 (omega arith) in
        let (ns, eq, builds) = serialized-type type name n list added e₁ (omega arith) in
        (
          added.1,
          ns,
          omega arith,
          next,
          sym (ap (λ y. y.2) same)
              ∙ ap (λ i. added.2 ++ (compiled_node (some i) name added.0 ∷ [])) exact
              ∙ eq,
          builds,
        )

    serialized-type :
        (t : NodeType P B) (name : String) (n : ℕ) (list : NodeList P B)
        (x : NodeType P B × ℕ × NodeList P B)
        → add_type P B t n list ≡ ok x
        → x.1 ≤ 2 ^ 32
        → Leaf n name t list x
    serialized-type (branch_node bs seed action) name n list x e small =
        let (added, e₁, e₂) = >>=-eq-ok (add_children P B bs n list) _ e in
        let (d, grown, _) = add_children-Grows P B bs n list added e₁ in
        let same = ok-injective e₂ in
        let (ns, eq, builds) =
          serialized-children bs n list added e₁ (omega (arith, ap (λ y. y.1) same)) in
        let last : CompiledNode P B =
          compiled_node (some added.1) name (branch_node added.0 seed action) in
        subst (λ x. Leaf n name (branch_node bs seed action) list x) same
          (
            ns ++ (last ∷ []),
            ap (λ l. l ++ (last ∷ [])) eq ∙ append_assoc list ns (last ∷ []),
            branch-BuildsNode P B n added.1 name bs added.0 seed action ns (omega arith) builds,
          )
    serialized-type stop_node name n list x e small =
        unchanged-Leaf stop_node name n list x (ok (stop_node_impl name)) (λ refs. refl) e
    serialized-type (population_node config) name n list x e small =
        unchanged-Leaf (population_node config) name n list x
          (PopulationNode.build config >>= λ impl. ok (population_node_impl name impl))
          (λ refs. >>=_then (PopulationNode.build config) (population_node_impl name) refs) e
    serialized-type (ranked_population_node config) name n list x e small =
        unchanged-Leaf (ranked_population_node config) name n list x
          (RankedPopulationNode.build config >>= λ impl. ok (ranked_population_node_impl name impl))
          (λ refs.
            >>=_then (RankedPopulationNode.build config) (ranked_population_node_impl name) refs)
          e
    serialized-type type_not_set name n list x e small =
        unchanged-Leaf type_not_set name n list x (err (invalid_argument node_type_not_set))
          (λ refs. refl) e

    serialized-children :
        (bs : Branches P B) (n : ℕ) (list : NodeList P B) (x : Branches P B × ℕ × NodeList P B)
        → add_children P B bs n list ≡ ok x
        → x.1 ≤ 2 ^ 32
        → SerializesChildren n list bs x
    serialized-children no_branches n list x e small =
        subst (λ x. SerializesChildren n list no_branches x) (ok-injective e)
          (
            [],
            sym (append-nil list),
            (
              ok (no_nodes, []),
              refl,
              (λ refs rest b. refl),
              (λ x h.
                  subst
                    (λ x.
                      From P B n x.1
                      × ((refs : NodeRefs P B)
                          → Below P B n refs
                          → build_children P B no_branches (x.1 ++ refs) ≡ ok (x.0, refs)))
                    (ok-injective h) (tt, λ refs b. refl)),
              refl,
              refl,
            ),
          )
    serialized-children (branch (node_index i) s rest) n list x e small = cc
    serialized-children (branch child_node_not_set s rest) n list x e small = cc
    serialized-children (branch (node c) s rest) n list x e small =
        let (added, e₁, e₂) = >>=-eq-ok (add_to_node_list P B c n list) _ e in
        let (others, e₃, e₄) = >>=-eq-ok (add_children P B rest added.1 added.2) _ e₂ in
        let (d, grown, _) = add_children-Grows P B rest added.1 added.2 others e₃ in
        let same = ok-injective e₄ in
        let small' : others.1 ≤ 2 ^ 32 = omega (arith, ap (λ y. y.1) same) in
        let (k, ns, le, next, eq, builds) = serialized-node c n list added e₁ (omega arith) in
        let (ns', eq', builds') = serialized-children rest added.1 added.2 others e₃ small' in
        let index : k ≡ to_uint32 (added.1 - 1) =
          sym (ap to_uint32 (omega arith) ∙ to_uint32_small k (omega arith)) in
        subst (λ x. SerializesChildren n list (branch (node c) s rest) x) same
          (
            ns ++ ns',
            eq' ∙ ap (λ l. l ++ ns') eq ∙ append_assoc list ns ns',
            subst
                (λ i.
                  BuildsChildren P B n (ns ++ ns') (branch (node c) s rest)
                    (branch (node_index i) s others.0))
                index
                (children_cons P B n k added.1 c s rest others.0 ns ns' le next builds builds'),
          )

  taken_root :
      (r : Result (ModelNode P B)) (k : ℕ)
      → ((r >>= λ m. build_nodes P B [] none ((k, m) ∷ [])) >>= λ built.
          take_root P B built.0 built.1)
        ≡ ((r >>= λ m. let pair : ModelNode P B × NodeRefs P B = (m, []) in ok pair) >>= λ built.
            ok built.0)
  unfolding build_nodes take_root
  taken_root (ok m) k = refl
  taken_root (err e) k = refl

  -- Labeler::Build of the node list that ToNodeListRepresentation gives for a root, of at most
  -- 2 ^ 32 nodes, has the result of Labeler::Build of the root itself, the same labeler or the
  -- same error.
  pub build_list-to_node_list_representation :
      (root : CompiledNode P B) (list : NodeList P B)
      → to_node_list_representation P B root ≡ ok list
      → length list ≤ 2 ^ 32
      → build_list P B list ≡ build_root P B root
  unfolding to_node_list_representation build_list build_root
  build_list-to_node_list_representation root list e small =
      let (added, e₁, e₂) = >>=-eq-ok (add_to_node_list P B root 0 []) _ e in
      let (d, taken, grown) = add_to_node_list-Grows P B root 0 [] added e₁ in
      let same : added.2 ≡ list = ok-injective e₂ in
      let (k, ns, _, _, eq, (r, whole, steps)) =
        serialized-node root 0 [] added e₁ (omega (arith, ap length same)) in
      let nodes : list ≡ ns ++ [] = sym same ∙ eq ∙ sym (append-nil ns) in
      rw (nodes, steps [] [] tt, whole) (taken_root r k)
