-- ===== src/Model/ModelSerializer/Sizes.antt =====
-- Each node that is added takes one index and one place of the list.
use virtual_people_core_serv.Prelude.{
  ℕ, ◌+◌, ok, >>=-eq-ok, ok-injective, ◌≡◌, ap, some, [], ◌∷◌, length, length-append, arith,
}
use virtual_people_core_serv.External.Events.{Platform}
use virtual_people_core_serv.External.Protobuf.{Protobuf}
use virtual_people_core_serv.Model.Config.{
  CompiledNode, compiled_node, NodeType, branch_node, stop_node, population_node,
  ranked_population_node, type_not_set, Branches, no_branches, branch, node_index, node,
  child_node_not_set,
}
use virtual_people_core_serv.Model.ModelSerializer.{
  NodeList, to_uint32, add_to_node_list, add_type, add_children,
}

module _ (P : Platform) (B : Protobuf P) where
  -- The indexes taken and the nodes added.
  abbrev pub Grows : ℕ → NodeList P B → ℕ → NodeList P B → Type 0
  Grows n list k list' = (d : ℕ) × (k ≡ n + d) × (length list' ≡ length list + d)

  unchanged :
      {A : Type 0} {a : A} (n : ℕ) (list : NodeList P B) (x : A × ℕ × NodeList P B)
      → ok (a, n, list) ≡ ok x
      → Grows n list x.1 x.2
  unchanged n list x e =
      let same = ok-injective e in
      (0, omega (arith, ap (λ y. y.1) same), omega (arith, ap (λ y. length y.2) same))

  mutual
    unfolding add_to_node_list

    pub add_to_node_list-Grows :
        (c : CompiledNode P B) (n : ℕ) (list : NodeList P B)
        (x : CompiledNode P B × ℕ × NodeList P B)
        → add_to_node_list P B c n list ≡ ok x
        → (d : ℕ) × (x.1 ≡ n + d + 1) × (length x.2 ≡ length list + d + 1)
    add_to_node_list-Grows (compiled_node index name type) n list x e =
        let (added, e₁, e₂) = >>=-eq-ok (add_type P B type n list) _ e in
        let (d, k, len) = add_type-Grows type n list added e₁ in
        let same = ok-injective e₂ in
        let last : CompiledNode P B = compiled_node (some (to_uint32 added.1)) name added.0 in
        (
          d,
          omega (arith, ap (λ y. y.1) same, k),
          omega (arith, ap (λ y. length y.2) same, length-append added.2 (last ∷ []), len),
        )

    pub add_type-Grows :
        (t : NodeType P B) (n : ℕ) (list : NodeList P B) (x : NodeType P B × ℕ × NodeList P B)
        → add_type P B t n list ≡ ok x
        → Grows n list x.1 x.2
    add_type-Grows (branch_node branches seed action) n list x e =
        let (added, e₁, e₂) = >>=-eq-ok (add_children P B branches n list) _ e in
        let (d, k, len) = add_children-Grows branches n list added e₁ in
        let same = ok-injective e₂ in
        (d, omega (arith, ap (λ y. y.1) same, k), omega (arith, ap (λ y. length y.2) same, len))
    add_type-Grows stop_node n list x e = unchanged n list x e
    add_type-Grows (population_node config) n list x e = unchanged n list x e
    add_type-Grows (ranked_population_node config) n list x e = unchanged n list x e
    add_type-Grows type_not_set n list x e = unchanged n list x e

    pub add_children-Grows :
        (bs : Branches P B) (n : ℕ) (list : NodeList P B) (x : Branches P B × ℕ × NodeList P B)
        → add_children P B bs n list ≡ ok x
        → Grows n list x.1 x.2
    add_children-Grows no_branches n list x e = unchanged n list x e
    add_children-Grows (branch (node_index i) s rest) n list x e = cc
    add_children-Grows (branch child_node_not_set s rest) n list x e = cc
    add_children-Grows (branch (node c) s rest) n list x e =
        let (added, e₁, e₂) = >>=-eq-ok (add_to_node_list P B c n list) _ e in
        let (others, e₃, e₄) = >>=-eq-ok (add_children P B rest added.1 added.2) _ e₂ in
        let (d, k, len) = add_to_node_list-Grows c n list added e₁ in
        let (d', k', len') = add_children-Grows rest added.1 added.2 others e₃ in
        let same = ok-injective e₄ in
        (
          d + 1 + d',
          omega (arith, ap (λ y. y.1) same, k, k'),
          omega (arith, ap (λ y. length y.2) same, len, len'),
        )
