-- ===== src/Model/ModelSerializer/Trees.antt =====
-- The roots that the serializer accepts: trees whose branches hold their children directly. The
-- serializer does not look into the trees of updaters.
use virtual_people_core_serv.Prelude.{
  ℕ, ◌+◌, ◌-◌, [], ◌∷◌, ◌++◌, some, ok, >>=-eq-ok, ◌≡◌, refl, ◌↔◌,
}
use virtual_people_core_serv.External.Events.{Platform}
use virtual_people_core_serv.External.Protobuf.{Protobuf}
use virtual_people_core_serv.Model.Config.{
  CompiledNode, compiled_node, NodeType, branch_node, stop_node, population_node,
  ranked_population_node, type_not_set, Branches, no_branches, branch, node_index, node,
  child_node_not_set,
}
use virtual_people_core_serv.Model.ModelSerializer.{
  NodeList, to_uint32, add_to_node_list, add_type, add_children, to_node_list_representation,
}

module _ (P : Platform) (B : Protobuf P) where
  -- Each branch below the node, at any depth through the children of branches, has its child node
  -- set in place. The trees of updaters may be of any form.
  unfoldable mutual
    pub IsTree : CompiledNode P B → Type 0
    IsTree (compiled_node index name type) = TypeIsTree type

    pub TypeIsTree : NodeType P B → Type 0
    TypeIsTree (branch_node branches seed action) = AreTrees branches
    TypeIsTree stop_node = Unit
    TypeIsTree (population_node config) = Unit
    TypeIsTree (ranked_population_node config) = Unit
    TypeIsTree type_not_set = Unit

    pub AreTrees : Branches P B → Type 0
    AreTrees no_branches = Unit
    AreTrees (branch (node_index i) s rest) = ⊥
    AreTrees (branch child_node_not_set s rest) = ⊥
    AreTrees (branch (node c) s rest) = IsTree c × AreTrees rest

  mutual
    unfolding IsTree add_to_node_list

    IsTree-of_ok :
        (c : CompiledNode P B) (n : ℕ) (list : NodeList P B)
        (x : CompiledNode P B × ℕ × NodeList P B)
        → add_to_node_list P B c n list ≡ ok x
        → IsTree c
    IsTree-of_ok (compiled_node index name type) n list x e =
        let (added, e₁, _) = >>=-eq-ok (add_type P B type n list) _ e in
        TypeIsTree-of_ok type n list added e₁

    TypeIsTree-of_ok :
        (t : NodeType P B) (n : ℕ) (list : NodeList P B) (x : NodeType P B × ℕ × NodeList P B)
        → add_type P B t n list ≡ ok x
        → TypeIsTree t
    TypeIsTree-of_ok (branch_node branches seed action) n list x e =
        let (added, e₁, _) = >>=-eq-ok (add_children P B branches n list) _ e in
        AreTrees-of_ok branches n list added e₁
    TypeIsTree-of_ok stop_node n list x e = tt
    TypeIsTree-of_ok (population_node config) n list x e = tt
    TypeIsTree-of_ok (ranked_population_node config) n list x e = tt
    TypeIsTree-of_ok type_not_set n list x e = tt

    AreTrees-of_ok :
        (bs : Branches P B) (n : ℕ) (list : NodeList P B) (x : Branches P B × ℕ × NodeList P B)
        → add_children P B bs n list ≡ ok x
        → AreTrees bs
    AreTrees-of_ok no_branches n list x e = tt
    AreTrees-of_ok (branch (node_index i) s rest) n list x e = cc
    AreTrees-of_ok (branch child_node_not_set s rest) n list x e = cc
    AreTrees-of_ok (branch (node c) s rest) n list x e =
        let (added, e₁, e₂) = >>=-eq-ok (add_to_node_list P B c n list) _ e in
        let (others, e₃, _) = >>=-eq-ok (add_children P B rest added.1 added.2) _ e₂ in
        (IsTree-of_ok c n list added e₁, AreTrees-of_ok rest added.1 added.2 others e₃)

  mutual
    unfolding IsTree add_to_node_list

    ok_of_IsTree :
        (c : CompiledNode P B) (n : ℕ) (list : NodeList P B)
        → IsTree c
        → (x : CompiledNode P B × ℕ × NodeList P B) × (add_to_node_list P B c n list ≡ ok x)
    ok_of_IsTree (compiled_node index name type) n list h =
        let (added, e) = ok_of_TypeIsTree type n list h in
        let current : CompiledNode P B = compiled_node (some (to_uint32 added.1)) name added.0 in
        ((current, added.1 + 1, added.2 ++ (current ∷ [])), rw e)

    ok_of_TypeIsTree :
        (t : NodeType P B) (n : ℕ) (list : NodeList P B)
        → TypeIsTree t
        → (x : NodeType P B × ℕ × NodeList P B) × (add_type P B t n list ≡ ok x)
    ok_of_TypeIsTree (branch_node branches seed action) n list h =
        let (added, e) = ok_of_AreTrees branches n list h in
        ((branch_node added.0 seed action, added.1, added.2), rw e)
    ok_of_TypeIsTree stop_node n list h = ((stop_node, n, list), refl)
    ok_of_TypeIsTree (population_node config) n list h = ((population_node config, n, list), refl)
    ok_of_TypeIsTree (ranked_population_node config) n list h =
        ((ranked_population_node config, n, list), refl)
    ok_of_TypeIsTree type_not_set n list h = ((type_not_set, n, list), refl)

    ok_of_AreTrees :
        (bs : Branches P B) (n : ℕ) (list : NodeList P B)
        → AreTrees bs
        → (x : Branches P B × ℕ × NodeList P B) × (add_children P B bs n list ≡ ok x)
    ok_of_AreTrees no_branches n list h = ((no_branches, n, list), refl)
    ok_of_AreTrees (branch (node_index i) s rest) n list h = absurd h
    ok_of_AreTrees (branch child_node_not_set s rest) n list h = absurd h
    ok_of_AreTrees (branch (node c) s rest) n list h =
        let (added, e) = ok_of_IsTree c n list h.0 in
        let (others, e') = ok_of_AreTrees rest added.1 added.2 h.1 in
        ((branch (node_index (to_uint32 (added.1 - 1))) s others.0, others.1, others.2), rw (e, e'))

  -- ToNodeListRepresentation succeeds exactly on the roots from which every branch that is
  -- reached through the children of branches, at every depth, holds its child node itself,
  -- neither an index nor nothing. The branches in the update trees of updaters are not looked
  -- at.
  pub to_node_list_representation_iff :
      (root : CompiledNode P B)
      → ((list : NodeList P B) × (to_node_list_representation P B root ≡ ok list)) ↔ IsTree root
  unfolding to_node_list_representation
  to_node_list_representation_iff root = (
    (λ h.
        let (added, e, _) = >>=-eq-ok (add_to_node_list P B root 0 []) _ h.1 in
        IsTree-of_ok root 0 [] added e),
    (λ h. let (added, e) = ok_of_IsTree root 0 [] h in (added.2, rw e)),
  )
