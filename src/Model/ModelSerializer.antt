-- ===== src/Model/ModelSerializer.antt =====
-- model_serializer.cc. A function that changes its node and the list returns both, with the next
-- index. An index is set in a uint32 field.
pub mod Sizes
pub mod Trees
use virtual_people_core_serv.Prelude.{
  ℕ, ◌+◌, ◌-◌, ◌%◌, ◌^◌, List, [], ◌∷◌, ◌++◌, some, Result, ok, err, ◌>>=◌, invalid_argument,
  uses_node_index, child_not_set,
}
use virtual_people_core_serv.External.Events.{Platform}
use virtual_people_core_serv.External.Protobuf.{Protobuf}
use virtual_people_core_serv.Model.Config.{
  CompiledNode, compiled_node, NodeType, branch_node, stop_node, population_node,
  ranked_population_node, type_not_set, Branches, no_branches, branch, node_index, node,
  child_node_not_set,
}

unfoldable pub to_uint32 : ℕ → ℕ
to_uint32 n = n % 2 ^ 32

module _ (P : Platform) (B : Protobuf P) where
  abbrev pub NodeList : Type 0
  NodeList = List (CompiledNode P B)

  unfoldable mutual
    pub add_to_node_list :
        CompiledNode P B → ℕ → NodeList → Result (CompiledNode P B × ℕ × NodeList)
    add_to_node_list (compiled_node index name type) next_index node_list = do
      added ← add_type type next_index node_list
      let current = compiled_node (some (to_uint32 added.1)) name added.0
      ok (current, added.1 + 1, added.2 ++ (current ∷ []))

    -- The children, if it is a branch node.
    pub add_type : NodeType P B → ℕ → NodeList → Result (NodeType P B × ℕ × NodeList)
    add_type (branch_node branches random_seed action) next_index node_list = do
      added ← add_children branches next_index node_list
      ok (branch_node added.0 random_seed action, added.1, added.2)
    add_type stop_node next_index node_list = ok (stop_node, next_index, node_list)
    add_type (population_node config) next_index node_list =
        ok (population_node config, next_index, node_list)
    add_type (ranked_population_node config) next_index node_list =
        ok (ranked_population_node config, next_index, node_list)
    add_type type_not_set next_index node_list = ok (type_not_set, next_index, node_list)

    pub add_children : Branches P B → ℕ → NodeList → Result (Branches P B × ℕ × NodeList)
    add_children no_branches next_index node_list = ok (no_branches, next_index, node_list)
    add_children (branch (node_index index) select_by rest) next_index node_list =
        err (invalid_argument uses_node_index)
    add_children (branch child_node_not_set select_by rest) next_index node_list =
        err (invalid_argument child_not_set)
    add_children (branch (node child) select_by rest) next_index node_list = do
      added ← add_to_node_list child next_index node_list
      others ← add_children rest added.1 added.2
      ok (branch (node_index (to_uint32 (added.1 - 1))) select_by others.0, others.1, others.2)

  -- ToNodeListRepresentation, without the changed root.
  unfoldable pub to_node_list_representation : CompiledNode P B → Result NodeList
  to_node_list_representation root = do added ← add_to_node_list root 0 []; ok added.2
