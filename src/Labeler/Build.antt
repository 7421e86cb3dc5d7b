-- ===== src/Labeler/Build.antt =====
-- The two forms of Labeler::Build. The map of node references is that of Model/ModelNode/Build.
pub mod References
pub mod Subtrees
pub mod Nodes
pub mod RoundTrip
use virtual_people_core_serv.Prelude.{
  ℕ, Bool, true, false, List, [], ◌∷◌, Option, none, some, Result, ok, err, ◌>>=◌, invalid_argument,
  internal, node_after_root, duplicated_indexes, no_root, nodes_not_in_tree, ◌==◌, if◌then◌else◌,
}
use virtual_people_core_serv.External.Events.{Platform}
use virtual_people_core_serv.External.Protobuf.{Protobuf}
use virtual_people_core_serv.Model.Config.{CompiledNode, compiled_node}
use virtual_people_core_serv.Model.ModelNode.{ModelNode}
use virtual_people_core_serv.Model.ModelNode.Build.{NodeRefs, build}

module _ (P : Platform) (B : Protobuf P) where
  -- Labeler::Build of a root with its tree.
  unfoldable pub build_root : CompiledNode P B → Result (ModelNode P B)
  build_root root = do built ← build P B root []; ok built.0

  -- Whether the map has the key.
  unfoldable pub has_key : ℕ → NodeRefs P B → Bool
  has_key key [] = false
  has_key key ((k, n) ∷ refs) = if k == key then true else has_key key refs

  -- The loop of Labeler::Build over the nodes left, with the root so far.
  unfoldable pub build_nodes :
      List (CompiledNode P B)
      → Option (ModelNode P B)
      → NodeRefs P B
      → Result (Option (ModelNode P B) × NodeRefs P B)
  build_nodes [] root refs = ok (root, refs)
  build_nodes (config ∷ configs) (some root) refs = err (invalid_argument node_after_root)
  build_nodes (compiled_node (some index) name type ∷ configs) none refs = do
    built ← build P B (compiled_node (some index) name type) refs
    let rest = build_nodes configs none ((index, built.0) ∷ built.1)
    if has_key index built.1 then err (invalid_argument duplicated_indexes) else rest
  build_nodes (compiled_node none name type ∷ configs) none refs = do
    built ← build P B (compiled_node none name type) refs
    build_nodes configs (some built.0) built.1

  -- The end of Labeler::Build: the root, with no node left. Where the map holds one node it is the
  -- root; of several the program takes any, and fails since others are left.
  unfoldable pub take_root : Option (ModelNode P B) → NodeRefs P B → Result (ModelNode P B)
  take_root none [] = err (internal no_root)
  take_root none ((index, root) ∷ []) = ok root
  take_root none ((index, root) ∷ other ∷ refs) = err (invalid_argument nodes_not_in_tree)
  take_root (some root) [] = ok root
  take_root (some root) (left ∷ refs) = err (invalid_argument nodes_not_in_tree)

  -- Labeler::Build of a list of nodes.
  unfoldable pub build_list : List (CompiledNode P B) → Result (ModelNode P B)
  build_list nodes = do built ← build_nodes nodes none []; take_root built.0 built.1
