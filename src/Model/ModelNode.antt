-- ===== src/Model/ModelNode.antt =====
-- model_node.cc, branch_node_impl.cc, attributes_updater.cc, update_tree_impl.cc: the nodes that
-- are built of a configuration.
pub mod Apply
pub mod Build
pub mod Selectors
pub mod Extraction
pub mod Clones
pub mod Branching
pub mod Reports
use Prim.Native.String.{String}
use virtual_people_core_serv.Prelude.{Option, List, ℕ, suc}
use virtual_people_core_serv.External.Events.{Platform}
use virtual_people_core_serv.External.Protobuf.{Protobuf}
use virtual_people_core_serv.Utils.DistributedConsistentHashing.{DistributionChoice}
use virtual_people_core_serv.Model.PopulationNode.{PopulationNodeImpl}
use virtual_people_core_serv.Model.RankedPopulationNode.{RankedPopulationNodeImpl}
use virtual_people_core_serv.Model.Multiplicity.{MultiplicityImpl}
use virtual_people_core_serv.Model.UpdateMatrix.{UpdateMatrixImpl}
use virtual_people_core_serv.Model.SparseUpdateMatrix.{SparseUpdateMatrixImpl}
use virtual_people_core_serv.Model.ConditionalMerge.{ConditionalMergeImpl}
use virtual_people_core_serv.Model.ConditionalAssignment.{ConditionalAssignmentImpl}
use virtual_people_core_serv.Model.GeometricShredder.{GeometricShredderImpl}

module _ (P : Platform) (B : Protobuf P) where
  -- What selects a child: hashing_ with random_seed_, matcher_, or neither.
  pub record Selector : Type 0 where
    pub hashing : Option (List (DistributionChoice P.doubles))
    pub random_seed : String
    pub matcher : Option (List B.FieldFilter)

  mutual
    -- The class hierarchy of ModelNode; each node keeps its name.
    pub data ModelNode : Type 0 where
      branch_node_impl :
          String → ModelNodes → Selector → Updaters → Option (MultiplicityImpl P B) → ModelNode
      stop_node_impl : String → ModelNode
      population_node_impl : String → PopulationNodeImpl → ModelNode
      ranked_population_node_impl : String → RankedPopulationNodeImpl → ModelNode

    pub data ModelNodes : Type 0 where
      no_nodes : ModelNodes
      child_node : ModelNode → ModelNodes → ModelNodes

    pub data Updaters : Type 0 where
      no_updaters : Updaters
      updater : AttributesUpdaterImpl → Updaters → Updaters

    -- The class hierarchy of AttributesUpdaterInterface.
    pub data AttributesUpdaterImpl : Type 0 where
      update_matrix_impl : UpdateMatrixImpl P B → AttributesUpdaterImpl
      sparse_update_matrix_impl : SparseUpdateMatrixImpl P B → AttributesUpdaterImpl
      conditional_merge_impl : ConditionalMergeImpl P B → AttributesUpdaterImpl
      update_tree_impl : ModelNode → AttributesUpdaterImpl
      conditional_assignment_impl : ConditionalAssignmentImpl P B → AttributesUpdaterImpl
      geometric_shredder_impl : GeometricShredderImpl P B → AttributesUpdaterImpl

  unfoldable pub count : ModelNodes → ℕ
  count no_nodes = 0
  count (child_node node rest) = suc (count rest)
