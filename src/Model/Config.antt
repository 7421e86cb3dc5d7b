-- ===== src/Model/Config.antt =====
-- The configuration of a model, CompiledNode and what it holds, as the program reads it. Of a
-- message's oneof the case is a constructor. A list of a message that holds the message itself is
-- a type of the block.
use Prim.Native.String.{String}
use virtual_people_core_serv.Prelude.{ℕ, Option, List, [], ◌∷◌}
use virtual_people_core_serv.External.Events.{Platform}
use virtual_people_core_serv.External.Protobuf.{Protobuf}
use virtual_people_core_serv.Model.PopulationNode.{PopulationNode}
use virtual_people_core_serv.Model.RankedPopulationNode.{RankedPopulationNode}
use virtual_people_core_serv.Model.Multiplicity.{Multiplicity}
use virtual_people_core_serv.Model.UpdateMatrix.{UpdateMatrix}
use virtual_people_core_serv.Model.SparseUpdateMatrix.{SparseUpdateMatrix}
use virtual_people_core_serv.Model.ConditionalMerge.{ConditionalMerge}
use virtual_people_core_serv.Model.ConditionalAssignment.{ConditionalAssignment}
use virtual_people_core_serv.Model.GeometricShredder.{GeometricShredder}

module _ (P : Platform) (B : Protobuf P) where
  -- BranchNode::Branch::select_by
  pub data SelectBy : Type 0 where
    chance : P.doubles.Double → SelectBy
    condition : B.FieldFilterProto → SelectBy
    select_by_not_set : SelectBy

  mutual
    -- The index field, the name, and the type.
    pub data CompiledNode : Type 0 where
      compiled_node : Option ℕ → String → NodeType → CompiledNode

    pub data NodeType : Type 0 where
      branch_node : Branches → String → Action → NodeType
      stop_node : NodeType
      population_node : PopulationNode → NodeType
      ranked_population_node : RankedPopulationNode → NodeType
      type_not_set : NodeType

    pub data Branches : Type 0 where
      no_branches : Branches
      branch : Child → SelectBy → Branches → Branches

    -- BranchNode::Branch::child_node
    pub data Child : Type 0 where
      node_index : ℕ → Child
      node : CompiledNode → Child
      child_node_not_set : Child

    pub data Action : Type 0 where
      updates : Updates → Action
      multiplicity : Multiplicity P B → Action
      action_not_set : Action

    pub data Updates : Type 0 where
      no_updates : Updates
      update : AttributesUpdater → Updates → Updates

    pub data AttributesUpdater : Type 0 where
      update_matrix : UpdateMatrix P B → AttributesUpdater
      sparse_update_matrix : SparseUpdateMatrix P B → AttributesUpdater
      conditional_merge : ConditionalMerge P B → AttributesUpdater
      update_tree : CompiledNode → AttributesUpdater
      conditional_assignment : ConditionalAssignment P B → AttributesUpdater
      geometric_shredder : GeometricShredder P B → AttributesUpdater
      update_case_not_set : AttributesUpdater

  -- The select_by fields of the branches, in order.
  unfoldable pub select_bys : Branches → List SelectBy
  select_bys no_branches = []
  select_bys (branch child select_by rest) = select_by ∷ select_bys rest
