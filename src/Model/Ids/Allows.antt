-- ===== src/Model/Ids/Allows.antt =====
-- The configurations the ids of which have a property: those of the pools of their leaves, and those
-- of the events that their updaters merge in.
use virtual_people_core_serv.Prelude.{ℕ, ◌+◌, ◌^◌, ◌<◌, Option, none, some, All}
use virtual_people_core_serv.External.Events.{Platform, LabelerEvent}
use virtual_people_core_serv.External.Protobuf.{Protobuf}
use virtual_people_core_serv.Utils.VirtualPersonSelector.IdSpace.{population, Fits, InSpace}
use virtual_people_core_serv.Model.PopulationNode.{PopulationNode}
use virtual_people_core_serv.Model.RankedPopulationNode.{RankedPopulationNode}
use virtual_people_core_serv.Model.Config.{
  CompiledNode, compiled_node, NodeType, branch_node, stop_node, population_node,
  ranked_population_node, type_not_set, Branches, no_branches, branch, Child, node_index, node,
  child_node_not_set, Action, updates, multiplicity, action_not_set, Updates, no_updates,
  AttributesUpdater, update_matrix, sparse_update_matrix, conditional_merge, update_tree,
  conditional_assignment, geometric_shredder, update_case_not_set, select_bys,
}
use virtual_people_core_serv.Model.Config
use virtual_people_core_serv.Model.Ids.{Allowed}

module _ (Q : ℕ → Type 0) where
  -- The pools are within what an int32_t and a uint64_t hold, and their ids are allowed.
  pub record PopulationAllows (config : PopulationNode) : Type 0 where
    pub small : population config.pools < 2 ^ 31
    pub fits : All Fits config.pools
    pub allowed : (id : ℕ) → InSpace id config.pools → Q id

  pub record RankedAllows (config : RankedPopulationNode) : Type 0 where
    pub fits : All (λ pool. pool.population_offset + pool.total_population < 2 ^ 64) config.pools
    pub allowed : (id : ℕ) → InSpace id config.pools → Q id

-- The update of a node, if it is set.
abbrev pub UpdateAllowed : (P : Platform) (Q : ℕ → Type 0) → Option (LabelerEvent P) → Type 0
UpdateAllowed P Q none = Unit
UpdateAllowed P Q (some part) = Allowed P Q part

module _ (P : Platform) (B : Protobuf P) (Q : ℕ → Type 0) where
  unfoldable mutual
    -- The leaves of a configuration have allowed ids, and so have the events that it merges in.
    pub NodeAllows : CompiledNode P B → Type 0
    NodeAllows (compiled_node index name type) = TypeAllows type

    pub TypeAllows : NodeType P B → Type 0
    TypeAllows (branch_node branches random_seed action) =
        BranchesAllow branches × ActionAllows action
    TypeAllows stop_node = Unit
    TypeAllows (population_node config) = PopulationAllows Q config
    TypeAllows (ranked_population_node config) = RankedAllows Q config
    TypeAllows type_not_set = Unit

    pub BranchesAllow : Branches P B → Type 0
    BranchesAllow no_branches = Unit
    BranchesAllow (branch child select_by rest) = ChildAllows child × BranchesAllow rest

    pub ChildAllows : Child P B → Type 0
    ChildAllows (node_index index) = Unit
    ChildAllows (node config) = NodeAllows config
    ChildAllows child_node_not_set = Unit

    pub ActionAllows : Action P B → Type 0
    ActionAllows (updates configs) = UpdatesAllow configs
    ActionAllows (multiplicity config) = Unit
    ActionAllows action_not_set = Unit

    pub UpdatesAllow : Updates P B → Type 0
    UpdatesAllow no_updates = Unit
    UpdatesAllow (Config.update config rest) = UpdaterAllows config × UpdatesAllow rest

    pub UpdaterAllows : AttributesUpdater P B → Type 0
    UpdaterAllows (update_matrix config) = All (Allowed P Q) config.rows
    UpdaterAllows (sparse_update_matrix config) = All (λ c. All (Allowed P Q) c.rows) config.columns
    UpdaterAllows (conditional_merge config) = All (λ n. UpdateAllowed P Q n.update) config.nodes
    UpdaterAllows (update_tree root) = NodeAllows root
    UpdaterAllows (conditional_assignment config) = Unit
    UpdaterAllows (geometric_shredder config) = Unit
    UpdaterAllows update_case_not_set = Unit
