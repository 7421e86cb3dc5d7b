-- ===== src/Model.antt =====
-- src/main/cc/wfa/virtual_people/core/model: the nodes of a model, and the attributes updaters.
pub mod PopulationNode
pub mod RankedPopulationNode
pub mod Multiplicity
pub mod UpdateMatrix
pub mod SparseUpdateMatrix
pub mod ConditionalMerge
pub mod ConditionalAssignment
pub mod GeometricShredder
pub mod Config
pub mod Ids
pub mod ModelNode
pub mod ModelSerializer
