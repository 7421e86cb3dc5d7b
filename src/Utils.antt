-- ===== src/Utils.antt =====
-- src/main/cc/wfa/virtual_people/core/model/utils.
pub mod Feistel
pub mod ConsistentHash
pub mod VirtualPersonSelector
pub mod Hash
pub mod DistributedConsistentHashing
pub mod FieldFiltersMatcher
pub mod HashFieldMaskMatcher
pub mod UpdateMatrixHelper
pub mod PopulationNodeHelper
