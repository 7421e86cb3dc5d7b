-- ===== src/Lib.antt =====
-- The C++ implementation of virtual people serving, src/main/cc/wfa/virtual_people/core: a labeler
-- that gives an event of a user its virtual people by a model tree, and a selector that says which
-- release of a model labels an event.
--
-- Prelude        The names that the modules share: Boolean tests (Tests), lists with native lengths
--                (Lists), absl::Status and StatusOr as a result type, with the rules for what a
--                result is (Results), and machine integers with their wrap-around written out
--                (Words).
-- External       What the program calls and does not implement, as the arguments of the model:
--                doubles, Fingerprint64, the event messages, protobuf reflection and field filters,
--                civil days, std::sort and the files of the model writer. A record of laws beside
--                each states the documented behaviour that some theorems assume; Tests gives
--                instances of all of them.
-- Utils          core/model/utils: Feistel (feistel.cc), ConsistentHash (consistent_hash.cc),
--                VirtualPersonSelector (virtual_person_selector.cc), Hash (hash.cc),
--                DistributedConsistentHashing (distributed_consistent_hashing.cc),
--                FieldFiltersMatcher, HashFieldMaskMatcher, UpdateMatrixHelper and
--                PopulationNodeHelper (the files of those names).
-- Model          core/model: the leaves PopulationNode and RankedPopulationNode, Multiplicity, the
--                attributes updaters (UpdateMatrix, SparseUpdateMatrix, ConditionalMerge,
--                ConditionalAssignment, GeometricShredder), the messages of the configuration
--                (Config), the tree that is built of it with its Build and Apply (ModelNode: the
--                code of model_node.cc, branch_node_impl.cc, attributes_updater.cc and
--                update_tree_impl.cc), and ModelSerializer (model_serializer.cc). Ids/Allows says
--                which ids a configuration holds. A module Reports is about the errors of the
--                component that it stands below.
-- Labeler        core/labeler/labeler.cc: Build of a root and of a list of nodes (Build), and
--                SetFingerprints and Label (Label).
-- ModelWriter    src/main/cc/wfa/virtual_people/model_writer/model_writer_main.cc: main, over a
--                disk.
-- Selector       core/selector: LruCache (lru_cache.cc), Rollouts and VidModelSelector
--                (vid_model_selector.cc).
-- Tests          Instances of the parameters, and runs.
--
-- A configuration message is a record or a data type with the fields that the program reads. A method
-- that changes its object or an event gives the new one beside its result; an error is a value of
-- Result, with the code and the fixed text of the status. `undefined` marks what C++ leaves undefined.
-- `undefined_arithmetic` marks the overflow of an int and the conversion of a double to an integer type
-- that does not hold it, which the program guards nowhere.
-- A fault in reading a list is `none` or `undefined`, never a default value.
--
-- The loops of FeistelPermute and JumpConsistentHash take fuel. A pass of the cycle walk is a
-- permutation of the square of half, so fuel for that square is enough: 2 ^ 32 for a domain below
-- 2 ^ 31. Each jump goes forward, so one more than the number of buckets is enough for the jump hash.
-- Fuel of 2 ^ 32 serves both. All other loops are structural.
--
-- The access to the cache of a selector is one step, as the lock makes it, so concurrent calls are the
-- sequences of steps that get_model_releases takes.
--
-- Not modelled: the texts that errors print of offending values; the Kotlin port. The null checks on
-- pointers that Build always fills are left out.
pub mod Prelude
pub mod External
pub mod Utils
pub mod Model
pub mod Labeler
pub mod ModelWriter
pub mod Selector
pub mod Tests
