-- ===== src/External.antt =====
-- What the program calls and does not implement: the arguments of the model. Each record holds the
-- operations, and a record beside it the documented behaviour that some theorems rely on.
pub mod Doubles
pub mod Hashing
pub mod Calendar
pub mod Events
pub mod Protobuf
pub mod Files
