-- ===== src/Tests.antt =====
-- Concrete runs, and instances of what the theorems assume.
pub mod Setup
pub mod Routines
pub mod Leaves
pub mod Populations
pub mod Days
pub mod Caching
pub mod Selecting
pub mod Models
pub mod Updating
