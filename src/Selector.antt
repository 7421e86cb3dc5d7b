-- ===== src/Selector.antt =====
-- src/main/cc/wfa/virtual_people/core/selector.
pub mod LruCache
pub mod Rollouts
pub mod VidModelSelector
