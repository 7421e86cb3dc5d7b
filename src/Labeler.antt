-- ===== src/Labeler.antt =====
-- src/main/cc/wfa/virtual_people/core/labeler/labeler.cc.
pub mod Build
pub mod Label
pub mod Reports
pub mod Ids
