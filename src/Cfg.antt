-- ===== src/Cfg.antt =====
-- The control-flow graph of a callable: packages/analyzer/src/v4/ir/cfg.js and cfg-builder.js.
pub mod Graph
pub mod Statement
pub mod Builder
pub mod Stages
pub mod Build
pub mod Finish
pub mod Linked
pub mod Extends
pub mod Leaves
pub mod Bodies
pub mod Walk
pub mod Whole
mod Tests
