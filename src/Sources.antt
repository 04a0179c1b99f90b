-- ===== src/Sources.antt =====
-- The sources of a project: standard-json.js and import-graph.js of packages/analyzer/src/v4/frontend.
pub mod Paths
pub mod Bundle
pub mod Segments
pub mod Canonical
pub mod Distinct
pub mod Comments
mod Tests
