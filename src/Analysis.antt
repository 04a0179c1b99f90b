-- ===== src/Analysis.antt =====
-- Searches over graphs in the analyzer, ir/call-graph.js and analysis/call-summary.js of
-- packages/analyzer/src/v4, and the merging of states, analysis/merge.js and analysis/fact-lattice.js.
pub mod Search
pub mod Adjacency
pub mod Frontier
pub mod Reachable
pub mod Recursive
pub mod Facts
pub mod Merged
mod Tests
