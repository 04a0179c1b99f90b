-- ===== src/Coordinator.antt =====
-- apps/web/v4/proof-send-coordinator.js: which context may send the publication transaction of
-- one intent, and how far it has come. The record of an intent stands under its own key of the
-- browser's storage, as JSON; a callback of `underLock` is one atomic step.
pub mod Record
pub mod Methods
pub mod Trace
pub mod Once
pub mod Ownership
pub mod Graph
mod Tests
