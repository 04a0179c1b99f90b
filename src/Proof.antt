-- ===== src/Proof.antt =====
-- packages/proof: publication of a report's hash in the registry contract.
pub mod Network
pub mod Trust
pub mod Readiness
pub mod Registry
mod Tests
