-- ===== src/Send.antt =====
-- apps/web/v4/proof-transaction-acceptance.js: a publication that the user has approved, from the
-- click to the transaction's hash.
pub mod Failure
pub mod Review
pub mod Submit
pub mod Traced
pub mod Trace
pub mod Sound
pub mod Approved
mod Tests
