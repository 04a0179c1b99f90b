-- ===== src/Worker.antt =====
-- apps/web/v4/runtime/worker-client.js: the client of the worker that scans.
pub mod Client
pub mod Calls
pub mod Owned
pub mod Runs
pub mod Limits
mod Tests
