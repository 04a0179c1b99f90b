-- ===== src/Hash.antt =====
-- The two hash functions that the program implements itself.
pub mod Keccak
pub mod Sha256
mod Tests
