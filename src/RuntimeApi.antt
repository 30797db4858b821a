-- ===== src/RuntimeApi.antt =====
-- The runtime APIs of runtime/src/lib.rs, by the libraries that they call, and the theorems on them.
pub mod Payment
pub mod Quotes
pub mod Contracts
pub mod Blocks
pub mod Queries
pub mod Tooling
mod Tests
