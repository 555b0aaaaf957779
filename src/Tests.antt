-- ===== src/Tests.antt =====
-- The theorems at concrete tasks, on the host of Tests/Memory.
pub mod Memory
pub mod Data
pub mod KeyGen
pub mod Sign
pub mod Requests
pub mod Execution
pub mod Slices
pub mod Storage
