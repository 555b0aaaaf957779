-- ===== src/Delegator.antt =====
-- src/delegator
pub mod ExecutorInfo
pub mod Verifier
pub mod KeyGen
pub mod Sign
pub mod DumpMethods
pub mod Handler
