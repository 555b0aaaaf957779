-- ===== src/Executor.antt =====
-- src/executor
pub mod StoreItem
pub mod Store
pub mod KeyGen
pub mod Sign
