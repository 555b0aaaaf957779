-- ===== src/Common.antt =====
-- src/common
pub mod TaskInfo
pub mod Properties
pub mod Utils
pub mod KeyGeneration
pub mod Calls
