-- ===== src/Delegator/Sign.antt =====
-- src/delegator/sign
pub mod StoreItem
pub mod Store
pub mod Ra
pub mod Handlers
pub mod Observers
pub mod Slices
pub mod Candidates
