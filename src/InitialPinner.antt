-- ===== src/InitialPinner.antt =====
-- src/initial_pinner
pub mod StoreItem
pub mod Store
pub mod Handlers
pub mod Slices
