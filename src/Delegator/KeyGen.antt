-- ===== src/Delegator/KeyGen.antt =====
-- src/delegator/key_gen
pub mod StoreItem
pub mod Candidates
pub mod Store
pub mod Ra
pub mod Handlers
pub mod Observers
pub mod Requests
pub mod Arrivals
pub mod Answers
pub mod Execution
pub mod Invitations
