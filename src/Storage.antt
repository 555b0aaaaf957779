-- ===== src/Storage.antt =====
-- What the actor keeps in the key-value provider, across its components: the keys of each kind of value,
-- and what the handlers leave in place.
pub mod Keys
pub mod Keeps
pub mod Tasks
pub mod Executor
pub mod InitialPinner
pub mod KeyGen
pub mod Sign
pub mod Dispatch
pub mod Messages
pub mod Filed
pub mod Runs
