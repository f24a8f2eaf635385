-- ===== src/Raft.antt =====
-- The raft log of a replica.
pub mod Keys
pub mod State
pub mod Index
pub mod Log
pub mod Snapshot
pub mod Ready
