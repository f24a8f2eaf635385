-- ===== src/Client.antt =====
-- The client.
pub mod State
pub mod Txn
