-- ===== src/Meta.antt =====
-- The package meta: timestamps, keys, the messages and the errors that the other parts exchange.
pub mod Timestamp
pub mod Key
pub mod Message
pub mod Exec
pub mod Stats
pub mod Value
pub mod Batch
