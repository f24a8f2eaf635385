-- ===== src/Tests.antt =====
-- The witnesses of the properties.
pub mod Codec
pub mod Data
mod Encodings
mod Ids
mod Clients
mod Clusters
mod Drivers
mod Oracles
mod Replicas
pub mod RaftCodec
mod Rafts
mod Readies
mod Stores
mod Transactions
