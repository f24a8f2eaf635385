-- ===== src/Pd.antt =====
-- The placement driver.
pub mod Oracle
pub mod Cluster
pub mod Maps
pub mod Ranges
pub mod State
pub mod Send
pub mod Region
pub mod Check
pub mod Fill
pub mod Replicas
pub mod Server
pub mod Ids
