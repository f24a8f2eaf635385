-- ===== src/Mvcc.antt =====
-- storage/engine/mvcc.go: versions of values and the records of transactions over an engine.
-- Every function is an action on the engine and on the object that its argument `stats` points to;
-- `stats` is `none` for a nil pointer. A codec stands for the generated protobuf code. Log lines
-- and the texts of errors are left out.
pub mod Protobuf
pub mod Store
pub mod Txn
pub mod Resolve
