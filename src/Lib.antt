-- ===== src/Lib.antt =====
-- Ancestor is a distributed key-value store with transactions: nodes (storage) hold ranges of keys,
-- each replicated by raft, a placement driver (pd) gives out timestamps and knows nodes and ranges,
-- and clients (client) run transactions over them.
--
-- A node keeps, in one ordered engine, for each key a metadata record and its versions, and for
-- each transaction its record. A put leaves an intent: metadata with the id of the transaction, and
-- the version at its timestamp. The record of the transaction decides whether the intent counts;
-- others push that record, and resolve the intent by what the push found.
--
--   Encoding        util/encoding/encoding.go: EncodeUint32 … DecodeBytes, over byte strings that
--                   are lists of numbers.
--   Meta/Timestamp  meta/data.go: Less, Large, Equal, Next.
--   Meta/Key        meta/data.go: BytesNext, NewMVCCKey, NewMVCCTimeKey, Decode.
--   Meta/Message    the structures of meta/data.proto, meta/api.proto, storage/engine/mvcc.proto and
--                   the errors of meta/errors.go that the commands return.
--   Meta/Exec       results of calls: a value, an error or a panic, and the state after them.
--   Meta/Stats      meta/stats.go: UpdateRangeStats.
--   Meta/Value      meta/data.go: SetBytes, SetInt, GetBytes, GetInt.
--   Meta/Batch      meta/batch.go: Flags, IsLeader … IsSystem, GetPushType, Execute.
--   Engine          storage/engine/engine.go: the interface Engine, with laws that its comments
--                   state, but for Clear, which may leave the key; Engine/Scan is Scan; Engine/Memory is a sorted list that satisfies them.
--   Mvcc/Store      storage/engine/mvcc.go: MVCCGetMeta, MVCCPutMeta, MVCCPut, MVCCClear, MVCCGet.
--   Mvcc/Txn        storage/engine/mvcc.go: MVCCGetTxn, MVCCPutTxn.
--   Mvcc/Resolve    storage/engine/mvcc.go: MVCCResolveWriteIntent and its cases.
--   Replica         storage/replica_command.go: get, put, processPushTransaction, beginTransaction,
--                   endTransaction, heartbeatTransaction, resolveIntent; validateKeyRange of
--                   storage/replica.go.
--   Raft/Keys       storage/replica_raftstorage.go and util/keys.go: the keys of a range's log and
--                   indices, with the numbers as fmt writes them.
--   Raft/State      the fields of replica that the log uses, and raft's entries.
--   Raft/Index      loadOffsetIndex … setLastIndex, setHardState, loadHardState,
--                   loadRaftPrevIndex of storage/replica.go.
--   Raft/Log        Entries, Term, append, compact with setOffsetIndex.
--   Raft/Snapshot   data, snapshot, clear, applySnapshot, InitialState.
--   Raft/Ready      storage/replica.go: handleRaftReady.
--   Store           storage/store.go: the replicas and statistics of a node, createReplica,
--                   executeRootCmd and what they call, Create.
--   Store/Send      storage/store.go: Send with its retry loop, processWriteIntentError.
--   Store/Split     storage/rebalance.go: getSplitKey, split, fillRangeStats, updateRange.
--   Store/Stats     storage/stats.go: newNodeStats.
--   Pd/Oracle       pd/ts.go: loadTimestamp, saveTimestamp, getTimestamp and what they call.
--   Pd/Cluster      pd/cluster.go: the nodes by id and address, without loadNodes.
--   Pd/Ranges       util/cache/range_cache.go: Get, Unstable, Add, Lookup, Iterate, AdjustLeader;
--                   Pd/Ranges/Memory is an ordered cache as a list. Pd/Maps has the laws of maps.
--   Pd/State        pd/server.go: the fields that the ranges need, and what the driver meets outside.
--   Pd/Send         pd/util.go: sendBatchRequestToLeader, sendBatchRequest; GetNextNodeID of
--                   meta/metadata.go.
--   Pd/Region       pd/region.go: setRangeDescriptors, loadRangeDescriptors, getRangeDescriptors and
--                   what they call.
--   Pd/Check        pd/check.go: checkSplit, checkDelayRecord, getSplitKey, requestSplit, and
--                   checkSplit of pd/decision_maker.go; Pd/Fill is checkReplica.
--   Pd/Replicas     pd/replica.go: addReplica, deleteReplica, transferLeader.
--   Pd/Server       pd/server.go: the handlers, executeCmd, NodeMessage.
--   Pd/Ids          pd/id.go: newID, whose requests to etcd are the steps of a relation.
--   Client/State    the state and requests of a transaction of client/txn.go.
--   Client/Txn      client/txn.go: Set, Delete, Get, Commit, Rollback and what they call, with
--                   client/resolve_intent.go; Puts, Sends, Commits and Returns prove what a commit sends.
--   Tests           runs at fixed inputs, over a codec of its own.
--
-- The state of a command is the engine's contents and the statistics of the range, or none where
-- the code has a nil pointer. A command is one step: replicas apply commands one after the other.
-- An integer is an int64 or int32 kept by its sign; sums and differences wrap around. EncodeBytes
-- and decodeBytes loop on fuel, the length of their input (and one more for EncodeBytes), of which
-- each round takes a byte at least. The engine (the package badger) and the generated marshalling
-- are parameters: records of operations with laws. getTimestamp tries a hundred rounds, as the code.
-- Send retries without an end, so its loop runs on fuel; two rounds more than there are requests are
-- enough where a request meets no write intent once the one that it met is processed.
-- Clear on the engine itself, in badger.go, deletes in a transaction that it does not commit; no theorem
-- relies on more than that it leaves the other keys. Clear in a batch removes the key.
-- A time is a reading of the wall clock with one of the monotonic clock, by which Sub compares.
-- The numbers in raft's keys have sixteen digits, so the theorems on the log hold below 10 ^ 16.
-- A batch of raft's log is a copy of the engine's contents that takes their place when it is
-- committed. The maps of a store are functions. What etcd's raft and the client answer are
-- parameters. The ids that the driver's allocator gives, whether etcd accepts its writes, how nodes
-- answer it and its clock are functions of the calls made so far, in a record Outside. The tree behind
-- the cache of ranges (util/cache/cache.go, another project's) is a record of operations with laws.
-- A pointer to a descriptor is a place in a store, so what is changed through one map is seen through
-- the others. A request to the leader is sent 21 times at most, as the code.
-- The requests of a client's transaction are answered by functions of the number sent before, and its
-- map of batches is a list, the order of which no theorem on it tells. What Clear of its buffer leaves
-- is not relied on.
-- Not modelled: logging, the traces that errors carry (but for whether the end of a transaction sees
-- one), raft itself and its loop on channels, the network, etcd, and the scans.
pub mod Common
pub mod Encoding
pub mod Meta
pub mod Engine
pub mod Mvcc
pub mod Replica
pub mod Raft
pub mod Store
pub mod Pd
pub mod Client
pub mod Tests
