-- ===== src/Lib.antt =====
-- ZanRedisDB: a distributed store with the Redis protocol. A request reaches a node, goes through
-- raft, and is applied by the node's state machine (node/) to a storage layer (rockredis/) that
-- keeps the Redis data types as ordered keys of a RocksDB engine (engine/). This library models
-- the storage layer from its key codecs up to key-value pairs, lists and sets, and the state
-- machine that applies commands to them.
--
-- How the parts depend on each other: Codec makes bytes that are ordered like values; Key builds
-- the engine's keys from tables, keys and fields; Expire adds the header with expiry time and
-- version to stored values, and uses Codec to build version keys; Kv stores one value under a key
-- of Key, behind a header of Expire; Collection finds the header and the version key of a
-- collection, and Lists and Sets store elements under the keys of Key by those version keys. Kv,
-- Lists and Sets write through Engine, by one batch that they share. StateMachine runs commands of
-- raft entries by the operations of these three, and decides which of them write together; it asks
-- Conflict about writes of another cluster. Sync decides which entries of another cluster reach
-- the state machine. Limiter and Placement stand by themselves.
--
--   Prelude    shared names, tests on numbers, lists by native numbers, laws of the sign bit
--   Result     the errors of rockredis/ and Go's (value, error) pair; a run-time panic is an error
--   Bytes      byte slices, big-endian words, bytes.Compare, signed comparison on int64 patterns
--   Codec      Number: rockredis/number.go (EncodeInt, EncodeFloat and their kin);
--              Group: rockredis/bytes.go (EncodeBytes, decodeBytes);
--              Memcmp: rockredis/memcmp_codec.go (EncodeMemCmpKey, Decode, CutOne)
--   Key        the key encoders and decoders of rockredis/t_table.go and t_kv.go, and all meta keys
--              (encodeDataTablePrefixToBuf, lEncodeMetaKey); Key.Elements has those of the elements in
--              t_list.go, t_hash.go, t_set.go and t_ttl.go (lEncodeListKey, hEncodeHashKey)
--   Expire     rockredis/t_ttl_compact.go: headerMetaValue, encodeVerKey, rawExpireAt, isExpired
--   Engine     what the data types use of engine/: an interface with one law, RocksDB's batches; the
--              handle with the write batch that the operations share (BeginBatchWrite, MaybeCommitBatch
--              and their kin of rockredis/rockredis.go); Table is an instance of it
--   Collection rockredis/t_collections.go (collHeaderMeta, GetCollVersionKey,
--              prepareCollKeyForWrite; collExpire and collPersist in Collection.Ttl) and the table
--              counters of t_table.go
--   Kv         rockredis/t_kv.go: the reads in Kv, the writes in Kv.Write (KVSet, SetEx, incr, DelKeys,
--              MSet, SetRange, Append, BitSetOld, Expire), and the decimal numbers of rockredis/util.go
--              in Kv.Number. Kv.Model says what is stored for a value, Kv.Effect what calls on the
--              batch do to it
--   Lists      rockredis/t_list.go: the reads in Lists, fixListKey in Lists.Fix, lpush and lpop in
--              Lists.Write, ltrim, ltrim2, lDelete, LSet, LClear and LMclear in Lists.Trim. Lists.Model
--              says what it is for a key to hold a list of values, Lists.Places where the values stand
--   Sets       rockredis/t_set.go: the reads and sIncrSize in Sets; SAdd, SRem, SPop, sDelete, SClear
--              and SMclear in Sets.Write. Sets.Model says what it is for a key to hold a set, as a list
--              of members; Bytes.Members has the laws of such lists
--   Limiter    node/slow_limiter.go (SlowLimiter: run, MaybeAddSlow, CanPass, RecordSlowCmd)
--   Conflict   node/conflict_checker.go (the checks and conflictRouter)
--   StateMachine  node/state_machine.go: kvbatchOperator (IsBatchable, CommitBatch,
--              AbortBatchForError), ApplyRaftRequest, and the loop of applyEntries in node/node.go;
--              StateMachine.Handlers has the handlers of node/keys.go, ttl.go, list.go and set.go
--              and their router; StateMachine.Batch compares batched commands with the same ones one by one
--   Sync       node/remote_sync_mgr.go (remoteSyncedStateMgr, isAlreadyApplied, postprocessRemoteApply)
--              and the part of applyEntry in node/node.go that uses it, in Sync.Apply
--   Placement  cluster/pdnode_coord/place_driver.go: getRebalancedPartitionsFromNameList. Placement.Combined
--              is about its loop over the data centers, Placement.Rotated about successive nodes
--
-- How the code is modelled. An int64, a uint64 and a float64 are their bit patterns, as native
-- numbers below 2^64; signed comparison and the wrap-around are written out. A function with an
-- error returns a Result; a function that changes the store takes the handle and returns its
-- result and the new handle, on every branch. Maps are association lists. Loops recurse on the
-- list they run over, or on a number of rounds that is computed as the code bounds it; the
-- decoders' loops have as much fuel as the input has bytes, which is enough since a round takes
-- one byte at least, and the round trips show that they end with a result. The loop of the
-- placement has a round over the data centers for each node, which is enough since a round finds
-- one, as Placement.Combined shows. The print of a number has fuel for twenty digits, which a
-- uint64 does not exceed. The answers of the state machine are a list, in the order of the
-- triggers of the wait registry.
--
-- What is not modelled. The engine is a parameter: point reads, ordered iteration and batches, of
-- which only the batches have a law so far; its I/O errors are left out. The expiration policy is
-- WaitCompact. Sorted sets, bitmaps in segments, JSON and HyperLogLog with its caches, the
-- operations of hashes, scans and secondary indexes, raft, the write-ahead log and the transport,
-- custom requests and schema changes of the state machine, the transfer of snapshots, the loop of
-- the placement driver and the server are left out. An operation of the slow limiter is one step:
-- its atomic loads and stores are not interleaved. Metrics and logs are left out.
pub mod Prelude
pub mod Result
pub mod Bytes
pub mod Codec
pub mod Key
pub mod Expire
pub mod Limiter
pub mod Conflict
pub mod Engine
pub mod Collection
pub mod Lists
pub mod Kv
pub mod StateMachine
pub mod Sets
pub mod Sync
pub mod Placement
