-- ===== src/Lib.antt =====
-- FerresDB is a vector database: a core library (crates/core) and a server (crates/server). This
-- library models the core's data path, from a point to the disk and back, and the server's access
-- control.
--
-- How the parts interact. A point (crates/core/src/point.rs) is kept under its storage id in a
-- collection (crates/core/src/collection.rs), which hands its vectors to an index of the trait
-- ANNIndex (crates/core/src/search.rs) and its text to a BM25 index (crates/core/src/bm25.rs). The
-- server writes an operation to the write-ahead log (crates/core/src/wal.rs) before it changes the
-- collection; a snapshot (crates/core/src/storage.rs) empties the log, and a recovery replays the
-- log over the snapshot. Points that are seldom read move to colder tiers
-- (crates/core/src/tiered.rs), and an index with many removed points is rebuilt in the background
-- (crates/core/src/reindex.rs). The engine (crates/core/src/lib.rs) keeps the table of collections
-- with their logs and directories, and does these steps in the order of its calls. The points that
-- name each other as relations are a graph, which is searched breadth first
-- (crates/core/src/graph.rs).
--
-- Files and code:
--   Base: shared names, texts as lists of code points, UTF-8, maps as association lists.
--   Error, Exec: crates/core/src/error.rs, and methods on a state that may fail.
--   Breaker: StorageCircuitBreaker of crates/core/src/storage.rs.
--   Point: Point and the storage id of crates/core/src/point.rs.
--   Bm25: Bm25Index of crates/core/src/bm25.rs, without the score.
--   Wal: Wal of crates/core/src/wal.rs; Entry has the formats, Read the readers, Log the writer.
--   Recovery: the functions behind Wal in crates/core/src/wal.rs.
--   Snapshot: FileStorage of crates/core/src/storage.rs; Save writes, the parent loads.
--   Backend: what a collection is built over, as a record of operations.
--   Collection: Collection of crates/core/src/collection.rs; Batch has insert_batch, Sweep has the
--     operations on many points, the swap of the index, the dirty flag and the auto-tuning, Runs has
--     rows of calls, Search the search with its cache, Connected the search in the graph.
--   Hnsw: HnswIndex of crates/core/src/search.rs.
--   Tiered: access tracker and compaction rule of crates/core/src/tiered.rs; Warm is WarmStorage
--     and Repack its compact and flush, Cold is ColdStorage, Layers is TieredCollection, Compaction
--     has its batches and run_compaction, Metadata is TierMetadata.
--   Engine: VectorDB and AnyCollection of crates/core/src/lib.rs; Load opens a database on its
--     directories, Query has the searches and the statistics, Filter is MetadataFilter.
--   Graph: traverse_bfs of crates/core/src/graph.rs.
--   Access: crates/server/src/permissions.rs and the checks of crates/server/src/auth.rs.
--   Reindex: build_new_index and apply_delta of crates/core/src/reindex.rs.
--   Examples: the theorems at concrete inputs.
--
-- Models and bounds. Numbers are natural numbers; where the code's width matters, the wrap-around
-- is written out (counts of terms, lengths of frames, the failures of the circuit breaker). An f32
-- is its bit pattern. The frame reader of the log runs on fuel, the length of the file; a round
-- takes four bytes at least. The filtered search of the index runs the code's 20 rounds.
-- The search of the graph runs on fuel; a round takes one entry off the queue, and a point comes
-- on the queue once, so that more fuel than there are points is enough. A HashMap
-- is an association list whose order no theorem uses. Mutexes, atomics and threads are left out:
-- every method is one step.
--
-- Parameters: serde_json, bincode, zstd and md5 (Codec, Formats), the graph of hnsw_rs and vector
-- normalisation (Hnsw.Graph), the lru cache, and an implementation of ANNIndex (Backend); the
-- engine has them together (Env), with what the clock and the disk answer to a call (CallIo). The
-- values of serde_json in a filter and comparisons of f64 are one more (Values). Which files of the
-- cold storage can be written is a parameter, too. What the theorems use of them are named
-- hypotheses. That an entry of the log is read back from its JSON is asked of the entries concerned
-- only, since an f32 that is not finite is not.
--
-- Not modelled: floating-point scores and distances, quantisation, the network interfaces,
-- replication, users and keys, and the file system's errors in snapshots and in the warm storage.
-- A namespace is taken as the name of one directory: what the code does with one that has a '/' in
-- it or is '..' is left out.
pub mod Base
pub mod Error
pub mod Exec
pub mod Breaker
pub mod Point
pub mod Bm25
pub mod Wal
pub mod Hnsw
pub mod Backend
pub mod Collection
pub mod Snapshot
pub mod Recovery
pub mod Tiered
pub mod Access
pub mod Reindex
pub mod Engine
pub mod Graph
mod Examples
