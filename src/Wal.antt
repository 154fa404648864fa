-- ===== src/Wal.antt =====
-- The write-ahead log of a collection (crates/core/src/wal.rs): its entries and their format, the
-- reader, the log with its counters, and what a crash can do to it.
pub mod Entry
pub mod Read
pub mod Log
pub mod Encodes
pub mod Lines
pub mod Frames
pub mod Holds
pub mod Sync
pub mod Crash
pub mod CrashFrames
