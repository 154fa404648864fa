-- ===== src/Wal/Log.antt =====
-- `Wal`: the open log. The state holds the bytes of `wal.log`, what of them a sync has put on the
-- disk, the buffer of the writer, and the counters. The fsync hook only measures and is left out.
use ferres_db.Base.{
  ℕ, ◌+◌, ◌-◌, Bool, true, Option, none, some, [], ◌++◌, leb, ◌||◌, take, drop, if◌then◌else◌,
}
use ferres_db.Base.Text.{Text, Bytes}
use ferres_db.Error.{
  Result, ok, err, ◌>>=◌, storage, wal_too_large, wal_writer_closed, wal_write, wal_fsync,
}
use ferres_db.Point.{Point}
use ferres_db.Wal.Entry.{
  WalEntry, WalOperation, WalConfig, Codec, upsert, delete, link, wal_zstd_magic, entry_bytes,
}
use ferres_db.Wal.Read.{count_entries}

pub record Wal : Type 0 where
  pub file : Bytes
  pub synced : Bytes
  pub writer : Option Bytes
  pub ops_since_snapshot : ℕ
  pub config : WalConfig
  pub ops_since_fsync : ℕ
  pub last_fsync : ℕ

-- How a write and its flush end: all bytes reach the file, or an error comes after the first `n`
-- of them. Of the rest the first bytes stay in the buffer, such as those of an earlier entry, and
-- the others are lost.
pub data WriteOutcome : Type 0 where
  written : WriteOutcome
  torn : ℕ → ℕ → WriteOutcome

-- What the environment answers to one append: the clock for the entry, the write, the clock for
-- the interval, whether `sync_data` succeeds, and the clock after it.
pub record AppendIo : Type 0 where
  pub timestamp : ℕ
  pub write : WriteOutcome
  pub now : ℕ
  pub sync_ok : Bool
  pub synced_at : ℕ

-- `MAX_WAL_OPS_BEFORE_BACKPRESSURE`.
abbrev pub max_wal_ops_before_backpressure : ℕ
max_wal_ops_before_backpressure = 10_000

abbrev pub magic_if_new : Bool → Bytes → Bytes
magic_if_new true [] = wal_zstd_magic
magic_if_new compress file = file

abbrev pub opened : WalConfig → ℕ → Bytes → ℕ → Wal
opened config now file count = record {
  file = magic_if_new config.compress file;
  synced = [];
  writer = some [];
  ops_since_snapshot = count;
  config = config;
  ops_since_fsync = 0;
  last_fsync = now;
}

-- `open_with_config` on a directory that holds the file or not.
unfoldable pub open_with_config : Codec → WalConfig → ℕ → Option Bytes → Result Wal
open_with_config c config now none = ok (opened config now [] 0)
open_with_config c config now (some file) = do
  count ← count_entries c file
  ok (opened config now file count)

-- The sync at the end of `append_entry`.
unfoldable pub sync_data : AppendIo → Wal → Result (Unit {0}) × Wal
sync_data io w =
    if io.sync_ok
    then (ok tt, record w { synced = w.file; ops_since_fsync = 0; last_fsync = io.synced_at })
    else (err (storage wal_fsync), w)

abbrev pub after_flush : AppendIo → Wal → Result (Unit {0}) × Wal
after_flush io w =
    if w.config.fsync_per_write
    then sync_data io w
    else (let counted : Wal = record w { ops_since_fsync = w.ops_since_fsync + 1 } in
        if leb w.config.fsync_every_n_ops counted.ops_since_fsync
          || leb w.config.fsync_interval (io.now - w.last_fsync)
        then sync_data io counted
        else (ok tt, counted))

-- The bytes go behind those that an earlier error has left in the buffer.
abbrev pub flush_out : AppendIo → WriteOutcome → Bytes → Wal → Result (Unit {0}) × Wal
flush_out io written pending w =
    after_flush io (record w { file = w.file ++ pending; writer = some [] })
flush_out io (torn n kept) pending w = (
  err (storage wal_write),
  record w { file = w.file ++ take n pending; writer = some (take kept (drop n pending)) },
)

abbrev pub with_bytes : AppendIo → Result Bytes → Bytes → Wal → Result (Unit {0}) × Wal
with_bytes io (ok bytes) buffer w = flush_out io io.write (buffer ++ bytes) w
with_bytes io (err e) buffer w = (err e, w)

unfoldable pub append_entry : Codec → AppendIo → WalEntry → Wal → Result (Unit {0}) × Wal
unfolding sync_data
append_entry c io e w = elim w.writer [
  | none ↦ (err (storage wal_writer_closed), w)
  | some buffer ↦ with_bytes io (entry_bytes c w.config.compress e) buffer w
]

abbrev pub count_op : Result (Unit {0}) × Wal → Result (Unit {0}) × Wal
count_op (ok u, w) = (ok u, record w { ops_since_snapshot = w.ops_since_snapshot + 1 })
count_op (err e, w) = (err e, w)

-- What the three appends share.
unfoldable pub append_op : Codec → AppendIo → WalOperation → Wal → Result (Unit {0}) × Wal
append_op c io op w =
    if leb max_wal_ops_before_backpressure w.ops_since_snapshot
    then (err (storage wal_too_large), w)
    else count_op (append_entry c io (record { timestamp = io.timestamp; operation = op }) w)

unfoldable pub append_upsert : Codec → AppendIo → Point → Wal → Result (Unit {0}) × Wal
unfolding append_op
append_upsert c io p w = append_op c io (upsert p) w

unfoldable pub append_delete : Codec → AppendIo → Text → Wal → Result (Unit {0}) × Wal
unfolding append_op
append_delete c io id w = append_op c io (delete id) w

unfoldable pub append_link : Codec → AppendIo → Text → Text → Wal → Result (Unit {0}) × Wal
unfolding append_op
append_link c io from to w = append_op c io (link from to) w

unfoldable pub should_snapshot : Wal → Bool
should_snapshot w = leb w.config.snapshot_threshold w.ops_since_snapshot

-- How the truncation ends.
pub data TruncateOutcome : Type 0 where
  truncated open_failed reopen_failed : TruncateOutcome
  magic_torn : ℕ → TruncateOutcome

abbrev pub magic : Wal → Bytes
magic w = if w.config.compress then wal_zstd_magic else []

unfoldable pub truncate_after_snapshot : TruncateOutcome → Wal → Result (Unit {0}) × Wal
truncate_after_snapshot truncated w =
    (ok tt, record w { file = magic w; writer = some []; ops_since_snapshot = 0 })
truncate_after_snapshot open_failed w = (err (storage wal_write), record w { writer = none })
truncate_after_snapshot reopen_failed w =
    (err (storage wal_write), record w { file = magic w; writer = none })
truncate_after_snapshot (magic_torn n) w =
    (err (storage wal_write), record w { file = take n (magic w); writer = none })
