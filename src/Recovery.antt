-- ===== src/Recovery.antt =====
-- Recovery from a snapshot and the log (crates/core/src/wal.rs, the functions behind `Wal`), and the
-- retention's compaction of the log.
pub mod Replay
pub mod PointInTime
pub mod Retention
use ferres_db.Base.{
  ℕ, ◌-◌, Bool, true, false, Option, none, some, List, [], ◌∷◌, ◌++◌, ◌==◌, ltb, leb, ◌||◌, ◌&&◌,
  length, is_empty, keep, if◌then◌else◌, unwrap_or,
}
use ferres_db.Base.Text.{Text, Bytes}
use ferres_db.Error.{Result, ok, err, ◌>>=◌}
use ferres_db.Point.{Point}
use ferres_db.Backend.{Backend}
use ferres_db.Collection.{Collection, insert, remove, add_relation}
use ferres_db.Wal.Entry.{
  WalEntry, WalOperation, upsert, delete, link, Codec, entry_bytes, wal_zstd_magic,
}
use ferres_db.Wal.Read.{read_entries}

-- `sort` and `dedup` of the timestamps.
unfoldable pub insert_time : ℕ → List ℕ → List ℕ
insert_time t [] = t ∷ []
insert_time t (u ∷ ts) = if leb t u then t ∷ u ∷ ts else u ∷ insert_time t ts

unfoldable pub sort_times : List ℕ → List ℕ
sort_times [] = []
sort_times (t ∷ ts) = insert_time t (sort_times ts)

unfoldable pub dedup : List ℕ → List ℕ
dedup [] = []
dedup (t ∷ ts) = elim (dedup ts) [ [] ↦ t ∷ [] | u ∷ us ↦ if t == u then u ∷ us else t ∷ u ∷ us ]

pub record RestorePoints : Type 0 where
  pub last_snapshot_timestamp : ℕ
  pub wal_timestamps : List ℕ

abbrev pub timestamps : List WalEntry → List ℕ
timestamps [] = []
timestamps (e ∷ es) = e.timestamp ∷ timestamps es

-- The number in the file `last_snapshot_timestamp`; none stands for no file and for an unreadable one.
unfoldable pub read_last_snapshot_timestamp : Option ℕ → ℕ
read_last_snapshot_timestamp file = unwrap_or file 0

unfoldable pub list_restore_points : Codec → Option ℕ → Option Bytes → Result RestorePoints
list_restore_points c snapshot wal = do
  es ← read_entries c wal
  ok (record {
    last_snapshot_timestamp = read_last_snapshot_timestamp snapshot;
    wal_timestamps = dedup (sort_times (timestamps es));
  })

-- The loop over the entries that are kept: how it ends, and what it has written. A buffered writer
-- that is dropped on an error writes out what it holds.
abbrev pub behind : Result Bytes → Result (Unit {0}) × Bytes → Result (Unit {0}) × Bytes
behind (err e) rest = (err e, [])
behind (ok f) (r, s) = (r, f ++ s)

unfoldable pub write_entries : Codec → Bool → List WalEntry → Result (Unit {0}) × Bytes
write_entries c z [] = (ok tt, [])
write_entries c z (e ∷ es) = behind (entry_bytes c z e) (write_entries c z es)

abbrev pub not_older : ℕ → WalEntry → Bool
not_older cutoff e = leb cutoff e.timestamp

abbrev pub ended : Result (Unit {0}) → ℕ → Result ℕ
ended (ok u) n = ok n
ended (err e) n = err e

abbrev pub rewrite_kept : Codec → Bool → ℕ → List WalEntry → Bytes → Result ℕ × Option Bytes
rewrite_kept c compress original kept file =
    let removed : ℕ = original - length kept in
    let (r, s) = write_entries c compress kept in
    if removed == 0
    then (ok 0, some file)
    else (ended r removed, some ((if compress then wal_zstd_magic else []) ++ s))

-- The number of entries that went, and the file after the call.
unfoldable pub compact_wal_entries_older_than :
    Codec → ℕ → Bool → Option Bytes → Result ℕ × Option Bytes
compact_wal_entries_older_than c cutoff compress none = (ok 0, none)
compact_wal_entries_older_than c cutoff compress (some file) = elim (read_entries c (some file)) [
  | err e ↦ (err e, some file)
  | ok es ↦ rewrite_kept c compress (length es) (keep (not_older cutoff) es) file
]

-- The entries that a recovery to a point in time applies.
abbrev pub in_window : ℕ → ℕ → WalEntry → Bool
in_window snapshot target e = leb e.timestamp target && (snapshot == 0 || ltb snapshot e.timestamp)

module _ (b : Backend) where
  -- One entry; its errors are logged and skipped.
  unfoldable pub apply : WalOperation → Collection b → Collection b
  apply (upsert p) c = (insert b p c).1
  apply (delete id) c = (remove b id c).1
  apply (link from to) c = (add_relation b from to c).1

  unfoldable pub replay : List WalEntry → Collection b → Collection b
  replay [] c = c
  replay (e ∷ es) c = replay es (apply e.operation c)

  -- `load` is what the snapshot loads as; none stands for a directory without `config.json`.
  unfoldable pub recover_collection :
      Codec → Option (Result (Collection b)) → Option Bytes → Result (Option (Collection b))
  recover_collection codec none wal = ok none
  recover_collection codec (some load) wal = do
    c ← load
    es ← read_entries codec wal
    ok (some (replay es c))

  unfoldable pub recover_collection_to_timestamp :
      Codec
      → ℕ
      → Option ℕ
      → Option (Result (Collection b))
      → Option Bytes
      → Result (Option (Collection b))
  unfolding read_last_snapshot_timestamp
  recover_collection_to_timestamp codec target snapshot none wal = ok none
  recover_collection_to_timestamp codec target snapshot (some load) wal = do
    c ← load
    es ← read_entries codec wal
    ok (some (replay (keep (in_window (read_last_snapshot_timestamp snapshot) target) es) c))
