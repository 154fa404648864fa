-- ===== src/Examples/Logs.antt =====
-- The log and the recovery, at a log of two entries.
use ferres_db.Base.{
  ◌+◌, ◌<◌, ◌≡◌, refl, ap, sym, true, false, some, List, [], ◌∷◌, ◌++◌, arith, length, take, keep,
}
use ferres_db.Base.Text.{Bytes, text, trim, trim_start, trim_end, is_whitespace}
use ferres_db.Base.Utf8.{as_bytes, encode_char, from_utf8, decode}
use ferres_db.Error.{ok, err, storage, wal_frame_cut}
use ferres_db.Collection
use ferres_db.Collection.{Collection}
use ferres_db.Wal.Entry.{
  WalEntry, delete, default_config, entry_bytes, json_line, zstd_frame, wal_zstd_magic,
}
use ferres_db.Wal.Read.{read_entries, read_bytes, read_entries_jsonl, read_lines, lines, lines_from}
use ferres_db.Wal.Log.{Wal, AppendIo, written, append_op, append_entry, sync_data}
use ferres_db.Wal.Holds.{Holds, read-append_op, read_entries-Holds, read_bytes-Encodes}
use ferres_db.Wal.Encodes.{Encodes}
use ferres_db.Wal.Sync.{Syncs, append_op-Syncs}
use ferres_db.Wal.Crash.{IsGarbage, read_torn_line, read_glued_line}
use ferres_db.Wal.CrashFrames.{read_torn_frame}
use ferres_db.Recovery.{
  apply, replay, recover_collection, not_older, write_entries, compact_wal_entries_older_than,
}
use ferres_db.Recovery.PointInTime.{recover-append_op}
use ferres_db.Recovery.Retention.{read-compact}
use ferres_db.Examples.Instances.{
  codec, codec-IsLawful, codec-Returns, second, line_of, toy, config, from_json, some_injective,
}

abbrev body : Bytes
body = json_line (line_of 3)

-- A log that holds the entry of the second 3.
abbrev log : Wal
log = record {
  file = body;
  synced = [];
  writer = some [];
  ops_since_snapshot = 1;
  config = default_config;
  ops_since_fsync = 0;
  last_fsync = 3;
}

abbrev io : AppendIo
io = record { timestamp = 4; write = written; now = 4; sync_ok = true; synced_at = 4 }

log-Holds : Holds codec log (second 3 ∷ [])
unfolding json_line as_bytes encode_char entry_bytes
log-Holds = record {
  body = body;
  encodes = (body, [], refl, refl, refl);
  file_is = refl;
  flushed = refl;
  counted = refl;
}

one_encoded : Encodes codec false (second 3 ∷ []) body
unfolding json_line as_bytes encode_char entry_bytes
one_encoded = (body, [], refl, refl, refl)

appended : (append_op codec io (delete (text "a")) log).0 ≡ ok tt
unfolding append_op append_entry sync_data json_line as_bytes encode_char entry_bytes
appended = refl

abbrev two : List WalEntry
two = second 3 ∷ second 4 ∷ []

read-append_op_example :
    (read_entries codec (some (append_op codec io (delete (text "a")) log).1.file) ≡ ok two)
    × (1 < 10_000)
read-append_op_example =
    read-append_op codec io (delete (text "a")) log (second 3 ∷ []) codec-IsLawful log-Holds
      appended (codec-Returns _, (codec-Returns _, tt))

append_op-Syncs_example : Syncs io log (append_op codec io (delete (text "a")) log).1
append_op-Syncs_example = append_op-Syncs codec io (delete (text "a")) log (omega arith) appended

abbrev empty : Collection toy
unfolding Collection.new Collection.with_index
empty = Collection.new toy config

recover-append_op_example :
    recover_collection toy codec
      (some (ok empty))
      (some (append_op codec io (delete (text "a")) log).1.file)
    ≡ ok (some (apply toy (delete (text "a")) (replay toy (second 3 ∷ []) empty)))
recover-append_op_example =
    recover-append_op toy codec io (delete (text "a")) log (second 3 ∷ []) empty codec-IsLawful
      log-Holds appended (codec-Returns _, (codec-Returns _, tt))

one_read : read_entries codec (some body) ≡ ok (second 3 ∷ [])
one_read =
    read_entries-Holds codec log (second 3 ∷ []) codec-IsLawful (codec-Returns _, tt) log-Holds

abbrev both : Bytes
both = json_line (line_of 3) ++ json_line (line_of 4)

both_encoded : Encodes codec false two both
unfolding json_line as_bytes encode_char entry_bytes
both_encoded = (
  json_line (line_of 3),
  json_line (line_of 4),
  refl,
  (json_line (line_of 4), [], refl, refl, refl),
  refl,
)

both_read : read_entries codec (some both) ≡ ok two
unfolding read_entries
both_read =
    read_bytes-Encodes codec false two both codec-IsLawful (codec-Returns _, (codec-Returns _, tt))
      both_encoded

removed_one : (compact_wal_entries_older_than codec 4 false (some both)).0 ≡ ok 1
unfolding compact_wal_entries_older_than write_entries read_entries read_bytes read_entries_jsonl
    read_lines lines lines_from from_utf8 decode trim trim_start trim_end is_whitespace entry_bytes
    json_line as_bytes encode_char
removed_one = refl

read-compact_example :
    (read_entries codec (compact_wal_entries_older_than codec 4 false (some both)).1
      ≡ ok (keep (not_older 4) two))
    × (1 + length (keep (not_older 4) two) ≡ 2)
read-compact_example =
    read-compact codec 4 false both two 1 codec-IsLawful (codec-Returns _, tt) both_read removed_one

long_enough : 2 < length (as_bytes (line_of 4))
unfolding as_bytes encode_char
long_enough = omega arith

glued-IsGarbage : IsGarbage codec (take 2 (as_bytes (line_of 4)) ++ as_bytes (line_of 5))
unfolding as_bytes encode_char from_utf8 decode
glued-IsGarbage u h = ap from_json (sym (some_injective h))

read_torn_line_example :
    read_entries codec (some (body ++ take 2 (as_bytes (line_of 4)))) ≡ ok (second 3 ∷ [])
read_torn_line_example =
    read_torn_line codec (second 3 ∷ []) body (second 4) (line_of 4) codec-IsLawful
      (codec-Returns _, tt) one_encoded refl 2 long_enough

read_glued_line_example :
    read_entries codec (some ((body ++ take 2 (as_bytes (line_of 4))) ++ json_line (line_of 5)))
    ≡ ok (second 3 ∷ [])
read_glued_line_example =
    read_glued_line codec (second 3 ∷ []) body (second 4) (line_of 4) codec-IsLawful
      (codec-Returns _, tt) one_encoded refl 2 (second 5) (line_of 5) long_enough (omega arith) refl
      glued-IsGarbage

abbrev payload : Bytes
payload = 0 ∷ line_of 4

read_torn_frame_example :
    read_entries codec (some (wal_zstd_magic ++ ([] ++ take 6 (zstd_frame payload))))
    ≡ err (storage wal_frame_cut)
read_torn_frame_example =
    read_torn_frame codec [] [] payload 6 codec-IsLawful tt refl (omega arith) (omega arith)
