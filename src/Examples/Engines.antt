-- ===== src/Examples/Engines.antt =====
-- The engine, at a database of one collection.
use ferres_db.Base.{◌≡◌, refl, true, false, none, some, [], ◌∷◌, arith}
use ferres_db.Base.Text.{text, text_eq}
use ferres_db.Base.Dict
use ferres_db.Error.{ok, err, point_not_found}
use ferres_db.Point.{Point, storage_id, storage_id_from_parts}
use ferres_db.Breaker
use ferres_db.Breaker.{cb_closed}
use ferres_db.Collection
use ferres_db.Collection.{Collection}
use ferres_db.Snapshot.{
  CollectionDir, empty_dir, load_collection, points_bytes, load_points_from_dir, load_namespaces,
  from_points, build_fields, insert_all,
}
use ferres_db.Snapshot.Save
use ferres_db.Wal.Entry.{WalEntry, default_config}
use ferres_db.Wal.Log.{Wal, AppendIo, written, truncated, truncate_after_snapshot, open_with_config}
use ferres_db.Wal.Holds.{Holds}
use ferres_db.Recovery.{replay, recover_collection}
use ferres_db.Engine.{
  Env, CallIo, StorageOptions, no_directory, VectorDb, plain, upsert_points, prepare, delete_points,
  directory, AnyCollection, tiered, insert_point, remove_point_from_all, resolve_point,
  save_collection, inner,
}
use ferres_db.Engine.Durable.{Durable, Recovers, recovery-upsert_points}
use ferres_db.Engine.Load.{open_database}
use ferres_db.Engine.Reopened.{Unsynced, open_database-Unsynced}
use ferres_db.Engine.Tiers.{recovery-snapshot, remove-namespaced}
use ferres_db.Tiered.{hot, warm}
use ferres_db.Tiered.Layers
use ferres_db.Tiered.Layers.{TieredCollection}
use ferres_db.Examples.Instances.{toy, config, codec, codec-IsLawful, codec-Returns, a}
use ferres_db.Examples.Snapshots.{
  formats, loaded, loads, saved_dir, fresh_dir, docs, docs-IsKeyed, formats-IsLawful, a-IsValid,
}

abbrev env : Env
env = record { backend = toy; codec = codec; formats = formats; normalize_vector = λ v. ok v }

abbrev io : CallIo
io = record {
  append = λ i. record { timestamp = 4; write = written; now = 4; sync_ok = true; synced_at = 4 };
  now = 4;
  done = 4;
  truncation = truncated;
}

abbrev log : Wal
log = record {
  file = [];
  synced = [];
  writer = some [];
  ops_since_snapshot = 0;
  config = default_config;
  ops_since_fsync = 0;
  last_fsync = 3;
}

abbrev options : StorageOptions
options = record {
  wal_compression = false;
  binary_snapshot = true;
  namespace_physical_isolation = false;
  wal_fsync_per_write = true;
}

-- A database whose collection `docs` was just loaded.
abbrev database : Collection toy → CollectionDir → VectorDb env
database c dir = record {
  collections = (text "docs", plain c) ∷ [];
  wals = (text "docs", log) ∷ [];
  directories = (text "docs", record no_directory { snapshot = dir }) ∷ [];
  storage_circuit_breaker = record {
    failure_count = 0;
    last_failure = 0;
    state = cb_closed;
    failure_threshold = 5;
    reset_timeout_secs = 60;
  };
  storage_options = options;
}

log-Holds : Holds codec log []
log-Holds = record { body = []; encodes = refl; file_is = refl; flushed = refl; counted = refl }

fresh-Durable :
    (c : Collection toy) (dir : CollectionDir)
    → load_collection toy formats dir ≡ ok c
    → Durable env (λ p. true) (text "docs") (database c dir)
unfolding Dict.get text_eq replay
fresh-Durable c dir h = record {
  memory = c;
  wal = log;
  loaded = c;
  logged = [];
  in_table = refl;
  in_wals = refl;
  loads = h;
  holds = log-Holds;
  plain_log = tt;
  same_config = refl;
  agree = λ k. refl;
}

abbrev new_dir : CollectionDir
new_dir = record {
  config = some (text "{}");
  last_snapshot = none;
  root = empty_dir;
  namespaces = [];
}

abbrev empty : Collection toy
unfolding Collection.new Collection.with_index
empty = Collection.new toy config

new_loads : load_collection toy formats new_dir ≡ ok empty
unfolding load_collection load_points_from_dir load_namespaces from_points build_fields insert_all
    empty
new_loads = refl

abbrev upserted : VectorDb env
unfolding upsert_points Dict.get Dict.insert text_eq Collection.insert storage_id
    storage_id_from_parts
upserted = (upsert_points env io (text "docs") (a ∷ []) (database empty new_dir)).1

upsert_runs :
    upsert_points env io (text "docs") (a ∷ []) (database empty new_dir) ≡ (ok tt, upserted)
unfolding upserted upsert_points Collection.validate_dimension empty ferres_db.Wal.Log.append_op
    ferres_db.Wal.Log.append_entry ferres_db.Wal.Entry.entry_bytes
    Collection.validate_point_named_vectors Collection.validate_named ferres_db.Exec.each
    ferres_db.Wal.Log.should_snapshot
upsert_runs = refl

upsert_prepared : prepare env config (a ∷ []) ≡ ok (a ∷ [])
unfolding prepare Collection.validate_dimension
upsert_prepared = refl

recovery-upsert_points_example : Recovers env (λ p. true) (text "docs") upserted
unfolding fresh-Durable empty ferres_db.Engine.Appends.entries
recovery-upsert_points_example =
    recovery-upsert_points env (λ p. true) io (text "docs") (a ∷ []) (a ∷ [])
      (database empty new_dir) upserted (fresh-Durable empty new_dir new_loads) (λ p i. refl)
      codec-IsLawful upsert_prepared (omega arith) (codec-Returns _, tt) upsert_runs

abbrev deleted : VectorDb env
unfolding delete_points
deleted = (delete_points env io (text "docs") (text "a" ∷ []) none (database loaded saved_dir)).1

-- A database that is opened on the directory of `docs`.
open_database-Unsynced_example :
    Unsynced
      (open_database env io options
        ((text "docs", record no_directory { snapshot = saved_dir; log = some [] }) ∷ [])).1.wals
open_database-Unsynced_example =
    open_database-Unsynced env io options
      ((text "docs", record no_directory { snapshot = saved_dir; log = some [] }) ∷ [])

-- A tiered collection without points, and a point with a namespace.
abbrev layers : TieredCollection toy
unfolding Layers.new empty
layers = Layers.new toy 0 empty config.tiered_storage (
    some (
      record { vectors_file = none; index_file = none; mmap = none; offsets = []; dimension = 2 },
      record { files = [] },
    ))

abbrev named : Point
named = record a { namespace = some (text "n") }

abbrev with_named : AnyCollection toy
unfolding insert_point
with_named = (insert_point toy 5 named (tiered layers)).1

no_tier : Dict.get (storage_id named) layers.point_tiers ≡ none
unfolding layers Dict.get
no_tier = refl

named_inserted : insert_point toy 5 named (tiered layers) ≡ (ok tt, with_named)
unfolding layers with_named insert_point Layers.insert Collection.insert
    Collection.validate_dimension Collection.validate_point_named_vectors Collection.validate_named
    ferres_db.Exec.each
named_inserted = refl

remove-namespaced_example :
    ((resolve_point toy formats 5 (storage_id named) with_named).0 ≡ some named)
    × (remove_point_from_all toy (storage_id named) with_named
        ≡ (err (point_not_found (storage_id named)), with_named))
remove-namespaced_example =
    remove-namespaced env 5 (text "n") named layers with_named refl no_tier named_inserted

-- A tiered collection whose point "a" is hot, and whose point "b" is warm.
abbrev both : TieredCollection toy
unfolding layers
both = record layers { collection = docs; point_tiers = (text "a", hot) ∷ (text "b", warm) ∷ [] }

abbrev layered : VectorDb env
layered = record (database docs fresh_dir) { collections = (text "docs", tiered both) ∷ [] }

abbrev layered_saved : VectorDb env
unfolding save_collection
layered_saved = (save_collection env io (text "docs") layered).1

layered_saves : save_collection env io (text "docs") layered ≡ (ok tt, layered_saved)
unfolding layered_saved save_collection Save.save_collection Save.save_points
    Save.write_points_and_index points_bytes Save.write_points Save.write_checksum Breaker.call
    Breaker.on_success Dict.get Dict.insert text_eq inner both
layered_saves = refl

layered_loads :
    load_collection toy formats (directory env (text "docs") layered_saved).snapshot ≡ ok loaded
unfolding layered_saved save_collection load_collection load_points_from_dir load_namespaces loaded
    Save.save_collection Save.save_points Save.write_points_and_index points_bytes Save.write_points
    Save.write_checksum Breaker.call Breaker.on_success Dict.get Dict.insert text_eq inner both
layered_loads = refl

recovery-snapshot_example :
    (recover_collection toy codec
        (some (load_collection toy formats (directory env (text "docs") layered_saved).snapshot))
        (some (truncate_after_snapshot truncated log).1.file)
      ≡ ok (some loaded))
    × (Dict.get (text "b") loaded.points ≡ Dict.get (text "b") docs.points)
unfolding Dict.get text_eq inner both
recovery-snapshot_example =
    recovery-snapshot env io (text "docs") (text "b") (tiered both) log layered layered_saved loaded
      refl refl formats-IsLawful (λ t h. refl) docs-IsKeyed (a-IsValid, tt) (λ e. refl) refl
      codec-IsLawful layered_saves layered_loads
