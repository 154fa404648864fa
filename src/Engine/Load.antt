-- ===== src/Engine/Load.antt =====
-- Opening a database: `load_collections_from_disk` of `VectorDB` (crates/core/src/lib.rs).
use ferres_db.Base.{Option, none, some, [], ◌∷◌, ltb, if◌then◌else◌}
use ferres_db.Base.Text.{Text}
use ferres_db.Base.Dict
use ferres_db.Base.Dict.{Dict}
use ferres_db.Error.{Result, ok, err}
use ferres_db.Exec.{Exec, resume, ◌>>◌, pure}
use ferres_db.Breaker
use ferres_db.Breaker.{Breaker, default_breaker}
use ferres_db.Collection.{Collection}
use ferres_db.Snapshot.{CollectionDir, load_collection}
use ferres_db.Snapshot.Save
use ferres_db.Recovery.{recover_collection}
use ferres_db.Wal.Entry.{WalConfig, default_config}
use ferres_db.Wal.Log.{Wal, open_with_config, truncate_after_snapshot}
use ferres_db.Engine.{
  Env, VectorDb, CallIo, StorageOptions, Directory, wrapped, put_saved, directory,
}

-- What `Wal::open` is called with: the compression is the only option that it is given.
abbrev pub reopen_config : StorageOptions → WalConfig
reopen_config options = record default_config { compress = options.wal_compression }

module _ (env : Env) where
  -- What the snapshot of a directory loads as, when there is one.
  abbrev pub snapshot_of : CollectionDir → Option (Result (Collection env.backend))
  snapshot_of dir = elim dir.config [
    | none ↦ none
    | some t ↦ some (load_collection env.backend env.formats dir)
  ]

  -- The table entries of a collection that was recovered.
  unfoldable pub register :
      CallIo → Text → Collection env.backend → Wal → VectorDb env → VectorDb env
  unfolding wrapped
  register io dir_name c w db = record db {
    collections =
        Dict.insert c.config.name (wrapped env io.now c.config (directory env dir_name db) c)
          db.collections;
    wals = Dict.insert c.config.name w db.wals;
  }

  abbrev pub registered :
      CallIo
      → Text
      → Collection env.backend
      → Result (Unit {0}) × Wal
      → VectorDb env
      → Result (Unit {0}) × VectorDb env
  registered io dir_name c (err e, w) db = (err e, db)
  registered io dir_name c (ok u, w) db = (ok tt, register io dir_name c w db)

  -- A log with entries is consolidated: a snapshot, and the truncation.
  abbrev pub consolidated :
      CallIo → Text → Collection env.backend → Wal → VectorDb env → Result (Unit {0}) × VectorDb env
  consolidated io dir_name c w db =
      resume
        (put_saved env dir_name
          (Breaker.call io.now io.done
            (Save.save_collection env.backend env.formats io.now c
              db.storage_options.binary_snapshot db.storage_options.namespace_physical_isolation)
            db.storage_circuit_breaker (directory env dir_name db).snapshot)
          db)
        (λ _ db'. registered io dir_name c (truncate_after_snapshot io.truncation w) db')

  abbrev pub with_log :
      CallIo
      → Text
      → Collection env.backend
      → Result Wal
      → VectorDb env
      → Result (Unit {0}) × VectorDb env
  with_log io dir_name c (err e) db = (err e, db)
  with_log io dir_name c (ok w) db =
      if ltb 0 w.ops_since_snapshot
      then consolidated io dir_name c w db
      else registered io dir_name c (ok tt, w) db

  -- A directory without a snapshot is skipped, and so is one whose recovery fails.
  abbrev pub recovered :
      CallIo
      → Text
      → Directory
      → Result (Option (Collection env.backend)) × Breaker × Unit {0}
      → VectorDb env
      → Result (Unit {0}) × VectorDb env
  recovered io dir_name dir (err e, breaker, u) db =
      (ok tt, record db { storage_circuit_breaker = breaker })
  recovered io dir_name dir (ok none, breaker, u) db =
      (ok tt, record db { storage_circuit_breaker = breaker })
  recovered io dir_name dir (ok (some c), breaker, u) db =
      with_log io dir_name c
        (open_with_config env.codec (reopen_config db.storage_options) io.now dir.log)
        (record db { storage_circuit_breaker = breaker })

  unfoldable pub load_one : CallIo → Text → Directory → Exec (VectorDb env) (Unit {0})
  unfolding register open_with_config truncate_after_snapshot recover_collection
  load_one io dir_name dir db =
      recovered io dir_name dir
        (Breaker.call io.now io.done
          (λ (u : Unit {0}).
            (recover_collection env.backend env.codec (snapshot_of dir.snapshot) dir.log, u))
          db.storage_circuit_breaker tt)
        db

  unfoldable pub load_collections : CallIo → Dict Directory → Exec (VectorDb env) (Unit {0})
  unfolding load_one
  load_collections io [] = pure tt
  load_collections io ((dir_name, dir) ∷ dirs) =
      load_one io dir_name dir >> load_collections io dirs

  -- `with_storage_options` on the directories of the storage path.
  unfoldable pub open_database :
      CallIo → StorageOptions → Dict Directory → Result (Unit {0}) × VectorDb env
  unfolding load_collections
  open_database io options dirs = load_collections io dirs (record {
    collections = [];
    wals = [];
    directories = dirs;
    storage_circuit_breaker = default_breaker;
    storage_options = options;
  })
