-- ===== src/Engine.antt =====
-- `VectorDB` and `AnyCollection` (crates/core/src/lib.rs): the table of collections with their logs
-- and directories. A directory of a collection that is open has stale copies of the log and of the
-- tiers' files; the handles have the current ones.
pub mod Load
pub mod Query
pub mod Filter
pub mod Appends
pub mod Durable
pub mod Reopened
pub mod Tiers
use ferres_db.Base.{
  ℕ, ◌+◌, Bool, true, false, Option, none, some, List, [], ◌∷◌, ◌==◌, ltb, length, is_some,
  is_empty, if◌then◌else◌, map, unwrap_or,
}
use ferres_db.Base.Text.{Text, Bytes}
use ferres_db.Base.Dict
use ferres_db.Base.Dict.{Dict, contains_key}
use ferres_db.Error.{
  FerresError, Result, ok, err, ok_or, ◌>>=◌, collection_not_found, collection_already_exists,
  point_not_found, invalid_vector, not_finite, zero_dimension,
}
use ferres_db.Exec.{Exec, resume, ◌>>◌, pure}
use ferres_db.Point.{Point, Vector, storage_id_from_parts}
use ferres_db.Backend.{Backend, CollectionConfig, DistanceMetric, cosine}
use ferres_db.Breaker
use ferres_db.Breaker.{Breaker}
use ferres_db.Collection
use ferres_db.Collection.{Collection, validate_dimension}
use ferres_db.Snapshot.{CollectionDir, Formats, empty_dir}
use ferres_db.Snapshot.Save
use ferres_db.Wal.Entry.{Codec, WalOperation, WalConfig, default_config, upsert, delete}
use ferres_db.Wal.Log.{
  Wal, AppendIo, TruncateOutcome, append_op, append_upsert, append_delete, should_snapshot,
  truncate_after_snapshot, open_with_config,
}
use ferres_db.Tiered.Warm
use ferres_db.Tiered.Layers
use ferres_db.Tiered.Layers.{TieredCollection, get_from_any_tier}

-- What the engine is built over.
pub record Env : Type 1 where
  pub backend : Backend
  pub codec : Codec
  pub formats : Formats
  pub normalize_vector : Vector → Result Vector

-- What the environment answers to one call: to each append, the clock for the tiers and the
-- snapshot, the clock when a save has failed, and the truncation of the log.
pub record CallIo : Type 0 where
  pub append : ℕ → AppendIo
  pub now : ℕ
  pub done : ℕ
  pub truncation : TruncateOutcome

pub record StorageOptions : Type 0 where
  pub wal_compression : Bool
  pub binary_snapshot : Bool
  pub namespace_physical_isolation : Bool
  pub wal_fsync_per_write : Bool

-- `<storage_path>/collections/<name>`.
pub record Directory : Type 0 where
  pub snapshot : CollectionDir
  pub log : Option Bytes
  pub warm_vectors : Option Bytes
  pub warm_index : Option (Dict ℕ)
  pub cold_files : Dict Text

abbrev pub no_directory : Directory
no_directory = record {
  snapshot = record { config = none; last_snapshot = none; root = empty_dir; namespaces = [] };
  log = none;
  warm_vectors = none;
  warm_index = none;
  cold_files = [];
}

abbrev pub open_config : StorageOptions → WalConfig
open_config options = record default_config {
  compress = options.wal_compression;
  fsync_per_write = options.wal_fsync_per_write;
}

pub data AnyCollection (b : Backend) : Type 0 where
  plain : Collection b → AnyCollection b
  tiered : TieredCollection b → AnyCollection b

module _ (b : Backend) where
  -- `collection()`: of a tiered one, the part with the hot points and the index.
  unfoldable pub inner : AnyCollection b → Collection b
  inner (plain c) = c
  inner (tiered tc) = tc.collection

  abbrev pub as_plain : Result (Unit {0}) × Collection b → Result (Unit {0}) × AnyCollection b
  as_plain (r, c) = (r, plain c)

  abbrev pub as_tiered :
      Result (Unit {0}) × TieredCollection b → Result (Unit {0}) × AnyCollection b
  as_tiered (r, tc) = (r, tiered tc)

  unfoldable pub insert_point : ℕ → Point → Exec (AnyCollection b) (Unit {0})
  insert_point now p (plain c) = as_plain (Collection.insert b p c)
  insert_point now p (tiered tc) = as_tiered (Layers.insert b now p tc)

  unfoldable pub remove_point_from_all : Text → Exec (AnyCollection b) (Unit {0})
  remove_point_from_all id (plain c) = as_plain (Collection.remove b id c)
  remove_point_from_all id (tiered tc) =
      if contains_key id tc.point_tiers
      then as_tiered (Layers.remove b id tc)
      else (err (point_not_found id), tiered tc)

  unfoldable pub total_len : AnyCollection b → ℕ
  total_len (plain c) = length c.points
  total_len (tiered tc) = length tc.point_tiers

  -- A read is an access of a tiered collection.
  unfoldable pub resolve_point :
      Formats → ℕ → Text → AnyCollection b → Option Point × AnyCollection b
  resolve_point fmt now id (plain c) = (Dict.get id c.points, plain c)
  resolve_point fmt now id (tiered tc) =
      let (o, tc') = get_from_any_tier b fmt now id tc in (o, tiered tc')

module _ (env : Env) where
  pub record VectorDb : Type 0 where
    pub collections : Dict (AnyCollection env.backend)
    pub wals : Dict Wal
    pub directories : Dict Directory
    pub storage_circuit_breaker : Breaker
    pub storage_options : StorageOptions

  abbrev pub directory : Text → VectorDb → Directory
  directory name db = unwrap_or (Dict.get name db.directories) no_directory

  -- A call on the log of a collection, if there is one.
  abbrev pub put_wal : Text → Result (Unit {0}) × Wal → VectorDb → Result (Unit {0}) × VectorDb
  put_wal name (r, w) db = (r, record db { wals = Dict.insert name w db.wals })

  abbrev pub on_wal_of :
      Text → Option Wal → (Wal → Result (Unit {0}) × Wal) → VectorDb → Result (Unit {0}) × VectorDb
  on_wal_of name none f db = (ok tt, db)
  on_wal_of name (some w) f db = put_wal name (f w) db

  abbrev pub on_wal : Text → (Wal → Result (Unit {0}) × Wal) → Exec VectorDb (Unit {0})
  on_wal name f db = on_wal_of name (Dict.get name db.wals) f db

  -- A call on a collection.
  abbrev pub put_collection :
      Text → Result (Unit {0}) × AnyCollection env.backend → VectorDb → Result (Unit {0}) × VectorDb
  put_collection name (r, ac) db =
      (r, record db { collections = Dict.insert name ac db.collections })

  abbrev pub on_collection_of :
      Text
      → Option (AnyCollection env.backend)
      → Exec (AnyCollection env.backend) (Unit {0})
      → VectorDb
      → Result (Unit {0}) × VectorDb
  on_collection_of name none f db = (err (collection_not_found name), db)
  on_collection_of name (some ac) f db = put_collection name (f ac) db

  abbrev pub on_collection :
      Text → Exec (AnyCollection env.backend) (Unit {0}) → Exec VectorDb (Unit {0})
  on_collection name f db = on_collection_of name (Dict.get name db.collections) f db

  -- `save_collection`: the points of the inner collection, behind the circuit breaker.
  abbrev pub put_saved :
      Text → Result (Unit {0}) × Breaker × CollectionDir → VectorDb → Result (Unit {0}) × VectorDb
  put_saved name (r, breaker, dir) db = (
    r,
    record db {
      storage_circuit_breaker = breaker;
      directories = Dict.insert name (record (directory name db) { snapshot = dir }) db.directories;
    },
  )

  abbrev pub saved_of :
      CallIo → Text → Option (AnyCollection env.backend) → VectorDb → Result (Unit {0}) × VectorDb
  saved_of io name none db = (err (collection_not_found name), db)
  saved_of io name (some ac) db =
      put_saved name
        (Breaker.call io.now io.done
          (Save.save_collection env.backend env.formats io.now (inner env.backend ac)
            db.storage_options.binary_snapshot db.storage_options.namespace_physical_isolation)
          db.storage_circuit_breaker (directory name db).snapshot)
        db

  unfoldable pub save_collection : CallIo → Text → Exec VectorDb (Unit {0})
  unfolding inner
  save_collection io name db = saved_of io name (Dict.get name db.collections) db

  -- The snapshot, when the log has reached its threshold.
  abbrev pub wants_snapshot : Option Wal → Bool
  wants_snapshot none = false
  wants_snapshot (some w) = should_snapshot w

  unfoldable pub snapshot_if_due : CallIo → Text → Exec VectorDb (Unit {0})
  unfolding save_collection
  snapshot_if_due io name db =
      if wants_snapshot (Dict.get name db.wals)
      then (save_collection io name >> on_wal name (truncate_after_snapshot io.truncation)) db
      else (ok tt, db)

  -- The appends of a call, in a row.
  unfoldable pub append_all : (ℕ → AppendIo) → ℕ → List WalOperation → Exec Wal (Unit {0})
  append_all io i [] = pure tt
  append_all io i (op ∷ ops) = append_op env.codec (io i) op >> append_all io (i + 1) ops

  abbrev pub upserts : List Point → List WalOperation
  upserts [] = []
  upserts (p ∷ ps) = upsert p ∷ upserts ps

  abbrev pub keys_of : Option Text → List Text → List Text
  keys_of namespace [] = []
  keys_of namespace (id ∷ ids) = storage_id_from_parts namespace id ∷ keys_of namespace ids

  abbrev pub deletes : List Text → List WalOperation
  deletes [] = []
  deletes (key ∷ keys) = delete key ∷ deletes keys

  unfoldable pub insert_points : ℕ → List Point → Exec (AnyCollection env.backend) (Unit {0})
  unfolding insert_point
  insert_points now [] = pure tt
  insert_points now (p ∷ ps) = insert_point env.backend now p >> insert_points now ps

  unfoldable pub validate_all : CollectionConfig → List Point → Result (Unit {0})
  validate_all config [] = ok tt
  validate_all config (p ∷ ps) = validate_dimension config p.vector >>= λ _. validate_all config ps

  unfoldable pub normalize_all : List Point → Result (List Point)
  normalize_all [] = ok []
  normalize_all (p ∷ ps) = do
    v ← env.normalize_vector p.vector
    qs ← normalize_all ps
    ok (record p { vector = v } ∷ qs)

  abbrev pub is_cosine : DistanceMetric → Bool
  is_cosine cosine = true
  is_cosine _ = false

  -- The first phase of `upsert_points`.
  unfoldable pub prepare : CollectionConfig → List Point → Result (List Point)
  unfolding validate_all normalize_all
  prepare config ps = validate_all config ps >>= λ _.
      if ltb 100 (length ps)
      then (if is_cosine config.distance then normalize_all ps else ok ps)
      else ok ps

  abbrev pub upsert_into : CallIo → Text → Result (List Point) → Exec VectorDb (Unit {0})
  upsert_into io name (err e) db = (err e, db)
  upsert_into io name (ok ps) db =
      (on_wal name (append_all io.append 0 (upserts ps))
          >> (on_collection name (insert_points io.now ps) >> snapshot_if_due io name))
        db

  abbrev pub upsert_points_in :
      CallIo
      → Text
      → List Point
      → Option (AnyCollection env.backend)
      → VectorDb
      → Result (Unit {0}) × VectorDb
  upsert_points_in io name ps none db = (err (collection_not_found name), db)
  upsert_points_in io name ps (some ac) db =
      upsert_into io name (prepare (inner env.backend ac).config ps) db

  unfoldable pub upsert_points : CallIo → Text → List Point → Exec VectorDb (Unit {0})
  unfolding prepare append_all insert_points snapshot_if_due inner
  upsert_points io name ps db = upsert_points_in io name ps (Dict.get name db.collections) db

  -- The loop of `delete_points`, with the ids that were not found.
  abbrev pub missed :
      Result (Unit {0}) × AnyCollection env.backend
      → (Bool → AnyCollection env.backend → Result ℕ × AnyCollection env.backend)
      → Result ℕ × AnyCollection env.backend
  missed (ok u, ac) go_on = go_on false ac
  missed (err (point_not_found id), ac) go_on = go_on true ac
  missed (err e, ac) go_on = (err e, ac)

  unfoldable pub remove_points :
      List Text → ℕ → AnyCollection env.backend → Result ℕ × AnyCollection env.backend
  unfolding remove_point_from_all
  remove_points [] not_found ac = (ok not_found, ac)
  remove_points (key ∷ keys) not_found ac =
      missed (remove_point_from_all env.backend key ac)
        (λ miss. remove_points keys (if miss then not_found + 1 else not_found))

  -- Only when every id is missing is the call an error.
  abbrev pub judged :
      ℕ → Result ℕ × AnyCollection env.backend → Result (Unit {0}) × AnyCollection env.backend
  judged n (err e, ac) = (err e, ac)
  judged n (ok not_found, ac) =
      if ltb 0 not_found
      then (if not_found == n then (err (point_not_found []), ac) else (ok tt, ac))
      else (ok tt, ac)

  abbrev pub delete_from : CallIo → Text → List Text → Exec VectorDb (Unit {0})
  delete_from io name keys =
      on_wal name (append_all io.append 0 (deletes keys))
      >> (on_collection name (λ ac. judged (length keys) (remove_points keys 0 ac))
          >> snapshot_if_due io name)

  unfoldable pub delete_points : CallIo → Text → List Text → Option Text → Exec VectorDb (Unit {0})
  unfolding append_all remove_points snapshot_if_due storage_id_from_parts
  delete_points io name ids namespace db =
      if contains_key name db.collections
      then delete_from io name (keys_of namespace ids) db
      else (err (collection_not_found name), db)

  -- The collection of a new table entry. The storages open what the directory has.
  unfoldable pub wrapped :
      ℕ → CollectionConfig → Directory → Collection env.backend → AnyCollection env.backend
  wrapped now config dir c =
      if config.tiered_storage.enabled
      then tiered (
          Layers.new env.backend now c config.tiered_storage (
            some (
              Warm.new config.dimension dir.warm_vectors dir.warm_index,
              record { files = dir.cold_files },
            )))
      else plain c

  abbrev pub open_log : CallIo → Text → Result Wal → Exec VectorDb (Unit {0})
  open_log io name (err e) db = (err e, db)
  open_log io name (ok w) db =
      save_collection io name (record db { wals = Dict.insert name w db.wals })

  unfoldable pub create_collection : CallIo → CollectionConfig → Exec VectorDb (Unit {0})
  unfolding wrapped save_collection open_with_config
  create_collection io config db =
      if contains_key config.name db.collections
      then (err (collection_already_exists config.name), db)
      else if config.dimension == 0
      then (err (invalid_vector zero_dimension), db)
      else open_log io config.name
          (open_with_config env.codec (open_config db.storage_options) io.now
            (directory config.name db).log)
          (record db {
            collections =
                Dict.insert config.name
                  (wrapped io.now config (directory config.name db)
                    (Collection.new env.backend config))
                  db.collections;
          })

  unfoldable pub delete_collection : Text → Exec VectorDb (Unit {0})
  delete_collection name db =
      if contains_key name db.collections
      then (
        ok tt,
        record db {
          directories = Dict.remove name db.directories;
          collections = Dict.remove name db.collections;
          wals = Dict.remove name db.wals;
        },
      )
      else (err (collection_not_found name), db)
