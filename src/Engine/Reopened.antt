-- ===== src/Engine/Reopened.antt =====
-- The logs of a database that was opened on existing directories.
use ferres_db.Base.{
  ℕ, ◌≡◌, refl, sym, ap, ◌∙◌, false, Option, none, some, List, [], ◌∷◌, All, ltb, Bool-cases, inl,
  inr,
}
use ferres_db.Base.Text.{Text, text_eq}
use ferres_db.Base.Dict
use ferres_db.Base.Dict.{Dict}
use ferres_db.Error.{Result, ok, err, then_call-ok}
use ferres_db.Exec.{resume}
use ferres_db.Breaker
use ferres_db.Breaker.{Breaker}
use ferres_db.Collection.{Collection}
use ferres_db.Snapshot.Save
use ferres_db.Wal.Entry.{Codec}
use ferres_db.Wal.Read.{count_entries}
use ferres_db.Wal.Log.{
  Wal, open_with_config, opened, truncate_after_snapshot, TruncateOutcome, truncated, open_failed,
  reopen_failed, magic_torn,
}
use ferres_db.Engine.{Env, VectorDb, CallIo, StorageOptions, Directory, directory, put_saved}
use ferres_db.Engine.Load.{
  reopen_config, register, registered, with_log, recovered, load_one, load_collections,
  open_database,
}

-- Every log of the table syncs by count and time only.
abbrev pub Unsynced : Dict Wal → Type 0
Unsynced wals = All (λ e. e.1.config.fsync_per_write ≡ false) wals

insert-Unsynced :
    (name : Text) (w : Wal) (wals : Dict Wal)
    → w.config.fsync_per_write ≡ false
    → Unsynced wals
    → Unsynced (Dict.insert name w wals)
unfolding Dict.insert
insert-Unsynced name w [] h hs = (h, tt)
insert-Unsynced name w ((j, v) ∷ wals) h (hj, hs) = elim (Bool-cases (text_eq j name)) [
  | inl same ↦ rw same (h, hs)
  | inr other ↦ rw other (hj, insert-Unsynced name w wals h hs)
]

opened-Unsynced :
    (c : Codec) (options : StorageOptions) (now : ℕ) (file : Option (List ℕ)) (w : Wal)
    → open_with_config c (reopen_config options) now file ≡ ok w
    → w.config.fsync_per_write ≡ false
unfolding open_with_config
opened-Unsynced c options now none w h =
    let e : opened (reopen_config options) now [] 0 ≡ w = cc in
    ap (λ x. x.config.fsync_per_write) (sym e)
opened-Unsynced c options now (some file) w h =
    let (n, counted, is) =
      then_call-ok (λ x. ok (opened (reopen_config options) now file x)) w (count_entries c file)
        h in
    let e : opened (reopen_config options) now file n ≡ w = cc in
    ap (λ x. x.config.fsync_per_write) (sym e)

truncate-config :
    (o : TruncateOutcome) (w : Wal) → (truncate_after_snapshot o w).1.config ≡ w.config
unfolding truncate_after_snapshot
truncate-config truncated w = refl
truncate-config open_failed w = refl
truncate-config reopen_failed w = refl
truncate-config (magic_torn n) w = refl

module _ (env : Env) where
  registered-Unsynced :
      (io : CallIo) (dir_name : Text) (c : Collection env.backend) (r : Result (Unit {0}) × Wal)
      (db : VectorDb env)
      → r.1.config.fsync_per_write ≡ false
      → Unsynced db.wals
      → Unsynced (registered env io dir_name c r db).1.wals
  unfolding register
  registered-Unsynced io dir_name c (err e, w) db h hs = hs
  registered-Unsynced io dir_name c (ok u, w) db h hs = insert-Unsynced c.config.name w db.wals h hs

  resume-Unsynced :
      (r : Result (Unit {0}) × VectorDb env)
      (k : Unit {0} → VectorDb env → Result (Unit {0}) × VectorDb env)
      → Unsynced r.1.wals
      → ((db : VectorDb env) → Unsynced db.wals → Unsynced (k tt db).1.wals)
      → Unsynced (resume r k).1.wals
  resume-Unsynced (ok tt, db) k h next = next db h
  resume-Unsynced (err e, db) k h next = h

  with_log-Unsynced :
      (io : CallIo) (dir_name : Text) (c : Collection env.backend) (r : Result Wal)
      (db : VectorDb env)
      → ((w : Wal) → r ≡ ok w → w.config.fsync_per_write ≡ false)
      → Unsynced db.wals
      → Unsynced (with_log env io dir_name c r db).1.wals
  with_log-Unsynced io dir_name c (err e) db h hs = hs
  with_log-Unsynced io dir_name c (ok w) db h hs = elim (Bool-cases (ltb 0 w.ops_since_snapshot)) [
    | inr empty ↦ rw empty (registered-Unsynced io dir_name c (ok tt, w) db (h w refl) hs)
    | inl entries ↦ rw entries (
        resume-Unsynced
          (put_saved env dir_name
            (Breaker.call io.now io.done
              (Save.save_collection env.backend env.formats io.now c
                db.storage_options.binary_snapshot db.storage_options.namespace_physical_isolation)
              db.storage_circuit_breaker (directory env dir_name db).snapshot)
            db)
          (λ _ db'. registered env io dir_name c (truncate_after_snapshot io.truncation w) db') hs
          (λ db' hs'.
            registered-Unsynced io dir_name c (truncate_after_snapshot io.truncation w) db'
              (ap (λ x. x.fsync_per_write) (truncate-config io.truncation w) ∙ h w refl) hs'))
  ]

  recovered-Unsynced :
      (io : CallIo) (dir_name : Text) (dir : Directory)
      (r : Result (Option (Collection env.backend)) × Breaker × Unit {0}) (db : VectorDb env)
      → Unsynced db.wals
      → Unsynced (recovered env io dir_name dir r db).1.wals
  recovered-Unsynced io dir_name dir (err e, breaker, u) db hs = hs
  recovered-Unsynced io dir_name dir (ok none, breaker, u) db hs = hs
  recovered-Unsynced io dir_name dir (ok (some c), breaker, u) db hs =
      with_log-Unsynced io dir_name c
        (open_with_config env.codec (reopen_config db.storage_options) io.now dir.log)
        (record db { storage_circuit_breaker = breaker })
        (λ w h. opened-Unsynced env.codec db.storage_options io.now dir.log w h) hs

  load_collections-Unsynced :
      (io : CallIo) (dirs : Dict Directory) (db : VectorDb env)
      → Unsynced db.wals
      → Unsynced (load_collections env io dirs db).1.wals
  unfolding load_collections load_one
  load_collections-Unsynced io [] db hs = hs
  load_collections-Unsynced io ((dir_name, dir) ∷ dirs) db hs =
      resume-Unsynced (load_one env io dir_name dir db) _
        (recovered-Unsynced io dir_name dir _ db hs)
        (λ db' hs'. load_collections-Unsynced io dirs db' hs')

  -- A database that is opened on existing directories syncs none of its logs at each write, whatever
  -- its options say.
  pub open_database-Unsynced :
      (io : CallIo) (options : StorageOptions) (dirs : Dict Directory)
      → Unsynced (open_database env io options dirs).1.wals
  unfolding open_database
  open_database-Unsynced io options dirs = load_collections-Unsynced io dirs _ tt
