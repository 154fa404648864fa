-- ===== src/Engine/Tiers.antt =====
-- What the engine does to the points of a tiered collection: snapshots and namespaces.
use ferres_db.Base.{
  ℕ, ◌≡◌, refl, sym, ap, ◌∙◌, Bool, false, none, some, [], ◌∷◌, ◌++◌, arith, All, length,
  length-append, ◌==◌, if◌then◌else◌, Bool-cases, inl, inr, is_some, unwrap_or,
}
use ferres_db.Base.Text.{Text, text_eq, text_eq_iff, text_eq_refl}
use ferres_db.Base.Dict
use ferres_db.Base.Dict.{Dict, get-insert, values}
use ferres_db.Error.{Result, ok, err, is_ok, point_not_found}
use ferres_db.Point.{Point, storage_id, storage_id_from_parts}
use ferres_db.Breaker
use ferres_db.Breaker.{Breaker, settle, cb_open, cb_half_open, should_attempt_reset}
use ferres_db.Collection
use ferres_db.Collection.{Collection}
use ferres_db.Collection.Keyed.{IsKeyed}
use ferres_db.Collection.Lookup.{insert-points}
use ferres_db.Recovery.{recover_collection, replay}
use ferres_db.Wal.Entry
use ferres_db.Wal.Read.{read_entries}
use ferres_db.Wal.Log.{Wal, truncate_after_snapshot, truncated}
use ferres_db.Wal.Holds.{read_entries-Holds, truncate-Holds}
use ferres_db.Snapshot.{CollectionDir, load_collection}
use ferres_db.Snapshot.RoundTrip.{IsLawful, IsValid}
use ferres_db.Snapshot.Save
use ferres_db.Snapshot.Whole.{get-load_save}
use ferres_db.Tiered.{hot}
use ferres_db.Tiered.Layers
use ferres_db.Tiered.Layers.{
  TieredCollection, after_insert, accessed, set_tier, get_from_any_tier, any_tier, found,
  hydrate_from_warm,
}
use ferres_db.Engine.{
  Env, VectorDb, CallIo, AnyCollection, tiered, inner, insert_point, remove_point_from_all,
  resolve_point, save_collection, saved_of, put_saved, directory, as_tiered, no_directory,
}

module _ {W T : Type 0} where
  settle-ok :
      (done : ℕ) (b : Breaker) (r : Result T × W) (v : T)
      → (settle done b r).0 ≡ ok v
      → r ≡ (ok v, (settle done b r).2)
  settle-ok done b (ok u, w) v h = cc
  settle-ok done b (err e, w) v h = cc

  -- A call that succeeds has run its operation.
  pub call-ok :
      (now done : ℕ) (f : W → Result T × W) (b : Breaker) (w : W) (v : T)
      → (Breaker.call now done f b w).0 ≡ ok v
      → f w ≡ (ok v, (Breaker.call now done f b w).2)
  unfolding Breaker.call
  call-ok now done f b w v h = elim (Bool-cases (b.state == cb_open)) [
    | inr shut ↦ let h' = rw shut at h in rw shut (settle-ok done b (f w) v h')
    | inl open_now ↦ elim (Bool-cases (should_attempt_reset now b)) [
      | inr early ↦ absurd (let h' = rw (open_now, early) at h in cc)
      | inl late ↦
          let h' = rw (open_now, late) at h in
          rw (open_now, late) (settle-ok done (record b { state = cb_half_open }) (f w) v h')
    ]
  ]

get-own : {V : Type 0} (k : Text) (v : V) (d : Dict V) → Dict.get k (Dict.insert k v d) ≡ some v
get-own k v d = get-insert k k v d ∙ rw (text_eq_refl k) refl

get-other :
    {V : Type 0} (k j : Text) (v : V) (d : Dict V)
    → text_eq k j ≡ false
    → Dict.get j d ≡ none
    → Dict.get j (Dict.insert k v d) ≡ none
get-other k j v d other absent = get-insert k j v d ∙ rw (other, absent) refl

module _ (env : Env) where
  saver :
      CallIo
      → AnyCollection env.backend
      → VectorDb env
      → Bool
      → CollectionDir
      → Result (Unit {0}) × CollectionDir
  saver io ac db isolation =
      Save.save_collection env.backend env.formats io.now (inner env.backend ac)
        db.storage_options.binary_snapshot isolation

  -- A save that succeeds has written the snapshot of the inner collection.
  saved_dir :
      (io : CallIo) (name : Text) (ac : AnyCollection env.backend) (db db' : VectorDb env)
      → Dict.get name db.collections ≡ some ac
      → save_collection env io name db ≡ (ok tt, db')
      → saver io ac db db.storage_options.namespace_physical_isolation
          (directory env name db).snapshot
        ≡ (ok tt, (directory env name db').snapshot)
  unfolding save_collection saver
  saved_dir io name ac db db' there saves =
      let run =
        Breaker.call io.now io.done (saver io ac db db.storage_options.namespace_physical_isolation)
          db.storage_circuit_breaker (directory env name db).snapshot in
      let puts : put_saved env name run db ≡ (ok tt, db') =
        ap (λ o. saved_of env io name o db) (sym there) ∙ saves in
      call-ok io.now io.done (saver io ac db db.storage_options.namespace_physical_isolation)
        db.storage_circuit_breaker (directory env name db).snapshot tt (ap (λ r. r.0) puts)
      ∙ ap (λ dir. (ok tt, dir))
          (sym (
              ap (λ o. (unwrap_or o no_directory).snapshot)
                (get-own name (record (directory env name db) { snapshot = run.2 }) db.directories))
            ∙ ap (λ r. (directory env name r.1).snapshot) puts)

  read_truncated :
      (w : Wal)
      → Entry.IsLawful env.codec
      → read_entries env.codec (some (truncate_after_snapshot truncated w).1.file) ≡ ok []
  read_truncated w law =
      read_entries-Holds env.codec (truncate_after_snapshot truncated w).1 [] law tt
        (truncate-Holds env.codec w)

  -- Behind a snapshot that succeeds and loads, and the truncation of the log, a recovery finds under
  -- every key the point of the inner collection, which of a tiered collection has the hot points and
  -- no other. The conditions are that the isolation of namespaces is off, that the directory has no
  -- directories of namespaces and, for the JSONL format, no points.bin, that the points stand under
  -- their own keys, and that points and configuration are read back from what is written.
  pub recovery-snapshot :
      (io : CallIo) (name k : Text) (ac : AnyCollection env.backend) (w : Wal)
      (db db' : VectorDb env) (d : Collection env.backend)
      → Dict.get name db.collections ≡ some ac
      → db.storage_options.namespace_physical_isolation ≡ false
      → IsLawful env.formats (values (inner env.backend ac).points)
      → ((t : Text)
          → env.formats.config_json (inner env.backend ac).config ≡ some t
          → env.formats.config_of_json t ≡ some (inner env.backend ac).config)
      → IsKeyed env.backend (inner env.backend ac)
      → All (IsValid env.formats) (values (inner env.backend ac).points)
      → (db.storage_options.binary_snapshot ≡ false
          → (directory env name db).snapshot.root.points_bin ≡ none)
      → (directory env name db).snapshot.namespaces ≡ []
      → Entry.IsLawful env.codec
      → save_collection env io name db ≡ (ok tt, db')
      → load_collection env.backend env.formats (directory env name db').snapshot ≡ ok d
      → (recover_collection env.backend env.codec
            (some (load_collection env.backend env.formats (directory env name db').snapshot))
            (some (truncate_after_snapshot truncated w).1.file)
          ≡ ok (some d))
        × (Dict.get k d.points ≡ Dict.get k (inner env.backend ac).points)
  unfolding recover_collection replay
  recovery-snapshot io name k ac w db db' d there whole law back keyed valid fresh no_ns codec saves
        loads =
      (
        rw (loads, read_truncated w codec) refl,
        get-load_save env.backend env.formats io.now db.storage_options.binary_snapshot
            (inner env.backend ac) d (directory env name db).snapshot
            (directory env name db').snapshot k law back keyed valid fresh no_ns
            (unfold saver in
              (ap (λ t. saver io ac db t (directory env name db).snapshot) (sym whole)
                ∙ saved_dir io name ac db db' there saves))
            loads,
      )

  key_ne : (ns id : Text) → text_eq id (ns ++ 0 ∷ id) ≡ false
  key_ne ns id = elim (Bool-cases (text_eq id (ns ++ 0 ∷ id))) [
    | inr differs ↦ differs
    | inl same ↦ absurd (
        omega
          (arith, ap length ((text_eq_iff id (ns ++ 0 ∷ id)).0 same), length-append ns (0 ∷ id)))
  ]

  -- The tiered collection behind an insertion that succeeds.
  insert_tiered :
      (now : ℕ) (p : Point) (tc : TieredCollection env.backend) (ac : AnyCollection env.backend)
      → insert_point env.backend now p (tiered tc) ≡ (ok tt, ac)
      → (c : Collection env.backend) × (ac
          ≡ tiered (
              accessed env.backend now p.id
                (set_tier env.backend p.id hot (record tc { collection = c }))))
        × (c.points ≡ Dict.insert (storage_id p) p tc.collection.points)
  unfolding insert_point Layers.insert
  insert_tiered now p tc ac h =
      let r = Collection.insert env.backend p tc.collection in
      ended r (insert-points env.backend p tc.collection).0 h
    where
      ended :
          (r : Result (Unit {0}) × Collection env.backend)
          → r.1.points ≡ (
              if is_ok r.0
              then Dict.insert (storage_id p) p tc.collection.points
              else tc.collection.points)
          → as_tiered env.backend (
              after_insert env.backend r
                (λ tc'. accessed env.backend now p.id (set_tier env.backend p.id hot tc'))
                tc)
            ≡ (ok tt, ac)
          → (c : Collection env.backend) × (ac
              ≡ tiered (
                  accessed env.backend now p.id
                    (set_tier env.backend p.id hot (record tc { collection = c }))))
            × (c.points ≡ Dict.insert (storage_id p) p tc.collection.points)
      ended (ok tt, c) points h = (c, ap (λ x. x.1) (sym h), points)
      ended (err e, c) points h = cc

  -- A point with a namespace that was inserted into a tiered collection is found under its key, and
  -- cannot be deleted: its tier stands under its id without the namespace.
  pub remove-namespaced :
      (now : ℕ) (ns : Text) (p : Point) (tc : TieredCollection env.backend)
      (ac : AnyCollection env.backend)
      → p.namespace ≡ some ns
      → Dict.get (storage_id p) tc.point_tiers ≡ none
      → insert_point env.backend now p (tiered tc) ≡ (ok tt, ac)
      → ((resolve_point env.backend env.formats now (storage_id p) ac).0 ≡ some p)
        × (remove_point_from_all env.backend (storage_id p) ac
            ≡ (err (point_not_found (storage_id p)), ac))
  remove-namespaced now ns p tc ac named absent inserts =
      let (c, is, points) = insert_tiered now p tc ac inserts in
      let key : storage_id p ≡ ns ++ 0 ∷ p.id =
        unfold storage_id storage_id_from_parts in rw named refl in
      let other : text_eq p.id (storage_id p) ≡ false = rw key (key_ne ns p.id) in
      let tc' : TieredCollection env.backend =
        accessed env.backend now p.id
          (set_tier env.backend p.id hot (record tc { collection = c })) in
      rw is (
        unfold resolve_point get_from_any_tier set_tier in
            (ap
              (λ o.
                (any_tier env.backend env.formats now (storage_id p) tc' o
                  (found env.backend (hydrate_from_warm env.backend (storage_id p) tc'))).0)
              (ap (Dict.get (storage_id p)) points
                ∙ get-own (storage_id p) p tc.collection.points)),
        unfold remove_point_from_all set_tier in
            (ap
              (λ t.
                if t
                then as_tiered env.backend (Layers.remove env.backend (storage_id p) tc')
                else (err (point_not_found (storage_id p)), tiered tc'))
              (ap is_some (get-other p.id (storage_id p) hot tc.point_tiers other absent))),
      )
