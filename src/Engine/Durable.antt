-- ===== src/Engine/Durable.antt =====
-- What a database holds in memory is what a recovery of its directory finds.
use ferres_db.Base.{
  ℕ, ◌+◌, ◌<◌, ◌≡◌, refl, sym, ap, ap₂, ◌∙◌, subst, Bool, false, Option, some, List, ◌++◌, arith,
  length, length-append, ltb, ◌==◌, is_some, if◌then◌else◌, Bool-cases, inl, inr,
}
use ferres_db.Base.Text.{Text, text_eq_refl}
use ferres_db.Base.Dict
use ferres_db.Base.Dict.{get-insert, contains_key}
use ferres_db.Error.{Result, ok, err, collection_not_found}
use ferres_db.Exec.{resume}
use ferres_db.Point.{Point}
use ferres_db.Collection.{Collection}
use ferres_db.Snapshot.{load_collection}
use ferres_db.Recovery.{replay, recover_collection}
use ferres_db.Recovery.PointInTime.{replay-append}
use ferres_db.Recovery.Replay.{Accepts, IsPlain, after, get-replay, replay_config}
use ferres_db.Wal.Entry.{WalEntry, WalOperation, IsLawful}
use ferres_db.Wal.Log.{Wal, AppendIo, should_snapshot}
use ferres_db.Wal.Holds.{Holds, AllReadable, read_entries-Holds}
use ferres_db.Engine.{
  Env, VectorDb, CallIo, AnyCollection, plain, inner, on_wal_of, put_wal, on_collection_of,
  put_collection, snapshot_if_due, append_all, upserts, deletes, keys_of, insert_points, prepare,
  upsert_into, upsert_points_in, upsert_points, remove_points, judged, delete_from, delete_points,
  directory,
}
use ferres_db.Engine.Appends.{
  resume-ok, entries, length-entries, append_all-Holds, insert_points-plain, remove_points-plain,
  upserts-IsPlain, deletes-IsPlain, IsPlain-append, length-upserts,
}

module _ (env : Env) (accepts : Point → Bool) where
  -- A collection without tiers, in the table with its log, and its directory: the snapshot and the
  -- log give every key the point in memory.
  pub record Durable (name : Text) (db : VectorDb env) : Type 0 where
    pub memory : Collection env.backend
    pub wal : Wal
    pub loaded : Collection env.backend
    pub logged : List WalEntry
    pub in_table : Dict.get name db.collections ≡ some (plain memory)
    pub in_wals : Dict.get name db.wals ≡ some wal
    pub loads : load_collection env.backend env.formats (directory env name db).snapshot ≡ ok loaded
    pub holds : Holds env.codec wal logged
    pub plain_log : IsPlain env.backend accepts logged
    pub same_config : loaded.config ≡ memory.config
    pub agree :
        (k : Text) → Dict.get k (replay env.backend logged loaded).points ≡ Dict.get k memory.points

  -- A crash, and the recovery of the directory with the log of the handle.
  abbrev pub recovery : Text → VectorDb env → Wal → Result (Option (Collection env.backend))
  recovery name db w =
      recover_collection env.backend env.codec
        (some (load_collection env.backend env.formats (directory env name db).snapshot))
        (some w.file)

  -- The collection is in the table with its log, and a recovery finds its points.
  abbrev pub Recovers : Text → VectorDb env → Type 0
  Recovers name db =
      (c d : Collection env.backend) × (w : Wal) × (Dict.get name db.collections ≡ some (plain c))
      × (Dict.get name db.wals ≡ some w)
      × (recovery name db w ≡ ok (some d))
      × ((k : Text) → Dict.get k d.points ≡ Dict.get k c.points)

  pub Durable-Recovers :
      (name : Text) (db : VectorDb env) (h : Durable name db)
      → IsLawful env.codec
      → AllReadable env.codec h.wal.config.compress h.logged
      → Recovers name db
  unfolding recover_collection
  Durable-Recovers name db h law fit = (
    h.memory,
    replay env.backend h.logged h.loaded,
    h.wal,
    h.in_table,
    h.in_wals,
    rw (h.loads, read_entries-Holds env.codec h.wal h.logged law fit h.holds) refl,
    h.agree,
  )

  -- What was logged and done in memory keeps the two together.
  agree-replay :
      (es fs : List WalEntry) (s c : Collection env.backend)
      → Accepts env.backend accepts
      → IsPlain env.backend accepts es
      → IsPlain env.backend accepts fs
      → s.config ≡ c.config
      → ((k : Text) → Dict.get k (replay env.backend es s).points ≡ Dict.get k c.points)
      → (k : Text)
      → Dict.get k (replay env.backend (es ++ fs) s).points
        ≡ Dict.get k (replay env.backend fs c).points
  agree-replay es fs s c law pes pfs config same k =
      ap (λ x. Dict.get k x.points) (replay-append env.backend es fs s)
      ∙ get-replay env.backend accepts k fs (replay env.backend es s) law pfs
      ∙ ap₂ (λ x o. after env.backend accepts x k fs o)
          (replay_config env.backend accepts es s pes ∙ config) (same k)
      ∙ sym (get-replay env.backend accepts k fs c law pfs)

  -- The state behind a call that logged `ops` and did them in memory.
  abbrev done :
      (name : Text) (db : VectorDb env) → Durable name db → Wal → List WalEntry → VectorDb env
  done name db h v fs = record db {
    wals = Dict.insert name v db.wals;
    collections = Dict.insert name (plain (replay env.backend fs h.memory)) db.collections;
  }

  -- Durable again, with more entries in the log.
  abbrev Logged :
      (name : Text) {db : VectorDb env} → Durable name db → List WalEntry → VectorDb env → Type 0
  Logged name h fs db' =
      (h' : Durable name db') × (h'.logged ≡ h.logged ++ fs) × (h'.wal.config ≡ h.wal.config)

  done-Durable :
      (name : Text) (db : VectorDb env) (h : Durable name db) (v : Wal) (fs : List WalEntry)
      → Accepts env.backend accepts
      → Holds env.codec v (h.logged ++ fs)
      → IsPlain env.backend accepts fs
      → v.config ≡ h.wal.config
      → Logged name h fs (done name db h v fs)
  done-Durable name db h v fs law held pfs config = (
    record {
      memory = replay env.backend fs h.memory;
      wal = v;
      loaded = h.loaded;
      logged = h.logged ++ fs;
      in_table =
          get-insert name name (plain (replay env.backend fs h.memory)) db.collections
          ∙ rw (text_eq_refl name) refl;
      in_wals = get-insert name name v db.wals ∙ rw (text_eq_refl name) refl;
      loads = h.loads;
      holds = held;
      plain_log = IsPlain-append env accepts h.logged fs h.plain_log pfs;
      same_config = h.same_config ∙ sym (replay_config env.backend accepts fs h.memory pfs);
      agree = agree-replay h.logged fs h.loaded h.memory law h.plain_log pfs h.same_config h.agree;
    },
    refl,
    config,
  )

  not_due :
      (w v : Wal) (es fs : List WalEntry)
      → Holds env.codec v (es ++ fs)
      → v.config ≡ w.config
      → length es + length fs < w.config.snapshot_threshold
      → should_snapshot v ≡ false
  unfolding should_snapshot
  not_due w v es fs held config room =
      let n : v.ops_since_snapshot ≡ length es + length fs = held.counted ∙ length-append es fs in
      let t : v.config.snapshot_threshold ≡ w.config.snapshot_threshold =
        ap (λ x. x.snapshot_threshold) config in
      rw t (ground arith)

  idle :
      (io : CallIo) (name : Text) (x : VectorDb env) (v : Wal)
      → Dict.get name x.wals ≡ some v
      → should_snapshot v ≡ false
      → (ok tt, x) ≡ snapshot_if_due env io name x
  unfolding snapshot_if_due
  idle io name x v there waits = rw (there, waits) refl

  -- A call that logs its operations first, and does them behind that.
  logged_call :
      (io : CallIo) (name : Text) (ops : List WalOperation)
      (g : AnyCollection env.backend → Result (Unit {0}) × AnyCollection env.backend)
      (db db' : VectorDb env) (h : Durable name db)
      → Accepts env.backend accepts
      → IsPlain env.backend accepts (entries io.append 0 ops)
      → ((ac : AnyCollection env.backend)
          → g (plain h.memory) ≡ (ok tt, ac)
          → ac ≡ plain (replay env.backend (entries io.append 0 ops) h.memory))
      → length h.logged + length ops < h.wal.config.snapshot_threshold
      → resume
          (on_wal_of env name (Dict.get name db.wals) (append_all env io.append 0 ops) db)
          (λ _ s.
            resume
              (on_collection_of env name (Dict.get name s.collections) g s)
              (λ _. snapshot_if_due env io name))
        ≡ (ok tt, db')
      → Logged name h (entries io.append 0 ops) db'
  logged_call io name ops g db db' h law pfs in_memory room runs =
      let fs : List WalEntry = entries io.append 0 ops in
      let r : Result (Unit {0}) × Wal = append_all env io.append 0 ops h.wal in
      let (u, s, appended, more) = resume-ok _ _ tt db' runs in
      let logs : put_wal env name r db ≡ (ok u, s) =
        ap (λ o. on_wal_of env name o (append_all env io.append 0 ops) db) (sym h.in_wals)
        ∙ appended in
      let fine : r ≡ (ok tt, r.1) = ap (λ x. (x.0, r.1)) logs in
      let (held, config) = append_all-Holds env io.append 0 ops h.wal r.1 h.logged h.holds fine in
      let db1 : VectorDb env = record db { wals = Dict.insert name r.1 db.wals } in
      let more1 =
        ap
          (λ (x : VectorDb env).
            resume (on_collection_of env name (Dict.get name x.collections) g x)
              (λ _. snapshot_if_due env io name))
          (ap (λ x. x.1) logs)
        ∙ more in
      let (u', s', acted, last) = resume-ok _ _ tt db' more1 in
      let acts : put_collection env name (g (plain h.memory)) db1 ≡ (ok u', s') =
        ap (λ o. on_collection_of env name o g db1) (sym h.in_table) ∙ acted in
      let ends = in_memory (g (plain h.memory)).1 (ap (λ x. (x.0, (g (plain h.memory)).1)) acts) in
      let db2 : s' ≡ done name db h r.1 fs =
        sym (ap (λ x. x.1) acts)
        ∙ ap (λ ac. record db1 { collections = Dict.insert name ac db.collections }) ends in
      let waits : should_snapshot r.1 ≡ false =
        not_due h.wal r.1 h.logged fs held config (omega (arith, length-entries io.append 0 ops)) in
      let stays : done name db h r.1 fs ≡ db' =
        ap (λ x. x.1)
          (idle io name (done name db h r.1 fs) r.1
              (get-insert name name r.1 db.wals ∙ rw (text_eq_refl name) refl) waits
            ∙ ap (snapshot_if_due env io name) (sym db2)
            ∙ last) in
      subst (Logged name h fs) stays (done-Durable name db h r.1 fs law held pfs config)

  -- An upsert that succeeds and reaches no snapshot keeps the directory and the memory together.
  pub upsert_points-Durable :
      (io : CallIo) (name : Text) (ps qs : List Point) (db db' : VectorDb env) (h : Durable name db)
      → Accepts env.backend accepts
      → prepare env h.memory.config ps ≡ ok qs
      → length h.logged + length qs < h.wal.config.snapshot_threshold
      → upsert_points env io name ps db ≡ (ok tt, db')
      → Logged name h (entries io.append 0 (upserts env qs)) db'
  unfolding upsert_points inner
  upsert_points-Durable io name ps qs db db' h law prepared room runs =
      logged_call io name (upserts env qs) (insert_points env io.now qs) db db' h law
        (upserts-IsPlain env accepts io.append 0 qs)
        (λ ac acts. insert_points-plain env io.append 0 io.now qs h.memory ac acts)
        (omega (arith, length-upserts env qs))
        (ap (λ r. upsert_into env io name r db) (sym prepared)
          ∙ ap (λ o. upsert_points_in env io name ps o db) (sym h.in_table)
          ∙ runs)

  judged_plain :
      (io : ℕ → AppendIo) (keys : List Text) (c : Collection env.backend)
      (ac : AnyCollection env.backend)
      → judged env (length keys) (remove_points env keys 0 (plain c)) ≡ (ok tt, ac)
      → ac ≡ plain (replay env.backend (entries io 0 (deletes env keys)) c)
  judged_plain io keys c ac h =
      let (m, is) = remove_points-plain env io 0 0 keys c in
      ap (λ r. r.1) (sym (ap (judged env (length keys)) (sym is) ∙ h))
      ∙ judged_state (length keys) m
          (plain (replay env.backend (entries io 0 (deletes env keys)) c))
    where
      judged_state : (n m : ℕ) (x : AnyCollection env.backend) → (judged env n (ok m, x)).1 ≡ x
      judged_state n m x = elim (Bool-cases (ltb 0 m)) [
        | inr all ↦ rw all refl
        | inl missing ↦ elim (Bool-cases (m == n)) [
          | inl every ↦ rw (missing, every) refl
          | inr few ↦ rw (missing, few) refl
        ]
      ]

  -- The same of a deletion of points.
  pub delete_points-Durable :
      (io : CallIo) (name : Text) (ids : List Text) (namespace : Option Text)
      (db db' : VectorDb env) (h : Durable name db)
      → Accepts env.backend accepts
      → length h.logged + length (deletes env (keys_of env namespace ids))
        < h.wal.config.snapshot_threshold
      → delete_points env io name ids namespace db ≡ (ok tt, db')
      → Logged name h (entries io.append 0 (deletes env (keys_of env namespace ids))) db'
  unfolding delete_points
  delete_points-Durable io name ids namespace db db' h law room runs =
      logged_call io name (deletes env (keys_of env namespace ids))
        (λ ac.
          judged env (length (keys_of env namespace ids))
            (remove_points env (keys_of env namespace ids) 0 ac))
        db db' h law (deletes-IsPlain env accepts io.append 0 (keys_of env namespace ids))
        (λ ac acts. judged_plain io.append (keys_of env namespace ids) h.memory ac acts) room
        (ap
            (λ t.
              (if t
                then delete_from env io name (keys_of env namespace ids) db
                else (err (collection_not_found name), db)))
            (ap is_some (sym h.in_table))
          ∙ runs)

  logged-Recovers :
      (name : Text) (db db' : VectorDb env) (h : Durable name db) (fs : List WalEntry)
      → IsLawful env.codec
      → AllReadable env.codec h.wal.config.compress (h.logged ++ fs)
      → Logged name h fs db'
      → Recovers name db'
  logged-Recovers name db db' h fs codec fit (h', logged, config) =
      Durable-Recovers name db' h' codec (
        subst (λ x. AllReadable env.codec x h'.logged) (ap (λ x. x.compress) (sym config))
          (subst (AllReadable env.codec h.wal.config.compress) (sym logged) fit))

  -- For a collection without tiers, whose snapshot loads and whose log holds upserts and deletes, and
  -- no link: where snapshot and log gave the points in memory before, an upsert that succeeds and
  -- reaches no snapshot leaves a directory and a log from which a recovery finds under every key the
  -- point in memory. The conditions are that each entry of the log, the new ones too, is read back
  -- from its JSON, and in the compressed format has no frame above 10 MiB, and that the index takes
  -- the same points whenever it is asked.
  pub recovery-upsert_points :
      (io : CallIo) (name : Text) (ps qs : List Point) (db db' : VectorDb env) (h : Durable name db)
      → Accepts env.backend accepts
      → IsLawful env.codec
      → prepare env h.memory.config ps ≡ ok qs
      → length h.logged + length qs < h.wal.config.snapshot_threshold
      → AllReadable env.codec h.wal.config.compress
          (h.logged ++ entries io.append 0 (upserts env qs))
      → upsert_points env io name ps db ≡ (ok tt, db')
      → Recovers name db'
  recovery-upsert_points io name ps qs db db' h law codec prepared room fit runs =
      logged-Recovers name db db' h (entries io.append 0 (upserts env qs)) codec fit
        (upsert_points-Durable io name ps qs db db' h law prepared room runs)
