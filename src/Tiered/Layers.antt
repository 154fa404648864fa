-- ===== src/Tiered/Layers.antt =====
-- `TieredCollection` (crates/core/src/tiered.rs): a collection for the hot points, and the points
-- that moved to the warm and to the cold storage. The locks are never poisoned.
use ferres_db.Base.{ℕ, Bool, Option, none, some, List, [], ◌∷◌, if◌then◌else◌}
use ferres_db.Base.Text.{Text}
use ferres_db.Base.Dict
use ferres_db.Base.Dict.{Dict, contains_key, values}
use ferres_db.Error.{Result, ok, err, ◌>>=◌}
use ferres_db.Point.{Point, Vector, parse_storage_id}
use ferres_db.Backend.{Backend, Hit}
use ferres_db.Collection
use ferres_db.Collection.{Collection, remove_data_only, tombstone_in_index}
use ferres_db.Collection.Search
use ferres_db.Snapshot.{Formats}
use ferres_db.Tiered.{
  StorageTier, hot, warm, cold, TieredStorageConfig, AccessTracker, record_access_at,
}
use ferres_db.Tiered.Warm.{WarmStorage, add_vector, read_vector, remove_vector}
use ferres_db.Tiered.Cold.{ColdStorage, save_point, load_point, remove_point}

pub record WarmPointMeta : Type 0 where
  pub metadata : Text
  pub created_at : ℕ
  pub expires_at : Option ℕ

pub record ColdPointMeta : Type 0 where
  pub created_at : ℕ
  pub expires_at : Option ℕ

pub record TieredCollection (b : Backend) : Type 0 where
  pub collection : Collection b
  pub config : TieredStorageConfig
  pub access_tracker : AccessTracker
  pub point_tiers : Dict StorageTier
  pub warm_storage : Option WarmStorage
  pub cold_storage : Option ColdStorage
  pub warm_metadata : Dict WarmPointMeta
  pub cold_ids : Dict ColdPointMeta

-- `AccessTracker::remove`.
unfoldable pub forget : Text → AccessTracker → AccessTracker
forget id t = record {
  last_access = Dict.remove id t.last_access;
  access_count = Dict.remove id t.access_count;
}

abbrev pub map_some : {A : Type 0} → (A → A) → Option A → Option A
map_some f none = none
map_some f (some a) = some (f a)

-- The maps that `new` fills for the points of the collection.
unfoldable pub all_hot : List Point → Dict StorageTier → Dict StorageTier
all_hot [] tiers = tiers
all_hot (p ∷ ps) tiers = all_hot ps (Dict.insert p.id hot tiers)

unfoldable pub all_accessed : ℕ → List Point → AccessTracker → AccessTracker
unfolding record_access_at
all_accessed now [] t = t
all_accessed now (p ∷ ps) t = all_accessed now ps (record_access_at p.id now t)

abbrev pub warm_meta : Point → WarmPointMeta
warm_meta p = record { metadata = p.metadata; created_at = p.created_at; expires_at = p.expires_at }

abbrev pub cold_meta : Point → ColdPointMeta
cold_meta p = record { created_at = p.created_at; expires_at = p.expires_at }

-- The point that is read back: neither its named vectors nor its relations.
unfoldable pub hydrated : Text → Vector → WarmPointMeta → Point
hydrated id v m =
    let (namespace, logical_id) = parse_storage_id id in
    record {
      id = logical_id;
      vector = v;
      metadata = m.metadata;
      created_at = m.created_at;
      namespace = namespace;
      expires_at = m.expires_at;
      vectors = none;
      relations = none;
    }

abbrev pub warm_vector : Text → Option WarmStorage → Result (Option Vector)
warm_vector id none = ok none
warm_vector id (some ws) =
    if contains_key id ws.offsets
    then (elim (read_vector id ws) [ ok v ↦ ok (some v) | err e ↦ err e ])
    else ok none

abbrev pub both : Text → Option Vector → Option WarmPointMeta → Option Point
both id (some v) (some m) = some (hydrated id v m)
both id (some v) none = none
both id none m = none

abbrev pub saved :
    Formats → (Text → Bool) → Point → Option ColdStorage → Result (Option ColdStorage)
saved fmt writable p none = ok none
saved fmt writable p (some cs) = save_point fmt writable p cs >>= λ cs'. ok (some cs')

abbrev pub accessed_each : ℕ → List Hit → AccessTracker → AccessTracker
accessed_each now [] t = t
accessed_each now (hit ∷ hits) t = accessed_each now hits (record_access_at hit.0 now t)

abbrev pub loaded : Result Point → Option Point
loaded (ok p) = some p
loaded (err e) = none

abbrev pub cold_point : Formats → Text → Option ColdStorage → Option Point
cold_point fmt id none = none
cold_point fmt id (some cs) = loaded (load_point fmt id cs)

module _ (b : Backend) where
  -- `storages` are the two that `new` opens when tiered storage is enabled and has a directory.
  unfoldable pub new :
      ℕ
      → Collection b
      → TieredStorageConfig
      → Option (WarmStorage × ColdStorage)
      → TieredCollection b
  unfolding all_hot all_accessed
  new now c config storages =
      let opened : Option (WarmStorage × ColdStorage) = if config.enabled then storages else none in
      record {
        collection = c;
        config = config;
        access_tracker =
            all_accessed now (values c.points) (record { last_access = []; access_count = [] });
        point_tiers = all_hot (values c.points) [];
        warm_storage = elim opened [ none ↦ none | some (ws, cs) ↦ some ws ];
        cold_storage = elim opened [ none ↦ none | some (ws, cs) ↦ some cs ];
        warm_metadata = [];
        cold_ids = [];
      }

  abbrev pub accessed : ℕ → Text → TieredCollection b → TieredCollection b
  accessed now id tc = record tc { access_tracker = record_access_at id now tc.access_tracker }

  -- The tier of an id, set.
  unfoldable pub set_tier : Text → StorageTier → TieredCollection b → TieredCollection b
  set_tier id tier tc = record tc { point_tiers = Dict.insert id tier tc.point_tiers }

  abbrev pub after_insert :
      Result (Unit {0}) × Collection b
      → (TieredCollection b → TieredCollection b)
      → TieredCollection b
      → Result (Unit {0}) × TieredCollection b
  after_insert (ok u, c) f tc = (ok tt, f (record tc { collection = c }))
  after_insert (err e, c) f tc = (err e, record tc { collection = c })

  -- A point begins as hot, under its id without the namespace.
  unfoldable pub insert : ℕ → Point → TieredCollection b → Result (Unit {0}) × TieredCollection b
  unfolding set_tier record_access_at
  insert now p tc =
      after_insert (Collection.insert b p tc.collection)
        (λ tc'. accessed now p.id (set_tier p.id hot tc')) tc

  -- Out of the warm storage, and out of the cold one.
  unfoldable pub leave_warm : Text → TieredCollection b → TieredCollection b
  leave_warm id tc = record tc {
    warm_storage = map_some (remove_vector id) tc.warm_storage;
    warm_metadata = Dict.remove id tc.warm_metadata;
  }

  unfoldable pub leave_cold : Text → TieredCollection b → TieredCollection b
  leave_cold id tc = record tc {
    cold_storage = map_some (remove_point id) tc.cold_storage;
    cold_ids = Dict.remove id tc.cold_ids;
  }

  unfoldable pub remove : Text → TieredCollection b → Result (Unit {0}) × TieredCollection b
  unfolding leave_warm leave_cold forget
  remove id tc =
      let tc' : TieredCollection b =
        leave_cold id
          (leave_warm id (record tc { collection = (Collection.remove b id tc.collection).1 })) in
      (
        ok tt,
        record tc' {
          point_tiers = Dict.remove id tc'.point_tiers;
          access_tracker = forget id tc'.access_tracker;
        },
      )

  abbrev pub with_hits :
      ℕ
      → Result (List Hit) × Collection b
      → TieredCollection b
      → Result (List Hit) × TieredCollection b
  with_hits now (ok hits, c) tc = (
    ok hits,
    record tc { collection = c; access_tracker = accessed_each now hits tc.access_tracker },
  )
  with_hits now (err e, c) tc = (err e, record tc { collection = c })

  unfoldable pub search :
      ℕ → Vector → ℕ → TieredCollection b → Result (List Hit) × TieredCollection b
  unfolding record_access_at
  search now query k tc = with_hits now (Search.search b query k none none tc.collection) tc

  unfoldable pub hydrate_from_warm : Text → TieredCollection b → Result (Option Point)
  hydrate_from_warm id tc =
      warm_vector id tc.warm_storage >>= λ v. ok (both id v (Dict.get id tc.warm_metadata))

  unfoldable pub hydrate_from_cold : Formats → Text → TieredCollection b → Option Point
  hydrate_from_cold fmt id tc = cold_point fmt id tc.cold_storage

  abbrev pub read_tier :
      Formats → Option StorageTier → Text → TieredCollection b → Result (Option Point)
  read_tier fmt (some warm) id tc = hydrate_from_warm id tc
  read_tier fmt (some cold) id tc = ok (hydrate_from_cold fmt id tc)
  read_tier fmt (some hot) id tc = ok (Dict.get id tc.collection.points)
  read_tier fmt none id tc = ok (Dict.get id tc.collection.points)

  unfoldable pub get :
      Formats → ℕ → Text → TieredCollection b → Result (Option Point) × TieredCollection b
  unfolding hydrate_from_warm hydrate_from_cold record_access_at
  get fmt now id tc = (read_tier fmt (Dict.get id tc.point_tiers) id tc, accessed now id tc)

  -- `if let Ok(Some(point))`.
  abbrev pub found : Result (Option Point) → Option Point
  found (ok o) = o
  found (err e) = none

  abbrev pub cold_or_none :
      ℕ → Text → TieredCollection b → Option Point → Option Point × TieredCollection b
  cold_or_none now id tc none = (none, tc)
  cold_or_none now id tc (some p) = (some p, accessed now id tc)

  -- The lookup in the warm tier, and behind it in the cold one; a hit there is an access.
  abbrev pub any_tier :
      Formats
      → ℕ
      → Text
      → TieredCollection b
      → Option Point
      → Option Point
      → Option Point × TieredCollection b
  any_tier fmt now id tc (some p) o = (some p, tc)
  any_tier fmt now id tc none (some p) = (some p, accessed now id tc)
  any_tier fmt now id tc none none = cold_or_none now id tc (hydrate_from_cold fmt id tc)

  unfoldable pub get_from_any_tier :
      Formats → ℕ → Text → TieredCollection b → Option Point × TieredCollection b
  unfolding hydrate_from_warm hydrate_from_cold record_access_at
  get_from_any_tier fmt now id tc =
      any_tier fmt now id tc (Dict.get id tc.collection.points) (found (hydrate_from_warm id tc))

  -- The old node of the index is a tombstone before the point is inserted again.
  abbrev pub promoted :
      Text
      → Option Point
      → (TieredCollection b → TieredCollection b)
      → TieredCollection b
      → Result (Unit {0}) × TieredCollection b
  promoted id none leave tc = (ok tt, tc)
  promoted id (some p) leave tc =
      after_insert (Collection.insert b p (tombstone_in_index b id tc.collection))
        (λ tc'. set_tier id hot (leave tc')) tc

  unfoldable pub promote_to_hot :
      Formats → Text → TieredCollection b → Result (Unit {0}) × TieredCollection b
  unfolding hydrate_from_warm hydrate_from_cold leave_warm leave_cold set_tier
  promote_to_hot fmt id tc = elim (Dict.get id tc.point_tiers) [
    | none ↦ (ok tt, tc)
    | some tier ↦ elim tier [
      | hot ↦ (ok tt, tc)
      | warm ↦ promoted id (found (hydrate_from_warm id tc)) (leave_warm id) tc
      | cold ↦ promoted id (hydrate_from_cold fmt id tc) (leave_cold id) tc
    ]
  ]

  -- The metadata goes to the warm map, and the point out of the collection but not of the index.
  unfoldable pub move_to_warm : Text → Point → TieredCollection b → TieredCollection b
  unfolding set_tier
  move_to_warm id p tc = set_tier id warm (record tc {
    warm_metadata = Dict.insert id (warm_meta p) tc.warm_metadata;
    collection = (remove_data_only b id tc.collection).1;
  })

  abbrev pub warmed : Text → Option Point → TieredCollection b → TieredCollection b
  warmed id none tc = tc
  warmed id (some p) tc =
      move_to_warm id p
        (record tc { warm_storage = map_some (add_vector id p.vector) tc.warm_storage })

  unfoldable pub demote_to_warm : Text → TieredCollection b → TieredCollection b
  unfolding move_to_warm
  demote_to_warm id tc = warmed id (Dict.get id tc.collection.points) tc

  unfoldable pub settle_cold : Text → Point → TieredCollection b → TieredCollection b
  unfolding set_tier
  settle_cold id p tc =
      set_tier id cold (record tc { cold_ids = Dict.insert id (cold_meta p) tc.cold_ids })

  -- Behind the save, `tc` is the state before it and `tc'` the one to go on with.
  abbrev pub cooled :
      Text
      → Point
      → Result (Option ColdStorage)
      → TieredCollection b
      → TieredCollection b
      → Result (Unit {0}) × TieredCollection b
  cooled id p (err e) tc tc' = (err e, tc)
  cooled id p (ok cs) tc tc' = (ok tt, settle_cold id p (record tc' { cold_storage = cs }))

  abbrev pub moved_to_cold :
      Formats
      → (Text → Bool)
      → Text
      → Result (Option Point)
      → TieredCollection b
      → Result (Unit {0}) × TieredCollection b
  moved_to_cold fmt writable id (err e) tc = (err e, tc)
  moved_to_cold fmt writable id (ok none) tc = (ok tt, tc)
  moved_to_cold fmt writable id (ok (some p)) tc =
      cooled id p (saved fmt writable p tc.cold_storage) tc (leave_warm id tc)

  unfoldable pub demote_to_cold :
      Formats → (Text → Bool) → Text → TieredCollection b → Result (Unit {0}) × TieredCollection b
  unfolding hydrate_from_warm save_point leave_warm settle_cold
  demote_to_cold fmt writable id tc = moved_to_cold fmt writable id (hydrate_from_warm id tc) tc
