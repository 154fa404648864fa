-- ===== src/Examples/Layers.antt =====
-- The tiers and the graph, at small inputs.
use ferres_db.Base.{ℕ, ◌≤◌, ◌≡◌, refl, true, false, none, some, List, [], ◌∷◌, arith, inl, All}
use ferres_db.Base.Text.{Text, text, text_eq, text_eq_iff}
use ferres_db.Base.Utf8.{IsScalar}
use ferres_db.Base.Dict
use ferres_db.Base.Dict.{Dict, values}
use ferres_db.Error.{ok, Result, err, is_ok, storage, cold_write}
use ferres_db.Point.{Point, storage_id, storage_id_from_parts}
use ferres_db.Collection
use ferres_db.Collection.{Collection}
use ferres_db.Tiered.{StorageTier, hot, warm, cold, TieredStorageConfig}
use ferres_db.Tiered.Warm.{WarmStorage}
use ferres_db.Tiered.Cold.{point_path}
use ferres_db.Tiered.Layers
use ferres_db.Tiered.Layers.{TieredCollection, WarmPointMeta, get_from_any_tier, demote_to_cold}
use ferres_db.Tiered.Compaction.{run_compaction, warm_read, demote_batch_to_cold}
use ferres_db.Tiered.Kept.{Kept, IsPlainId}
use ferres_db.Tiered.KeptRuns.{inserts, warms, compacts, run, get-run}
use ferres_db.Tiered.FailedSave.{demote_batch_loses}
use ferres_db.Graph.{traverse_bfs, seen}
use ferres_db.Backend.{Hit}
use ferres_db.Collection.Connected.{search_connected, AreNear, search_connected-AreNear}
use ferres_db.Graph.Levels.{Walk, ids_of}
use ferres_db.Graph.Reached.{traverse_bfs-Walk}
use ferres_db.Graph.Ends.{traverse_bfs_ends}
use ferres_db.Examples.Instances.{toy, config, a}
use ferres_db.Examples.Snapshots.{docs, docs-IsKeyed, formats}

scalars : All IsScalar (text "a/b")
scalars = (inl (omega arith), (inl (omega arith), (inl (omega arith), tt)))

abbrev points : Dict Point
points =
    (text "a", record a { relations = some (text "b" ∷ []) })
    ∷ (text "b", record a { id = text "b"; relations = some (text "a" ∷ []) })
    ∷ []

traverse_bfs_ends_example :
    (r : Result (List Point)) × (traverse_bfs (λ k. Dict.get k points) 3 (text "a") 9 ≡ some r)
traverse_bfs_ends_example = traverse_bfs_ends points 3 (text "a") 9 (omega arith)

points_keyed : (k : Text) (p : Point) → Dict.get k points ≡ some p → storage_id p ≡ k
unfolding Dict.get storage_id storage_id_from_parts
points_keyed k p h = ground (arith, text_eq_iff (text "a") k, text_eq_iff (text "b") k)

found_both : traverse_bfs (λ k. Dict.get k points) 3 (text "a") 9 ≡ some (ok (values points))
unfolding traverse_bfs Dict.get text_eq storage_id storage_id_from_parts
found_both = refl

traverse_bfs-Walk_example :
    (seen (text "b") (ids_of (values points)) ≡ true
      → (n : ℕ) × (n ≤ 9) × Walk (λ k. Dict.get k points) (text "a") n (text "b"))
    × ((n : ℕ)
        → n ≤ 9
        → Walk (λ k. Dict.get k points) (text "a") n (text "b")
        → seen (text "b") (ids_of (values points)) ≡ true)
traverse_bfs-Walk_example =
    traverse_bfs-Walk (λ k. Dict.get k points) points_keyed 3 9 (text "a") (text "b")
      (values points) found_both

search_connected-AreNear_example :
    (r : Result (List Hit)) × (search_connected toy (1 ∷ 2 ∷ []) (text "a") 2 5 docs ≡ some r)
    × AreNear toy docs (text "a") 2 5 r
search_connected-AreNear_example =
    search_connected-AreNear toy (1 ∷ 2 ∷ []) (text "a") 2 5 docs docs-IsKeyed

abbrev empty : Collection toy
unfolding Collection.new Collection.with_index
empty = Collection.new toy config

-- An empty collection with both storages.
abbrev layers : TieredCollection toy
unfolding Layers.new empty
layers = Layers.new toy 0 empty config.tiered_storage (
    some (
      record { vectors_file = none; index_file = none; mmap = none; offsets = []; dimension = 2 },
      record { files = [] },
    ))

layers-Kept : Kept toy formats layers
unfolding layers empty Dict.get
layers-Kept = record {
  keyed = record { distinct = tt; keyed = λ k p h. cc; sized = λ k p h. cc };
  fits = (
    record { file = []; file_is = refl; map_is = refl; bounded = tt; roomy = omega arith },
    refl,
    omega arith,
  );
  stored = refl;
  plain_keys = tt;
  placed = λ j t plain h open_j. cc;
}

plain_a : IsPlainId (text "a")
plain_a = (((λ e. omega arith), tt), (inl (omega arith), tt))

cold_a :
    Dict.get
      (text "a")
      (run toy formats
        (λ path. true)
        layers
        (inserts 1 a ∷ warms (text "a") ∷ compacts 20_000 ∷ [])).point_tiers
    ≡ some cold
unfolding layers Layers.insert Layers.demote_to_warm run_compaction Dict.get text_eq
    Collection.insert Collection.validate_dimension Collection.validate_point_named_vectors
    Collection.validate_named ferres_db.Exec.each Collection.touched Collection.store_point
    Dict.insert Collection.store_text storage_id
cold_a = refl

compacts_a :
    is_ok
      (run_compaction toy formats
        (λ path. true)
        20_000
        (run toy formats (λ path. true) layers (inserts 1 a ∷ warms (text "a") ∷ []))).0
    ≡ true
unfolding layers Layers.insert Layers.demote_to_warm run_compaction Dict.get text_eq
    Collection.insert Collection.validate_dimension Collection.validate_point_named_vectors
    Collection.validate_named ferres_db.Exec.each Collection.touched Collection.store_point
    Dict.insert Collection.store_text storage_id
compacts_a = refl

get-run_example :
    (p : Point) × ((get_from_any_tier toy formats 30_000 (text "a") (
        run toy formats
          (λ path. true)
          layers
          (inserts 1 a ∷ warms (text "a") ∷ compacts 20_000 ∷ []))).0
      ≡ some p)
get-run_example =
    get-run toy formats (λ path. true) (inserts 1 a ∷ warms (text "a") ∷ compacts 20_000 ∷ [])
      layers 30_000 (text "a") cold (tt, (tt, (compacts_a, tt)))
      ((refl, plain_a), (plain_a, (tt, tt))) layers-Kept plain_a cold_a (λ t h. (a, refl))

-- "a" is in the warm tier, and the cold storage takes nothing.
abbrev warm_a : WarmStorage
warm_a = record {
  vectors_file = some (1 ∷ 0 ∷ 0 ∷ 0 ∷ 2 ∷ 0 ∷ 0 ∷ 0 ∷ []);
  index_file = none;
  mmap = some (1 ∷ 0 ∷ 0 ∷ 0 ∷ 2 ∷ 0 ∷ 0 ∷ 0 ∷ []);
  offsets = (text "a", 0) ∷ [];
  dimension = 2;
}

abbrev meta_a : WarmPointMeta
meta_a = record { metadata = text "null"; created_at = 5; expires_at = none }

abbrev warmed : TieredCollection toy
unfolding Collection.new Collection.with_index
warmed = record {
  collection = Collection.new toy config;
  config = config.tiered_storage;
  access_tracker = record { last_access = []; access_count = [] };
  point_tiers = (text "a", warm) ∷ [];
  warm_storage = some warm_a;
  cold_storage = some (record { files = [] });
  warm_metadata = (text "a", meta_a) ∷ [];
  cold_ids = [];
}

vector_read : warm_read (text "a") warm_a ≡ some (1 ∷ 2 ∷ [])
unfolding Dict.get ferres_db.Tiered.Warm.read_vector
vector_read = refl

demote_batch_loses_example :
    (demote_to_cold toy formats (λ path. false) (text "a") warmed
      ≡ (err (storage cold_write), warmed))
    × ((demote_batch_to_cold toy formats (λ path. false) (text "a" ∷ []) warmed).0
        ≡ err (storage cold_write))
    × ((get_from_any_tier toy formats 9
          (text "a")
          (demote_batch_to_cold toy formats (λ path. false) (text "a" ∷ []) warmed).1).0
        ≡ none)
unfolding Dict.get text_eq warmed Layers.hydrate_from_cold ferres_db.Tiered.Cold.load_point
    ferres_db.Tiered.Cold.save_point
demote_batch_loses_example =
    demote_batch_loses toy formats (λ path. false) (text "a") [] warmed warm_a (1 ∷ 2 ∷ []) meta_a
      (storage cold_write) 9 refl vector_read refl refl refl refl
