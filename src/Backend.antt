-- ===== src/Backend.antt =====
-- What a collection is built over: its configuration, an implementation of the trait `ANNIndex`
-- (crates/core/src/search.rs), the `lru` crate, `serde_json`, and the float operations.
use ferres_db.Base.{ℕ, Bool, Option, List}
use ferres_db.Base.Text.{Text}
use ferres_db.Error.{Result}
use ferres_db.Point.{Point, Vector}
use ferres_db.Tiered.{TieredStorageConfig}

pub data DistanceMetric : Type 0 where
  cosine euclidean dot_product : DistanceMetric

-- Of the HNSW and quantisation settings only what the collection itself reads.
pub record CollectionConfig : Type 0 where
  pub name : Text
  pub dimension : ℕ
  pub distance : DistanceMetric
  pub ef_search : ℕ
  pub search_cache_size : ℕ
  pub enable_bm25 : Bool
  pub bm25_text_field : Text
  pub tiered_storage : TieredStorageConfig
  pub retention_days : Option ℕ

-- An id with a distance or a score.
abbrev pub Hit : Type 0
Hit = Text × ℕ

-- The hash of the query's bits, `k`, and the vector field.
abbrev pub CacheKey : Type 0
CacheKey = ℕ × ℕ × Option Text

pub record Backend : Type 1 where
  pub Index : Type 0
  pub create_ann_index : CollectionConfig → Index
  pub build : List Point → Index → Result (Unit {0}) × Index
  pub add_point : Point → Index → Result (Unit {0}) × Index
  pub remove_point : Text → Index → Index
  pub search : Vector → ℕ → Option (Text → Bool) → Index → Result (List Hit)
  pub tombstone_count : Index → ℕ
  pub index_id_count : Index → ℕ
  pub current_ef_search : Index → ℕ
  pub set_ef_search : ℕ → Index → Index
  pub Cache : Type 0
  pub cache_new : ℕ → Cache
  pub cache_clear : Cache → Cache
  pub cache_get : CacheKey → Cache → Option (List Hit) × Cache
  pub cache_put : CacheKey → List Hit → Cache → Cache
  pub query_hash : Vector → ℕ
  pub metadata_text : Text → Text → Text
  pub lower : Text → Text
  pub distance_between : DistanceMetric → Vector → Vector → ℕ
  pub not_greater : ℕ → ℕ → Bool
