-- ===== src/Collection.antt =====
-- `Collection` (crates/core/src/collection.rs): the points of a collection, its indices, its cache
-- and its dirty flag.
pub mod Batch
pub mod Insert
pub mod Sweep
pub mod Keyed
pub mod Runs
pub mod Lookup
pub mod Links
pub mod Dirty
pub mod Search
pub mod Cache
pub mod Connected
use ferres_db.Base.{
  ℕ, ◌+◌, ◌-◌, ◌*◌, ◌/◌, ◌<◌, Bool, true, false, not, ◌&&◌, Option, none, some, List, [], ◌∷◌, ◌++◌,
  ltb, leb, ◌==◌, if◌then◌else◌, is_empty, any, length, max, min, map, keep, is_some,
}
use ferres_db.Base.Text.{Text, text_eq}
use ferres_db.Base.Dict
use ferres_db.Base.Dict.{Dict, contains_key, keys, values}
use ferres_db.Error.{
  FerresError, Result, ok, err, dimension_mismatch, invalid_vector, point_not_found,
  invalid_point_id, not_finite, named_empty,
}
use ferres_db.Exec.{Exec, resume, ◌>>=◌, ◌>>◌, pure, check, gets, modify, each}
use ferres_db.Point.{Point, Vector, is_finite, storage_id}
use ferres_db.Bm25
use ferres_db.Bm25.{Bm25Index}
use ferres_db.Backend.{Backend, CollectionConfig, Hit}

pub record Collection (b : Backend) : Type 0 where
  pub config : CollectionConfig
  pub points : Dict Point
  pub index : b.Index
  pub vector_indices : Dict b.Index
  pub bm25_index : Option Bm25Index
  pub search_cache : Option b.Cache
  pub search_cache_hits : ℕ
  pub search_cache_misses : ℕ
  pub dirty : Bool

unfoldable pub synthetic_point_with_vector : Point → Vector → Point
synthetic_point_with_vector p vector = record p { vector = vector; vectors = none }

unfoldable pub validate_dimension : CollectionConfig → Vector → Result (Unit {0})
validate_dimension config vector =
    if length vector == config.dimension
    then ok tt
    else err (dimension_mismatch config.dimension (length vector))

-- `validate_vector_finite` of crates/core/src/search.rs.
unfoldable pub validate_vector_finite : Vector → Result (Unit {0})
unfolding is_finite
validate_vector_finite v =
    if any (λ x. not (is_finite x)) v then err (invalid_vector not_finite) else ok tt

abbrev pub and_then : Result (Unit {0}) → Result (Unit {0}) → Result (Unit {0})
and_then (ok u) r = r
and_then (err e) r = err e

unfoldable pub validate_named : CollectionConfig → Dict Vector → Result (Unit {0})
validate_named config [] = ok tt
validate_named config ((name, v) ∷ rest) = and_then (validate_dimension config v) (
    and_then (validate_vector_finite v) (
      and_then (if is_empty v then err (invalid_vector named_empty) else ok tt)
        (validate_named config rest)))

abbrev pub named_vectors : Point → Dict Vector
named_vectors p = elim p.vectors [ none ↦ [] | some m ↦ m ]

unfoldable pub validate_point_named_vectors : CollectionConfig → Point → Result (Unit {0})
validate_point_named_vectors config p = validate_named config (named_vectors p)

-- `ensure_contains` of `add_relation`.
abbrev pub push_new : Text → List Text → List Text
push_new id list = if any (λ r. text_eq r id) list then list else list ++ id ∷ []

unfoldable pub ensure_contains : Text → Option (List Text) → List Text
ensure_contains id none = push_new id []
ensure_contains id (some list) = push_new id list

module _ (b : Backend) where
  abbrev pub cache_for : CollectionConfig → Option b.Cache
  cache_for config =
      if ltb 0 config.search_cache_size then some (b.cache_new config.search_cache_size) else none

  abbrev pub bm25_for : CollectionConfig → Option Bm25Index
  bm25_for config = if config.enable_bm25 then some Bm25.new else none

  -- `with_index`; `new` passes the index that `create_ann_index` makes.
  unfoldable pub with_index : CollectionConfig → b.Index → Collection b
  with_index config index = record {
    config = config;
    points = [];
    index = index;
    vector_indices = [];
    bm25_index = bm25_for config;
    search_cache = cache_for config;
    search_cache_hits = 0;
    search_cache_misses = 0;
    dirty = false;
  }

  unfoldable pub new : CollectionConfig → Collection b
  unfolding with_index
  new config = with_index config (b.create_ann_index config)

  abbrev pub cleared : Option b.Cache → Option b.Cache
  cleared none = none
  cleared (some cache) = some (b.cache_clear cache)

  unfoldable pub invalidate_search_cache : Collection b → Collection b
  invalidate_search_cache c = record c { search_cache = cleared c.search_cache }

  -- What every mutation ends with.
  unfoldable pub touched : Collection b → Collection b
  unfolding invalidate_search_cache
  touched c = record (invalidate_search_cache c) { dirty = true }

  abbrev pub on_index : (b.Index → Result (Unit {0}) × b.Index) → Exec (Collection b) (Unit {0})
  on_index f c = let (r, index) = f c.index in (r, record c { index = index })

  abbrev pub index_or_new : CollectionConfig → Option b.Index → b.Index
  index_or_new config none = b.create_ann_index config
  index_or_new config (some index) = index

  -- `get_or_create_vector_index(name)?.add_point(&syn)?`.
  unfoldable pub add_named : Point → Text × Vector → Exec (Collection b) (Unit {0})
  add_named p (name, v) c =
      let (r, index) =
        b.add_point (synthetic_point_with_vector p v)
          (index_or_new c.config (Dict.get name c.vector_indices)) in
      (r, record c { vector_indices = Dict.insert name index c.vector_indices })

  abbrev pub index_text : Collection b → Point → Option Bm25Index → Option Bm25Index
  index_text c p none = none
  index_text c p (some bm25) = some (
      Bm25.index_document b.lower (storage_id p)
        (b.metadata_text p.metadata c.config.bm25_text_field) bm25)

  abbrev pub unindex_text : Text → Option Bm25Index → Option Bm25Index
  unindex_text id none = none
  unindex_text id (some bm25) = some (Bm25.remove_document id bm25)

  unfoldable pub store_text : Point → Collection b → Collection b
  store_text p c = record c { bm25_index = index_text c p c.bm25_index }

  unfoldable pub store_point : Point → Collection b → Collection b
  store_point p c = record c { points = Dict.insert (storage_id p) p c.points }

  unfoldable pub insert : Point → Exec (Collection b) (Unit {0})
  insert p = do
    check (λ c. validate_dimension c.config p.vector)
    check (λ c. validate_point_named_vectors c.config p)
    on_index (b.add_point p)
    each (add_named p) (named_vectors p)
    modify (store_text p)
    modify (store_point p)
    modify touched

  -- The indices, with the point taken out of each.
  abbrev pub drop_everywhere : Text → Dict b.Index → Dict b.Index
  drop_everywhere id [] = []
  drop_everywhere id ((name, index) ∷ rest) =
      (name, b.remove_point id index) ∷ drop_everywhere id rest

  -- One point out of the map, the indices and the texts.
  unfoldable pub drop_point : Text → Collection b → Collection b
  drop_point id c = record c {
    points = Dict.remove id c.points;
    index = b.remove_point id c.index;
    vector_indices = drop_everywhere id c.vector_indices;
    bm25_index = unindex_text id c.bm25_index;
  }

  unfoldable pub remove : Text → Exec (Collection b) (Unit {0})
  remove id c =
      if contains_key id c.points
      then (ok tt, touched (drop_point id c))
      else (err (point_not_found id), c)

  -- Out of the map and the texts, but not out of the index.
  unfoldable pub remove_data_only : Text → Collection b → Option Point × Collection b
  remove_data_only id c =
      if contains_key id c.points
      then (
        Dict.get id c.points,
        touched (record c {
          points = Dict.remove id c.points;
          bm25_index = unindex_text id c.bm25_index;
        }),
      )
      else (none, c)

  unfoldable pub tombstone_in_index : Text → Collection b → Collection b
  tombstone_in_index id c = record c { index = b.remove_point id c.index }

  abbrev pub find : Text → Exec (Collection b) Point
  find id c = (elim (Dict.get id c.points) [ none ↦ err (point_not_found id) | some p ↦ ok p ], c)

  unfoldable pub put_relations : Text → Point → Text → Point → Collection b → Collection b
  unfolding ensure_contains
  put_relations from p to q c = record c {
    points =
        Dict.insert to (record q { relations = some (ensure_contains from q.relations) })
          (Dict.insert from (record p { relations = some (ensure_contains to p.relations) })
            c.points);
  }

  unfoldable pub add_relation : Text → Text → Exec (Collection b) (Unit {0})
  add_relation from to = do
    check (λ c. if text_eq from to then err (invalid_point_id []) else ok tt)
    p ← find from
    q ← find to
    modify (put_relations from p to q)
    modify touched
