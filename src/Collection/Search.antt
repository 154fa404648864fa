-- ===== src/Collection/Search.antt =====
-- `Collection::search`: an exact scan of small collections, else the index behind the cache.
use ferres_db.Base.{
  ℕ, ◌+◌, ◌-◌, Bool, not, ◌&&◌, Option, none, some, List, [], ◌∷◌, length, take, leb, ◌==◌, is_some,
  if◌then◌else◌,
}
use ferres_db.Base.Text.{Text, text, text_eq}
use ferres_db.Base.Dict
use ferres_db.Base.Dict.{Dict}
use ferres_db.Error.{Result, ok, err, unknown_vector_field}
use ferres_db.Point.{Point, Vector, storage_id}
use ferres_db.Backend.{Backend, Hit, CacheKey}
use ferres_db.Collection.{Collection, validate_dimension}

abbrev pub brute_force_threshold : ℕ
brute_force_threshold = 50

-- The named field that is searched; none stands for the main vector.
unfoldable pub named_field : Option Text → Option Text
named_field none = none
named_field (some f) = if text_eq f (text "default") then none else some f

module _ (b : Backend) where
  -- The scored points, sorted by distance; equal distances keep their order.
  unfoldable pub insert_scored : Hit → List Hit → List Hit
  insert_scored x [] = x ∷ []
  insert_scored x (y ∷ ys) =
      if b.not_greater (x.1) (y.1) then x ∷ y ∷ ys else y ∷ insert_scored x ys

  unfoldable pub sort_scored : List Hit → List Hit
  unfolding insert_scored
  sort_scored [] = []
  sort_scored (x ∷ xs) = insert_scored x (sort_scored xs)

  abbrev pub scored : Collection b → Vector → Dict Point → List Hit
  scored c query [] = []
  scored c query ((id, p) ∷ rest) =
      (storage_id p, b.distance_between c.config.distance query p.vector) ∷ scored c query rest

  unfoldable pub scans : Option (Text → Bool) → Option Text → Collection b → Bool
  scans predicate field c =
      leb (length c.points) brute_force_threshold
      && length c.points == b.index_id_count c.index - b.tombstone_count c.index
      && not (is_some predicate)
      && not (is_some field)

  unfoldable pub scan : Vector → ℕ → Collection b → List Hit
  unfolding sort_scored
  scan query k c = take k (sort_scored (scored c query c.points))

  -- The index of a field.
  unfoldable pub index_of : Option Text → Collection b → Result b.Index
  index_of none c = ok c.index
  index_of (some f) c = elim (Dict.get f c.vector_indices) [
    | none ↦ err (unknown_vector_field f)
    | some index ↦ ok index
  ]

  -- Without the cache.
  unfoldable pub search_index :
      Vector → ℕ → Option (Text → Bool) → Option Text → Collection b → Result (List Hit)
  unfolding index_of
  search_index query k predicate field c = elim (index_of field c) [
    | err e ↦ err e
    | ok index ↦ b.search query k predicate index
  ]

  -- A miss: the result, if there is one, goes into the cache.
  abbrev pub remember :
      CacheKey → b.Cache → Result (List Hit) → Collection b → Result (List Hit) × Collection b
  remember key cache (err e) c = (err e, record c { search_cache = some cache })
  remember key cache (ok hits) c =
      (ok hits, record c { search_cache = some (b.cache_put key hits cache) })

  abbrev pub with_answer :
      CacheKey
      → Option (List Hit)
      → b.Cache
      → Result (List Hit)
      → Collection b
      → Result (List Hit) × Collection b
  with_answer key (some hits) cache fresh c =
      (ok hits, record c { search_cache = some cache; search_cache_hits = c.search_cache_hits + 1 })
  with_answer key none cache fresh c =
      remember key cache fresh
        (record c { search_cache = some cache; search_cache_misses = c.search_cache_misses + 1 })

  abbrev pub through_cache :
      CacheKey
      → Option b.Cache
      → Result (List Hit)
      → Collection b
      → Result (List Hit) × Collection b
  through_cache key none fresh c = (fresh, c)
  through_cache key (some cache) fresh c =
      let (answer, cache') = b.cache_get key cache in with_answer key answer cache' fresh c

  -- An error ends the search.
  abbrev pub guarded :
      {A : Type 0}
      → Result A
      → Result (List Hit) × Collection b
      → Collection b
      → Result (List Hit) × Collection b
  guarded (err e) go c = (err e, c)
  guarded (ok u) go c = go

  abbrev pub search_cached :
      Vector
      → ℕ
      → Option (Text → Bool)
      → Option Text
      → Collection b
      → Result (List Hit) × Collection b
  search_cached query k (some predicate) field c =
      (search_index query k (some predicate) field c, c)
  search_cached query k none field c =
      guarded (index_of field c)
        (through_cache (b.query_hash query, k, field) c.search_cache
          (search_index query k none field c) c)
        c

  unfoldable pub search :
      Vector
      → ℕ
      → Option (Text → Bool)
      → Option Text
      → Collection b
      → Result (List Hit) × Collection b
  unfolding scans scan search_index index_of named_field
  search query k predicate field c =
      guarded (validate_dimension c.config query)
        (if scans predicate field c
          then (ok (scan query k c), c)
          else search_cached query k predicate (named_field field) c)
        c
