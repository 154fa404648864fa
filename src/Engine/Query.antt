-- ===== src/Engine/Query.antt =====
-- The reads of `VectorDB` (crates/core/src/lib.rs): searches whose hits are resolved in every tier,
-- single points, and statistics. A filter is its predicate on points.
use ferres_db.Base.{ℕ, ◌+◌, ◌*◌, Bool, false, Option, none, some, List, [], ◌∷◌, min, max}
use ferres_db.Base.Text.{Text}
use ferres_db.Base.Dict
use ferres_db.Base.Dict.{Dict, values, keys}
use ferres_db.Error.{Result, ok, err, collection_not_found, point_not_found}
use ferres_db.Point.{Point, Vector, storage_id_from_parts}
use ferres_db.Backend.{Backend, Hit}
use ferres_db.Collection.{Collection, validate_dimension}
use ferres_db.Collection.Search
use ferres_db.Engine.{Env, VectorDb, AnyCollection, plain, tiered, inner, total_len, resolve_point}

-- The field `vector` is `None` in every result, and is left out.
pub record SearchResult : Type 0 where
  pub id : Text
  pub score : ℕ
  pub metadata : Text
  pub namespace : Option Text

pub record CollectionStats : Type 0 where
  pub num_points : ℕ
  pub index_size_bytes : ℕ
  pub last_updated : ℕ

pub record CollectionInfo : Type 0 where
  pub name : Text
  pub dimension : ℕ
  pub num_points : ℕ
  pub created_at : ℕ

-- The newest and the oldest of the points, if there is one.
abbrev pub newest : List Point → Option ℕ
newest [] = none
newest (p ∷ ps) = elim (newest ps) [ none ↦ some p.created_at | some t ↦ some (max p.created_at t) ]

abbrev pub oldest : List Point → Option ℕ
oldest [] = none
oldest (p ∷ ps) = elim (oldest ps) [ none ↦ some p.created_at | some t ↦ some (min p.created_at t) ]

abbrev pub result_of : ℕ → Point → SearchResult
result_of score p = record {
  id = p.id;
  score = score;
  metadata = p.metadata;
  namespace = p.namespace;
}

module _ (b : Backend) where
  -- The inner collection of either kind, replaced.
  abbrev pub with_inner : Collection b → AnyCollection b → AnyCollection b
  with_inner c (plain old) = plain c
  with_inner c (tiered tc) = tiered (record tc { collection = c })

module _ (env : Env) where
  -- The hits that resolve, in their order; the others are left out.
  abbrev pub kept_hit :
      ℕ
      → Option Point × AnyCollection env.backend
      → (AnyCollection env.backend → List SearchResult × AnyCollection env.backend)
      → List SearchResult × AnyCollection env.backend
  kept_hit score (none, ac) rest = rest ac
  kept_hit score (some p, ac) rest =
      let (results, ac') = rest ac in (result_of score p ∷ results, ac')

  unfoldable pub resolve_hits :
      ℕ → List Hit → AnyCollection env.backend → List SearchResult × AnyCollection env.backend
  unfolding resolve_point
  resolve_hits now [] ac = ([], ac)
  resolve_hits now ((key, score) ∷ hits) ac =
      kept_hit score (resolve_point env.backend env.formats now key ac) (resolve_hits now hits)

  abbrev pub resolved :
      ℕ
      → Result (List Hit) × Collection env.backend
      → AnyCollection env.backend
      → Result (List SearchResult) × AnyCollection env.backend
  resolved now (err e, c) ac = (err e, with_inner env.backend c ac)
  resolved now (ok hits, c) ac =
      let (results, ac') = resolve_hits now hits (with_inner env.backend c ac) in (ok results, ac')

  abbrev pub search_checked :
      ℕ
      → Result (Unit {0})
      → Vector
      → ℕ
      → Option (Text → Bool)
      → AnyCollection env.backend
      → Result (List SearchResult) × AnyCollection env.backend
  search_checked now (err e) query limit predicate ac = (err e, ac)
  search_checked now (ok u) query limit predicate ac =
      resolved now (Search.search env.backend query limit predicate none (inner env.backend ac)) ac

  -- The search of a collection, without a filter or with the predicate of one.
  unfoldable pub search_in :
      ℕ
      → Vector
      → ℕ
      → Option (Text → Bool)
      → AnyCollection env.backend
      → Result (List SearchResult) × AnyCollection env.backend
  unfolding resolve_hits inner
  search_in now query limit predicate ac =
      search_checked now (validate_dimension (inner env.backend ac).config query) query limit
        predicate ac

  abbrev pub put_back :
      {A : Type 0} → Text → A × AnyCollection env.backend → VectorDb env → A × VectorDb env
  put_back name (r, ac) db = (r, record db { collections = Dict.insert name ac db.collections })

  abbrev pub searched :
      ℕ
      → Text
      → Vector
      → ℕ
      → Option (Text → Bool)
      → Option (AnyCollection env.backend)
      → VectorDb env
      → Result (List SearchResult) × VectorDb env
  searched now name query limit predicate none db = (err (collection_not_found name), db)
  searched now name query limit predicate (some ac) db =
      put_back name (search_in now query limit predicate ac) db

  unfoldable pub search :
      ℕ → Text → Vector → ℕ → VectorDb env → Result (List SearchResult) × VectorDb env
  unfolding search_in
  search now name query limit db =
      searched now name query limit none (Dict.get name db.collections) db

  -- The predicate of a filter: the point of a key, in any tier, matches.
  abbrev pub holds_of : (Point → Bool) → Option Point → Bool
  holds_of matches none = false
  holds_of matches (some p) = matches p

  abbrev pub filter_of : ℕ → (Point → Bool) → Option (AnyCollection env.backend) → Text → Bool
  filter_of now matches none key = false
  filter_of now matches (some ac) key =
      holds_of matches (resolve_point env.backend env.formats now key ac).0

  -- `none` is the empty filter. The accesses that the predicate records are left out.
  unfoldable pub search_with_filter :
      ℕ
      → Text
      → Vector
      → ℕ
      → Option (Point → Bool)
      → VectorDb env
      → Result (List SearchResult) × VectorDb env
  unfolding search search_in
  search_with_filter now name query limit none db = search now name query limit db
  search_with_filter now name query limit (some matches) db =
      searched now name query limit (some (filter_of now matches (Dict.get name db.collections)))
        (Dict.get name db.collections) db

  abbrev pub point_or_err : Text → Option Point → Result Point
  point_or_err id none = err (point_not_found id)
  point_or_err id (some p) = ok p

  abbrev pub got :
      Text
      → Text
      → Option Point × AnyCollection env.backend
      → VectorDb env
      → Result Point × VectorDb env
  got name id (o, ac) db = put_back name (point_or_err id o, ac) db

  abbrev pub get_in :
      ℕ
      → Text
      → Text
      → Text
      → Option (AnyCollection env.backend)
      → VectorDb env
      → Result Point × VectorDb env
  get_in now name id key none db = (err (collection_not_found name), db)
  get_in now name id key (some ac) db =
      got name id (resolve_point env.backend env.formats now key ac) db

  unfoldable pub get_point :
      ℕ → Text → Text → Option Text → VectorDb env → Result Point × VectorDb env
  unfolding resolve_point storage_id_from_parts
  get_point now name id namespace db =
      get_in now name id (storage_id_from_parts namespace id) (Dict.get name db.collections) db

  -- `max_nb_connection` is a setting of the HNSW graph.
  unfoldable pub get_collection_stats : ℕ → ℕ → Text → VectorDb env → Result CollectionStats
  unfolding inner total_len
  get_collection_stats now max_nb_connection name db = elim (Dict.get name db.collections) [
    | none ↦ err (collection_not_found name)
    | some ac ↦
        (let n : ℕ = total_len env.backend ac in
          let c : Collection env.backend = inner env.backend ac in
          ok (record {
            num_points = n;
            index_size_bytes = n * c.config.dimension * 4 + n * max_nb_connection * 8;
            last_updated = elim (newest (values c.points)) [ none ↦ now | some t ↦ t ];
          }))
  ]

  abbrev pub info_of : Text → AnyCollection env.backend → CollectionInfo
  info_of name ac = record {
    name = name;
    dimension = (inner env.backend ac).config.dimension;
    num_points = total_len env.backend ac;
    created_at = elim (oldest (values (inner env.backend ac).points)) [ none ↦ 0 | some t ↦ t ];
  }

  unfoldable pub infos : Dict (AnyCollection env.backend) → List CollectionInfo
  unfolding inner total_len
  infos [] = []
  infos ((name, ac) ∷ rest) = info_of name ac ∷ infos rest

  unfoldable pub list_collections : VectorDb env → List CollectionInfo
  unfolding infos
  list_collections db = infos db.collections

  unfoldable pub collection_names : VectorDb env → List Text
  collection_names db = keys db.collections
