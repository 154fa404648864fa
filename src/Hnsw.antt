-- ===== src/Hnsw.antt =====
-- `HnswIndex` (crates/core/src/search.rs). The graph of hnsw_rs and the floating-point arithmetic of
-- `normalize_vector` are the functions of a `Graph`.
pub mod Live
pub mod Readded
use ferres_db.Base.{
  ℕ, zero, suc, ◌+◌, ◌*◌, ◌<◌, Bool, true, false, not, ◌&&◌, ◌||◌, Option, none, some, List, [],
  ◌∷◌, ◌++◌, length, take, is_empty, any, min, max, ltb, leb, ◌==◌, if◌then◌else◌,
}
use ferres_db.Base.Text.{Text, text_eq}
use ferres_db.Base.Dict
use ferres_db.Base.Dict.{Dict, contains_key}
use ferres_db.Error.{Result, ok, err, ◌>>=◌, ◌>>◌}
use ferres_db.Point.{Point, Vector, storage_id}
use ferres_db.Backend.{DistanceMetric, Hit, cosine, dot_product, euclidean}
use ferres_db.Collection.{validate_vector_finite}

pub record Graph : Type 1 where
  pub Inner : Type 0
  pub create : DistanceMetric → Inner
  pub insert_data : Vector → ℕ → Inner → Inner
  pub search : Vector → ℕ → ℕ → Inner → List (ℕ × ℕ)
  pub search_filter : Vector → ℕ → ℕ → (ℕ → Bool) → Inner → List (ℕ × ℕ)
  pub normalize_vector : Vector → Result Vector

-- `Vec::get`, and a `HashSet` of ids as a list.
unfoldable pub get_elem? : List Text → ℕ → Option Text
get_elem? [] n = none
get_elem? (x ∷ xs) zero = some x
get_elem? (x ∷ xs) (suc n) = get_elem? xs n

abbrev pub contains : Text → List Text → Bool
contains id ids = any (λ j. text_eq j id) ids

abbrev pub insert_id : Text → List Text → List Text
insert_id id ids = if contains id ids then ids else id ∷ ids

module _ (g : Graph) where
  pub record HnswIndex : Type 0 where
    pub inner : g.Inner
    pub id_map : List Text
    pub reverse_map : Dict ℕ
    pub tombstones : List Text
    pub distance : DistanceMetric
    pub ef_search_runtime : ℕ

  unfoldable pub new : DistanceMetric → ℕ → HnswIndex
  new distance ef = record {
    inner = g.create distance;
    id_map = [];
    reverse_map = [];
    tombstones = [];
    distance = distance;
    ef_search_runtime = ef;
  }

  unfoldable pub prepare_vector : Vector → DistanceMetric → Result Vector
  prepare_vector v cosine = g.normalize_vector v
  prepare_vector v dot_product = validate_vector_finite v >> ok v
  prepare_vector v euclidean = validate_vector_finite v >> ok v

  -- The id is entered before the vector is prepared, and stays when that fails.
  abbrev pub enter : Text → HnswIndex → HnswIndex
  enter sid h = record h {
    id_map = h.id_map ++ sid ∷ [];
    reverse_map = Dict.insert sid (length h.id_map) h.reverse_map;
  }

  abbrev pub put : ℕ → Result Vector → HnswIndex → Result (Unit {0}) × HnswIndex
  put data_id (ok v) h = (ok tt, record h { inner = g.insert_data v data_id h.inner })
  put data_id (err e) h = (err e, h)

  unfoldable pub add_point : Point → HnswIndex → Result (Unit {0}) × HnswIndex
  unfolding prepare_vector
  add_point p h =
      put (length h.id_map) (prepare_vector p.vector h.distance) (enter (storage_id p) h)

  unfoldable pub remove_point : Text → HnswIndex → HnswIndex
  remove_point id h =
      if contains_key id h.reverse_map
      then record h { tombstones = insert_id id h.tombstones }
      else h

  abbrev pub cleared : HnswIndex → HnswIndex
  cleared h = record h {
    inner = g.create h.distance;
    id_map = [];
    reverse_map = [];
    tombstones = [];
  }

  abbrev pub then_add :
      Result (Unit {0}) × HnswIndex
      → (HnswIndex → Result (Unit {0}) × HnswIndex)
      → Result (Unit {0}) × HnswIndex
  then_add (ok u, h) f = f h
  then_add (err e, h) f = (err e, h)

  unfoldable pub add_all : List Point → HnswIndex → Result (Unit {0}) × HnswIndex
  add_all [] h = (ok tt, h)
  add_all (p ∷ ps) h = then_add (add_point p h) (add_all ps)

  -- The branch for many points under the cosine metric: all vectors are normalized first.
  unfoldable pub normalize_all : List Point → Result (List Vector)
  normalize_all [] = ok []
  normalize_all (p ∷ ps) = do v ← g.normalize_vector p.vector; vs ← normalize_all ps; ok (v ∷ vs)

  unfoldable pub insert_normalized : List Point → List Vector → HnswIndex → HnswIndex
  insert_normalized (p ∷ ps) (v ∷ vs) h =
      insert_normalized ps vs (put (length h.id_map) (ok v) (enter (storage_id p) h)).1
  insert_normalized _ _ h = h

  abbrev pub is_cosine : DistanceMetric → Bool
  is_cosine cosine = true
  is_cosine _ = false

  abbrev pub fill : List Point → Result (List Vector) → HnswIndex → Result (Unit {0}) × HnswIndex
  fill ps (ok vs) h = (ok tt, insert_normalized ps vs h)
  fill ps (err e) h = (err e, h)

  unfoldable pub build : List Point → HnswIndex → Result (Unit {0}) × HnswIndex
  unfolding add_all insert_normalized normalize_all
  build ps h =
      if is_cosine h.distance && ltb 100 (length ps)
      then fill ps (normalize_all ps) (cleared h)
      else add_all ps (cleared h)

  -- `IdMapFilter::hnsw_filter`.
  unfoldable pub hnsw_filter : HnswIndex → (Text → Bool) → ℕ → Bool
  hnsw_filter h predicate n = elim (get_elem? h.id_map n) [
    | none ↦ false
    | some id ↦ if contains id h.tombstones then false else predicate id
  ]

  -- The neighbours with the ids that they have, those without one left out.
  unfoldable pub named : List Text → List (ℕ × ℕ) → List Hit
  named id_map [] = []
  named id_map ((n, d) ∷ ns) =
      let rest = named id_map ns in
      elim (get_elem? id_map n) [ none ↦ rest | some id ↦ (id, d) ∷ rest ]

  -- The same without the tombstones.
  unfoldable pub named_live : List Text → List Text → List (ℕ × ℕ) → List Hit
  named_live id_map dead [] = []
  named_live id_map dead ((n, d) ∷ ns) =
      let rest = named_live id_map dead ns in
      elim (get_elem? id_map n) [
        | none ↦ rest
        | some id ↦ if contains id dead then rest else (id, d) ∷ rest
      ]

  -- The loop of the filtered search, for the rounds that are left.
  unfoldable pub search_rounds :
      HnswIndex → Vector → ℕ → (Text → Bool) → ℕ → ℕ → List Hit → List Hit
  unfolding named hnsw_filter
  search_rounds h q k predicate zero ef best = best
  search_rounds h q k predicate (suc rounds) ef best =
      let max_points : ℕ = length h.id_map in
      let results : List Hit =
        named h.id_map (g.search_filter q k ef (hnsw_filter h predicate) h.inner) in
      let best' : List Hit = if ltb (length best) (length results) then results else best in
      let next : ℕ = min (ef * 2) max_points in
      let more = search_rounds h q k predicate rounds next best' in
      if leb k (length results)
      then results
      else if leb max_points ef
      then best'
      else if leb next ef
      then best'
      else more

  abbrev pub max_iter : ℕ
  max_iter = 20

  abbrev pub search_prepared : Vector → ℕ → Option (Text → Bool) → HnswIndex → List Hit
  search_prepared q k none h =
      let extra : ℕ = min (k + length h.tombstones) (length h.id_map) in
      take k (
        named_live h.id_map h.tombstones (g.search q extra (max h.ef_search_runtime extra) h.inner))
  search_prepared q k (some predicate) h =
      search_rounds h q k predicate max_iter
        (min (max h.ef_search_runtime (k * 5)) (length h.id_map)) []

  unfoldable pub search : Vector → ℕ → Option (Text → Bool) → HnswIndex → Result (List Hit)
  unfolding prepare_vector search_rounds named_live
  search query k predicate h = do
    q ← prepare_vector query h.distance
    ok (
        if min k (length h.id_map) == 0
        then []
        else search_prepared q (min k (length h.id_map)) predicate h)
