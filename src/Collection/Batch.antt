-- ===== src/Collection/Batch.antt =====
-- `Collection::insert_batch` (crates/core/src/collection.rs). `normalize_vector` is a parameter.
pub mod Points
pub mod Sized
use ferres_db.Base.{ℕ, Bool, true, false, List, [], ◌∷◌, ◌++◌, length, ltb, is_empty, if◌then◌else◌}
use ferres_db.Base.Text.{Text}
use ferres_db.Base.Dict
use ferres_db.Base.Dict.{values}
use ferres_db.Error.{Result, ok, err, ◌>>=◌}
use ferres_db.Exec.{Exec, resume, check, modify, each, pure, ◌>>◌}
use ferres_db.Point.{Point, Vector}
use ferres_db.Backend.{Backend, CollectionConfig, DistanceMetric, cosine}
use ferres_db.Collection.{
  Collection, validate_dimension, validate_point_named_vectors, named_vectors, on_index, add_named,
  store_text, store_point, touched,
}
use ferres_db.Snapshot.{field_names, with_field}

abbrev pub batch_rebuild_threshold : ℕ
batch_rebuild_threshold = 100

unfoldable pub validate_dimensions : CollectionConfig → List Point → Result (Unit {0})
validate_dimensions config [] = ok tt
validate_dimensions config (p ∷ ps) =
    validate_dimension config p.vector >>= λ _. validate_dimensions config ps

unfoldable pub validate_all_named : CollectionConfig → List Point → Result (Unit {0})
validate_all_named config [] = ok tt
validate_all_named config (p ∷ ps) =
    validate_point_named_vectors config p >>= λ _. validate_all_named config ps

unfoldable pub validate_each : CollectionConfig → List Point → Result (Unit {0})
validate_each config [] = ok tt
validate_each config (p ∷ ps) = validate_dimension config p.vector >>= λ _.
    validate_point_named_vectors config p >>= λ _. validate_each config ps

-- The first phase.
unfoldable pub validate_batch : CollectionConfig → List Point → Result (Unit {0})
unfolding validate_dimensions validate_all_named validate_each
validate_batch config ps =
    if ltb batch_rebuild_threshold (length ps)
    then (validate_dimensions config ps >>= λ _. validate_all_named config ps)
    else validate_each config ps

abbrev pub has_cosine : DistanceMetric → Bool
has_cosine cosine = true
has_cosine _ = false

unfoldable pub normalized : (Vector → Result Vector) → List Point → Result (List Point)
normalized normalize_vector [] = ok []
normalized normalize_vector (p ∷ ps) = normalize_vector p.vector >>= λ v.
    normalized normalize_vector ps >>= λ qs. ok (record p { vector = v } ∷ qs)

-- The second phase: the vectors of a large batch of a collection with the cosine distance.
unfoldable pub prepare_batch :
    (Vector → Result Vector) → CollectionConfig → List Point → Result (List Point)
unfolding normalized
prepare_batch normalize_vector config ps =
    if has_cosine config.distance
    then (if ltb batch_rebuild_threshold (length ps) then normalized normalize_vector ps else ok ps)
    else ok ps

module _ (b : Backend) where
  abbrev pub put_field :
      Text → Result (Unit {0}) × b.Index → Collection b → Result (Unit {0}) × Collection b
  put_field name (ok u, index) c =
      (ok tt, record c { vector_indices = Dict.insert name index c.vector_indices })
  put_field name (err e, index) c = (err e, c)

  -- The index of a vector field, built anew.
  unfoldable pub rebuild_field : List Point → Text → Exec (Collection b) (Unit {0})
  rebuild_field ps name c =
      let synthetic : List Point = with_field name ps in
      if is_empty synthetic
      then (ok tt, c)
      else put_field name (b.build synthetic (b.create_ann_index c.config)) c

  unfoldable pub add_to_indices : Point → Exec (Collection b) (Unit {0})
  add_to_indices p = on_index b (b.add_point p) >> each (add_named b p) (named_vectors p)

  unfoldable pub rebuild_all : List Point → Exec (Collection b) (Unit {0})
  unfolding rebuild_field
  rebuild_all all = on_index b (b.build all) >> each (rebuild_field all) (field_names all [])

  -- The third phase. A large batch builds the indices anew over the old points and the new ones.
  unfoldable pub index_batch : List Point → Exec (Collection b) (Unit {0})
  unfolding rebuild_all add_to_indices
  index_batch qs c =
      if ltb batch_rebuild_threshold (length qs)
      then rebuild_all (values c.points ++ qs) c
      else each add_to_indices qs c

  -- The fourth phase.
  unfoldable pub store_all : List Point → Collection b → Collection b
  unfolding store_text store_point
  store_all [] c = c
  store_all (p ∷ ps) c = store_all ps (store_point b p (store_text b p c))

  abbrev pub stored : List Point → Exec (Collection b) ℕ
  stored qs c = (ok (length qs), touched b (store_all qs c))

  abbrev pub indexed : Result (List Point) → Exec (Collection b) ℕ
  indexed (err e) c = (err e, c)
  indexed (ok qs) c = resume (index_batch qs c) (λ _. stored qs)

  abbrev pub validated :
      (Vector → Result Vector) → List Point → Result (Unit {0}) → Exec (Collection b) ℕ
  validated normalize_vector ps (err e) c = (err e, c)
  validated normalize_vector ps (ok u) c = indexed (prepare_batch normalize_vector c.config ps) c

  unfoldable pub insert_batch : (Vector → Result Vector) → List Point → Exec (Collection b) ℕ
  unfolding validate_batch prepare_batch index_batch store_all touched
  insert_batch normalize_vector ps c =
      if is_empty ps
      then (ok 0, c)
      else validated normalize_vector ps (validate_batch c.config ps) c
