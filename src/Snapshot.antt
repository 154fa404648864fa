-- ===== src/Snapshot.antt =====
-- The snapshot of a collection on disk (`FileStorage` of crates/core/src/storage.rs, `from_points` of
-- crates/core/src/collection.rs). Serde_json, bincode and md5 are the functions of `Formats`. The
-- file `index.bin` is left out: what is read from it is logged and not used.
pub mod Save
pub mod RoundTrip
pub mod Stale
pub mod Whole
use ferres_db.Base.{
  ℕ, Bool, true, false, Option, none, some, List, [], ◌∷◌, ◌++◌, map, is_empty, is_some, any, keep,
  not, if◌then◌else◌, unwrap_or,
}
use ferres_db.Base.Text.{Text, Bytes, text_eq, trim}
use ferres_db.Base.Utf8.{as_bytes, from_utf8}
use ferres_db.Base.Dict
use ferres_db.Base.Dict.{Dict, values, keys}
use ferres_db.Error.{
  Result, ok, err, ok_or, ◌>>=◌, ◌>>◌, storage, wal_serialize, snapshot_failed, wal_not_utf8,
}
use ferres_db.Point
use ferres_db.Point.{Point, Vector, storage_id}
use ferres_db.Backend.{Backend, CollectionConfig}
use ferres_db.Collection
use ferres_db.Collection.{
  Collection, push_new, named_vectors, synthetic_point_with_vector, index_text,
}
use ferres_db.Wal.Read.{lines}

-- A directory of points: the root of a collection or one of its namespaces.
pub record PointsDir : Type 0 where
  pub points_bin : Option Bytes
  pub points_jsonl : Option Bytes
  pub checksum : Option Text

pub record CollectionDir : Type 0 where
  pub config : Option Text
  pub last_snapshot : Option ℕ
  pub root : PointsDir
  pub namespaces : Dict PointsDir

abbrev pub empty_dir : PointsDir
empty_dir = record { points_bin = none; points_jsonl = none; checksum = none }

-- A `PointBin` has the fields of a point, its metadata as JSON text.
pub record Formats : Type 0 where
  pub config_json : CollectionConfig → Option Text
  pub config_of_json : Text → Option CollectionConfig
  pub point_json : Point → Option Text
  pub point_of_json : Text → Option Point
  pub bincode : List Point → Option Bytes
  pub bincode_back : Bytes → Option (List Point)
  pub json_or_null : Text → Text
  pub md5 : Bytes → Text

-- `PointBin::into_point`.
unfoldable pub into_point : Formats → Point → Result Point
into_point fmt p = do
  q ← Point.new 0 p.id p.vector (fmt.json_or_null p.metadata)
  ok (record q {
    created_at = p.created_at;
    namespace = p.namespace;
    expires_at = p.expires_at;
    vectors = p.vectors;
    relations = p.relations;
  })

unfoldable pub into_points : Formats → List Point → Result (List Point)
into_points fmt [] = ok []
into_points fmt (p ∷ ps) = do q ← into_point fmt p; qs ← into_points fmt ps; ok (q ∷ qs)

-- The content of `points.jsonl`.
unfoldable pub jsonl_text : Formats → List Point → Result Text
jsonl_text fmt [] = ok []
jsonl_text fmt (p ∷ ps) = do
  line ← ok_or (fmt.point_json p) (storage wal_serialize)
  rest ← jsonl_text fmt ps
  ok (line ++ b'\n' ∷ rest)

unfoldable pub parse_lines : Formats → List Text → Result (List Point)
parse_lines fmt [] = ok []
parse_lines fmt (line ∷ rest) =
    let others = parse_lines fmt rest in
    if is_empty line
    then others
    else (ok_or (fmt.point_of_json line) (storage snapshot_failed) >>= λ p.
        others >>= λ ps. ok (p ∷ ps))

-- The content of the points file of either format.
unfoldable pub points_bytes : Formats → Bool → List Point → Result Bytes
unfolding jsonl_text
points_bytes fmt true ps = ok_or (fmt.bincode ps) (storage wal_serialize)
points_bytes fmt false ps = jsonl_text fmt ps >>= λ t. ok (as_bytes t)

-- The comparison with `checksum.md5`, where there is one.
abbrev pub verify : Formats → Option Text → Bytes → Result (Unit {0})
verify fmt none bytes = ok tt
verify fmt (some stored) bytes =
    if text_eq (trim stored) (fmt.md5 bytes) then ok tt else err (storage snapshot_failed)

abbrev pub load_jsonl : Formats → PointsDir → Option Bytes → Result (List Point)
load_jsonl fmt dir none = ok []
load_jsonl fmt dir (some bytes) = do
  content ← ok_or (from_utf8 bytes) (storage wal_not_utf8)
  verify fmt dir.checksum bytes
  parse_lines fmt (lines content)

abbrev pub load_bin : Formats → PointsDir → Option Bytes → Result (List Point)
load_bin fmt dir none = load_jsonl fmt dir dir.points_jsonl
load_bin fmt dir (some bytes) = do
  verify fmt dir.checksum bytes
  bin ← ok_or (fmt.bincode_back bytes) (storage snapshot_failed)
  into_points fmt bin

-- `points.bin` comes before `points.jsonl`.
unfoldable pub load_points_from_dir : Formats → PointsDir → Result (List Point)
unfolding into_points parse_lines
load_points_from_dir fmt dir = load_bin fmt dir dir.points_bin

unfoldable pub load_namespaces : Formats → Dict PointsDir → Result (List Point)
unfolding load_points_from_dir
load_namespaces fmt [] = ok []
load_namespaces fmt ((ns, dir) ∷ rest) = do
  ps ← load_points_from_dir fmt dir
  qs ← load_namespaces fmt rest
  ok (ps ++ qs)

unfoldable pub insert_all : List Point → Dict Point → Dict Point
insert_all [] d = d
insert_all (p ∷ ps) d = insert_all ps (Dict.insert (storage_id p) p d)

abbrev pub all_names : List Text → List Text → List Text
all_names [] acc = acc
all_names (n ∷ ns) acc = all_names ns (push_new n acc)

-- The names of the vector fields, each once.
abbrev pub field_names : List Point → List Text → List Text
field_names [] acc = acc
field_names (p ∷ ps) acc = field_names ps (all_names (keys (named_vectors p)) acc)

abbrev pub with_field : Text → List Point → List Point
with_field name [] = []
with_field name (p ∷ ps) =
    let rest = with_field name ps in
    elim (Dict.get name (named_vectors p)) [
      | none ↦ rest
      | some v ↦ synthetic_point_with_vector p v ∷ rest
    ]

module _ (b : Backend) where
  abbrev pub built : Result (Unit {0}) × b.Index → Result b.Index
  built (ok u, index) = ok index
  built (err e, index) = err e

  unfoldable pub build_fields : CollectionConfig → List Point → List Text → Result (Dict b.Index)
  build_fields config ps [] = ok []
  build_fields config ps (name ∷ names) = do
    index ← built (b.build (with_field name ps) (b.create_ann_index config))
    rest ← build_fields config ps names
    ok ((name, index) ∷ rest)

  abbrev pub index_texts : Collection b → List Point → Collection b
  index_texts c [] = c
  index_texts c (p ∷ ps) = index_texts (record c { bm25_index = index_text b c p c.bm25_index }) ps

  -- The collection of a configuration and a list of points.
  unfoldable pub from_points : CollectionConfig → List Point → Result (Collection b)
  unfolding insert_all build_fields
  from_points config ps = do
    index ← built (b.build ps (Collection.new b config).index)
    fields ← build_fields config ps (field_names ps [])
    ok (
        index_texts
          (record (Collection.new b config) {
            index = index;
            points = insert_all ps [];
            vector_indices = fields;
          })
          (values (insert_all ps [])))

  unfoldable pub load_collection : Formats → CollectionDir → Result (Collection b)
  unfolding load_points_from_dir load_namespaces from_points
  load_collection fmt dir = do
    t ← ok_or dir.config (storage snapshot_failed)
    config ← ok_or (fmt.config_of_json t) (storage snapshot_failed)
    ps ← load_points_from_dir fmt dir.root
    qs ← load_namespaces fmt dir.namespaces
    from_points config (ps ++ qs)
