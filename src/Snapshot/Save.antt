-- ===== src/Snapshot/Save.antt =====
-- Saving a collection: the files are written one after the other, and an error leaves the earlier
-- ones written.
use ferres_db.Base.{ℕ, Bool, true, false, Option, none, some, List, [], ◌∷◌, is_some, keep, not}
use ferres_db.Base.Text.{Text, Bytes, text_eq}
use ferres_db.Base.Dict
use ferres_db.Base.Dict.{Dict, values}
use ferres_db.Error.{ok_or, storage, wal_serialize}
use ferres_db.Exec.{Exec, ◌>>=◌, ◌>>◌, gets, modify, each}
use ferres_db.Point.{Point}
use ferres_db.Backend.{Backend}
use ferres_db.Collection.{Collection, push_new}
use ferres_db.Snapshot.{PointsDir, CollectionDir, Formats, empty_dir, points_bytes}

-- The first of the two files: the points.
unfoldable pub write_points : Bool → Bytes → PointsDir → PointsDir
write_points true bytes dir = record dir { points_bin = some bytes }
write_points false bytes dir = record dir { points_jsonl = some bytes }

-- The second: its checksum.
unfoldable pub write_checksum : Formats → Bytes → PointsDir → PointsDir
write_checksum fmt bytes dir = record dir { checksum = some (fmt.md5 bytes) }

unfoldable pub write_points_and_index : Formats → Bool → List Point → Exec PointsDir (Unit {0})
unfolding points_bytes write_points write_checksum
write_points_and_index fmt binary ps = do
  bytes ← gets (λ dir. points_bytes fmt binary ps)
  modify (write_points binary bytes)
  modify (write_checksum fmt bytes)

-- The write in the root and in the directory of a namespace, which is created when it is missing.
-- The code joins the namespace to a path. The map of directories stands for the names that are one
-- component of a path: one with '/' in it is a nested directory, which the load does not look into,
-- and '..' is the root; both are outside the model.
abbrev pub in_root : Exec PointsDir (Unit {0}) → Exec CollectionDir (Unit {0})
in_root m dir = let (r, root) = m dir.root in (r, record dir { root = root })

abbrev pub dir_or_new : Option PointsDir → PointsDir
dir_or_new none = empty_dir
dir_or_new (some dir) = dir

abbrev pub in_namespace : Text → Exec PointsDir (Unit {0}) → Exec CollectionDir (Unit {0})
in_namespace ns m dir =
    let (r, sub) = m (dir_or_new (Dict.get ns dir.namespaces)) in
    (r, record dir { namespaces = Dict.insert ns sub dir.namespaces })

-- The names of the namespaces, each once, and the points of one of them.
abbrev pub namespaces_of : List Point → List Text → List Text
namespaces_of [] acc = acc
namespaces_of (p ∷ ps) acc =
    namespaces_of ps (elim p.namespace [ none ↦ acc | some ns ↦ push_new ns acc ])

abbrev pub in_ns : Text → Point → Bool
in_ns ns p = elim p.namespace [ none ↦ false | some m ↦ text_eq m ns ]

abbrev pub save_namespace : Formats → Bool → List Point → Text → Exec CollectionDir (Unit {0})
save_namespace fmt binary ps ns =
    in_namespace ns (write_points_and_index fmt binary (keep (in_ns ns) ps))

-- The points, in one directory or one for each namespace.
unfoldable pub save_points : Formats → Bool → Bool → List Point → Exec CollectionDir (Unit {0})
unfolding write_points_and_index
save_points fmt binary false ps = in_root (write_points_and_index fmt binary ps)
save_points fmt binary true ps =
    in_root (write_points_and_index fmt binary (keep (λ p. not (is_some p.namespace)) ps))
    >> each (save_namespace fmt binary ps) (namespaces_of ps [])

module _ (b : Backend) where
  unfoldable pub save_collection :
      Formats → ℕ → Collection b → Bool → Bool → Exec CollectionDir (Unit {0})
  unfolding save_points
  save_collection fmt now c binary isolation = do
    t ← gets (λ dir. ok_or (fmt.config_json c.config) (storage wal_serialize))
    modify (λ dir. record dir { config = some t })
    modify (λ dir. record dir { last_snapshot = some now })
    save_points fmt binary isolation (values c.points)
