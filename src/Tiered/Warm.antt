-- ===== src/Tiered/Warm.antt =====
-- `WarmStorage` (crates/core/src/tiered.rs): vectors in one file, an index of their offsets, and a
-- map of the file. The calls of the file system succeed.
use ferres_db.Base.{
  ℕ, ◌+◌, ◌*◌, Bool, ◌&&◌, ◌||◌, Option, none, some, [], ◌∷◌, ◌++◌, length, take, drop, max, ltb,
  leb, is_empty, if◌then◌else◌, unwrap_or,
}
use ferres_db.Base.Text.{Text, Bytes}
use ferres_db.Base.Dict
use ferres_db.Base.Dict.{Dict, contains_key}
use ferres_db.Error.{Result, ok, err, storage, no_offset, no_mmap, out_of_bounds}
use ferres_db.Point.{Vector}
use ferres_db.Wal.Entry.{to_le_bytes, from_le_bytes}

pub record WarmStorage : Type 0 where
  pub vectors_file : Option Bytes
  pub index_file : Option (Dict ℕ)
  pub mmap : Option Bytes
  pub offsets : Dict ℕ
  pub dimension : ℕ

unfoldable pub vector_bytes : Vector → Bytes
unfolding to_le_bytes
vector_bytes [] = []
vector_bytes (x ∷ v) = to_le_bytes x ++ vector_bytes v

-- `chunks_exact(4)`.
unfoldable pub bytes_vector : Bytes → Vector
unfolding from_le_bytes
bytes_vector (a ∷ b ∷ c ∷ d ∷ s) = from_le_bytes a b c d ∷ bytes_vector s
bytes_vector _ = []

-- `offsets.retain`.
unfoldable pub retain : ℕ → ℕ → Dict ℕ → Dict ℕ
retain width file_len [] = []
retain width file_len ((id, offset) ∷ rest) =
    let others = retain width file_len rest in
    if leb (offset + width) file_len then (id, offset) ∷ others else others

unfoldable pub max_end : ℕ → Dict ℕ → ℕ
max_end width [] = 0
max_end width ((id, offset) ∷ rest) = max (offset + width) (max_end width rest)

unfoldable pub save_index : WarmStorage → WarmStorage
save_index w = record w { index_file = some w.offsets }

abbrev pub mapped : Bytes → Option Bytes
mapped file = if is_empty file then none else some file

abbrev pub remapped : Bytes → Dict ℕ → WarmStorage → WarmStorage
remapped file kept w =
    let end : ℕ = max_end (w.dimension * 4) kept in
    let cut : Bool = ltb end (length file) && ltb 0 end in
    let lost : Bool = ltb (length kept) (length w.offsets) in
    let file' : Bytes = if cut then take end file else file in
    record w {
      vectors_file = some file';
      index_file = if lost || cut then some kept else w.index_file;
      mmap = mapped file';
      offsets = kept;
    }

-- Entries behind the end of the file are dropped, and bytes behind the last entry are cut off.
unfoldable pub reload_mmap : WarmStorage → WarmStorage
unfolding retain max_end
reload_mmap w = elim w.vectors_file [
  | none ↦ record w { mmap = none }
  | some file ↦ remapped file (retain (w.dimension * 4) (length file) w.offsets) w
]

unfoldable pub new : ℕ → Option Bytes → Option (Dict ℕ) → WarmStorage
unfolding reload_mmap
new dimension file index = reload_mmap (record {
  vectors_file = file;
  index_file = index;
  mmap = none;
  offsets = unwrap_or index [];
  dimension = dimension;
})

unfoldable pub add_vector : Text → Vector → WarmStorage → WarmStorage
unfolding vector_bytes save_index reload_mmap
add_vector id v w =
    let offset : ℕ = length w.offsets * w.dimension * 4 in
    reload_mmap (
      save_index (record w {
        vectors_file = some (unwrap_or w.vectors_file [] ++ vector_bytes v);
        offsets = Dict.insert id offset w.offsets;
      }))

abbrev pub read_at : ℕ → ℕ → Bytes → Result Vector
read_at offset width file =
    if ltb (length file) (offset + width)
    then err (storage out_of_bounds)
    else ok (bytes_vector (take width (drop offset file)))

abbrev pub read_slot : Option ℕ → Option Bytes → ℕ → Result Vector
read_slot none mmap width = err (storage no_offset)
read_slot (some offset) none width = err (storage no_mmap)
read_slot (some offset) (some file) width = read_at offset width file

unfoldable pub read_vector : Text → WarmStorage → Result Vector
unfolding bytes_vector
read_vector id w = read_slot (Dict.get id w.offsets) w.mmap (w.dimension * 4)

unfoldable pub remove_vector : Text → WarmStorage → WarmStorage
remove_vector id w = record w { offsets = Dict.remove id w.offsets }
