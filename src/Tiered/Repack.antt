-- ===== src/Tiered/Repack.antt =====
-- `WarmStorage::compact` and `flush` (crates/core/src/tiered.rs), in calls of the file system that
-- succeed. `vectors` is the map of the active vectors in the order of its iteration.
use ferres_db.Base.{ℕ, ◌+◌, ◌*◌, none, some, [], ◌∷◌, ◌++◌, length}
use ferres_db.Base.Text.{Bytes}
use ferres_db.Base.Dict
use ferres_db.Base.Dict.{Dict}
use ferres_db.Point.{Vector}
use ferres_db.Tiered.Warm.{WarmStorage, vector_bytes, save_index, reload_mmap}

-- The bytes of the new file.
unfoldable pub all_bytes : Dict Vector → Bytes
unfolding vector_bytes
all_bytes [] = []
all_bytes ((id, v) ∷ vectors) = vector_bytes v ++ all_bytes vectors

-- The loop of `compact`.
unfoldable pub new_offsets : ℕ → Dict Vector → Dict ℕ → Dict ℕ
new_offsets offset [] offsets = offsets
new_offsets offset ((id, v) ∷ vectors) offsets =
    new_offsets (offset + length v * 4) vectors (Dict.insert id offset offsets)

unfoldable pub compact : Dict Vector → WarmStorage → WarmStorage
unfolding all_bytes new_offsets save_index reload_mmap
compact vectors w = reload_mmap (
    save_index
      (record w { vectors_file = some (all_bytes vectors); offsets = new_offsets 0 vectors [] }))

unfoldable pub flush : WarmStorage → WarmStorage
unfolding save_index reload_mmap
flush w = reload_mmap (save_index (record w { mmap = none }))
