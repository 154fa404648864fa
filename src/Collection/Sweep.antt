-- ===== src/Collection/Sweep.antt =====
-- The operations of a collection on many points at once, its auto-tuning, the swap of its index, and
-- the marks as dirty and clean.
use ferres_db.Base.{
  ℕ, ◌+◌, ◌-◌, ◌*◌, ◌/◌, Bool, true, false, ◌&&◌, none, some, List, [], ◌∷◌, ltb, ◌==◌,
  if◌then◌else◌, length, max, min,
}
use ferres_db.Base.Text.{Text}
use ferres_db.Base.Dict.{Dict, contains_key}
use ferres_db.Error.{Result, ok}
use ferres_db.Point.{Point}
use ferres_db.Backend.{Backend}
use ferres_db.Collection.{Collection, drop_point, touched}

-- `sort_unstable` of the ids, by code points.
unfoldable pub text_leb : Text → Text → Bool
text_leb [] t = true
text_leb (x ∷ s) [] = false
text_leb (x ∷ s) (y ∷ t) = if x == y then text_leb s t else ltb x y

unfoldable pub insert_sorted : Text → List Text → List Text
insert_sorted id [] = id ∷ []
insert_sorted id (j ∷ ids) = if text_leb id j then id ∷ j ∷ ids else j ∷ insert_sorted id ids

unfoldable pub sort : List Text → List Text
sort [] = []
sort (id ∷ ids) = insert_sorted id (sort ids)

abbrev pub is_expired : ℕ → Point → Bool
is_expired now p = elim p.expires_at [ none ↦ false | some e ↦ ltb e now ]

-- The keys of the expired points.
unfoldable pub expired_ids : ℕ → Dict Point → List Text
expired_ids now [] = []
expired_ids now ((id, p) ∷ rest) =
    if is_expired now p then id ∷ expired_ids now rest else expired_ids now rest

module _ (b : Backend) where
  -- The index of a background rebuild takes the place of the old one.
  unfoldable pub swap_index : b.Index → Collection b → Collection b
  unfolding touched
  swap_index new_index c = touched b (record c { index = new_index })

  unfoldable pub mark_dirty : Collection b → Collection b
  mark_dirty c = record c { dirty = true }

  unfoldable pub mark_clean : Collection b → Collection b
  mark_clean c = record c { dirty = false }

  -- The loop, with the number of points that it has deleted.
  unfoldable pub delete_each : List Text → ℕ → Collection b → ℕ × Collection b
  delete_each [] deleted c = (deleted, c)
  delete_each (id ∷ ids) deleted c =
      let there : Bool = contains_key id c.points in
      delete_each ids (if there then deleted + 1 else deleted)
        (if there then drop_point b id c else c)

  abbrev pub touched_if : Bool → Collection b → Collection b
  touched_if true c = touched b c
  touched_if false c = c

  unfoldable pub delete_points_batch : List Text → Collection b → Result ℕ × Collection b
  delete_points_batch ids c =
      let (deleted, d) = delete_each (sort ids) 0 c in (ok deleted, touched_if (ltb 0 deleted) d)

  unfoldable pub drop_all : List Text → Collection b → Collection b
  drop_all [] c = c
  drop_all (id ∷ ids) c = drop_all ids (drop_point b id c)

  unfoldable pub vacuum_expired_points : ℕ → Collection b → ℕ × Collection b
  vacuum_expired_points now c =
      let expired = expired_ids now c.points in
      (length expired, touched_if (ltb 0 (length expired)) (drop_all expired c))

  abbrev pub set_all_ef : ℕ → Dict b.Index → Dict b.Index
  set_all_ef v [] = []
  set_all_ef v ((name, index) ∷ rest) = (name, b.set_ef_search v index) ∷ set_all_ef v rest

  unfoldable pub set_hnsw_ef_search : ℕ → Collection b → Collection b
  set_hnsw_ef_search v c = record c {
    index = b.set_ef_search v c.index;
    vector_indices = set_all_ef v c.vector_indices;
  }

-- The new `ef` of `apply_hnsw_auto_tune`. `low` and `high` are the comparisons of the 95th
-- percentile with 10 and 50 milliseconds.
unfoldable pub tuned_ef : ℕ → ℕ → Bool → Bool → Bool → ℕ
tuned_ef base current low high recall_priority =
    let min_ef : ℕ = max (base / 2) 10 in
    let max_ef : ℕ = min (base * 2) 200 in
    if low && recall_priority && ltb current max_ef
    then min (current + 10) max_ef
    else if high && ltb min_ef current
    then max (current - 10) min_ef
    else current

module _ (b : Backend) where
  unfoldable pub apply_hnsw_auto_tune : Bool → Bool → Bool → Collection b → Collection b
  unfolding tuned_ef
  apply_hnsw_auto_tune low high recall_priority c =
      let current : ℕ = b.current_ef_search c.index in
      let new_ef : ℕ = tuned_ef c.config.ef_search current low high recall_priority in
      if new_ef == current then c else set_hnsw_ef_search b new_ef c
