-- ===== src/Reindex.antt =====
-- A rebuild of an index in the background (crates/core/src/reindex.rs): the new index, and the
-- delta that is applied to it.
use ferres_db.Base.{ℕ, ◌+◌, List, [], ◌∷◌, any, if◌then◌else◌}
use ferres_db.Base.Text.{Text, text_eq}
use ferres_db.Base.Dict
use ferres_db.Base.Dict.{Dict, contains_key}
use ferres_db.Error.{Result, ok, err}
use ferres_db.Point.{Point}
use ferres_db.Backend.{Backend, CollectionConfig}

module _ (b : Backend) where
  abbrev pub built : Result (Unit {0}) × b.Index → Result b.Index
  built (ok u, index) = ok index
  built (err e, index) = err e

  unfoldable pub build_new_index : CollectionConfig → List Point → Result b.Index
  build_new_index config ps = built (b.build ps (b.create_ann_index config))

  abbrev pub added_to :
      Result (Unit {0}) × b.Index → (b.Index → Result ℕ × b.Index) → Result ℕ × b.Index
  added_to (ok u, index) f = f index
  added_to (err e, index) f = (err e, index)

  -- The points that are not in the snapshot are added.
  unfoldable pub add_new : List Text → Dict Point → ℕ → b.Index → Result ℕ × b.Index
  add_new snapshot [] added index = (ok added, index)
  add_new snapshot ((id, p) ∷ rest) added index =
      let skip = add_new snapshot rest added index in
      let put = added_to (b.add_point p index) (add_new snapshot rest (added + 1)) in
      if any (λ s. text_eq s id) snapshot then skip else put

  -- The ids of the snapshot that are not in the collection are removed.
  unfoldable pub remove_gone : List Text → Dict Point → ℕ → b.Index → ℕ × b.Index
  remove_gone [] current removed index = (removed, index)
  remove_gone (id ∷ snapshot) current removed index =
      let keep_it = remove_gone snapshot current removed index in
      let drop_it = remove_gone snapshot current (removed + 1) (b.remove_point id index) in
      if contains_key id current then keep_it else drop_it

  abbrev pub then_remove : List Text → Dict Point → Result ℕ × b.Index → Result (ℕ × ℕ) × b.Index
  then_remove snapshot current (ok added, index) =
      let (removed, index') = remove_gone snapshot current 0 index in (ok (added, removed), index')
  then_remove snapshot current (err e, index) = (err e, index)

  unfoldable pub apply_delta : List Text → Dict Point → b.Index → Result (ℕ × ℕ) × b.Index
  unfolding add_new remove_gone
  apply_delta snapshot current index =
      then_remove snapshot current (add_new snapshot current 0 index)
