-- ===== src/Collection/Batch/Points.antt =====
-- What a batch does to the points: all of it, or nothing.
use ferres_db.Base.{
  ℕ, ◌≡◌, refl, ap, ◌∙◌, true, false, List, [], ◌∷◌, ◌++◌, length, ltb, is_empty, if◌then◌else◌,
  inl, inr, Bool-cases,
}
use ferres_db.Base.Text.{Text}
use ferres_db.Base.Dict.{values}
use ferres_db.Error.{Result, ok, err, is_ok}
use ferres_db.Exec.{Exec, resume, each}
use ferres_db.Point.{Point, Vector}
use ferres_db.Backend.{Backend}
use ferres_db.Collection.{
  Collection, named_vectors, on_index, add_named, store_text, store_point, touched,
}
use ferres_db.Collection.Insert.{
  SameData, SameData-refl, SameData-trans, resume-SameData, each-add_named-SameData, index_only,
}
use ferres_db.Snapshot.{field_names, with_field, insert_all}
use ferres_db.Collection.Batch.{
  batch_rebuild_threshold, put_field, prepare_batch, rebuild_field, add_to_indices, rebuild_all,
  index_batch, store_all, stored, indexed, validated, validate_batch, insert_batch,
}

module _ (b : Backend) where
  each-SameData :
      {A : Type 0} (body : A → Exec (Collection b) (Unit {0})) (xs : List A) (c : Collection b)
      → ((x : A) (d : Collection b) → SameData b d (body x d).1)
      → SameData b c (each body xs c).1
  unfolding each
  each-SameData body [] c h = SameData-refl b c
  each-SameData body (x ∷ xs) c h =
      resume-SameData b c (body x c) (λ _. each body xs) (h x c)
        (λ d s. SameData-trans b s (each-SameData body xs d h))

  rebuild_field-SameData :
      (ps : List Point) (name : Text) (c : Collection b)
      → SameData b c (rebuild_field b ps name c).1
  unfolding rebuild_field
  rebuild_field-SameData ps name c = elim (Bool-cases (is_empty (with_field name ps))) [
    | inl nothing ↦ rw nothing (SameData-refl b c)
    | inr some_field ↦
        rw some_field (put (b.build (with_field name ps) (b.create_ann_index c.config)))
  ]
    where
      put : (r : Result (Unit {0}) × b.Index) → SameData b c (put_field b name r c).1
      put (ok u, index) = record {
        same_points = refl;
        same_config = refl;
        same_text = refl;
        same_dirty = refl;
      }
      put (err e, index) = SameData-refl b c

  add_to_indices-SameData : (p : Point) (c : Collection b) → SameData b c (add_to_indices b p c).1
  unfolding add_to_indices
  add_to_indices-SameData p c =
      resume-SameData b c (on_index b (b.add_point p) c)
        (λ _. each (add_named b p) (named_vectors p)) (index_only b p c)
        (λ d s. SameData-trans b s (each-add_named-SameData b p (named_vectors p) d))

  rebuild_all-SameData :
      (all : List Point) (c : Collection b) → SameData b c (rebuild_all b all c).1
  unfolding rebuild_all
  rebuild_all-SameData all c =
      resume-SameData b c (on_index b (b.build all) c)
        (λ _. each (rebuild_field b all) (field_names all []))
        (record { same_points = refl; same_config = refl; same_text = refl; same_dirty = refl })
        (λ d s.
          SameData-trans b s (
            each-SameData (rebuild_field b all) (field_names all []) d
              (rebuild_field-SameData all)))

  pub index_batch-SameData :
      (qs : List Point) (c : Collection b) → SameData b c (index_batch b qs c).1
  unfolding index_batch
  index_batch-SameData qs c = elim (Bool-cases (ltb batch_rebuild_threshold (length qs))) [
    | inl large ↦ rw large (rebuild_all-SameData (values c.points ++ qs) c)
    | inr small ↦ rw small (each-SameData (add_to_indices b) qs c add_to_indices-SameData)
  ]

  store_all-points :
      (qs : List Point) (c : Collection b) → (store_all b qs c).points ≡ insert_all qs c.points
  unfolding store_all insert_all store_text store_point
  store_all-points [] c = refl
  store_all-points (q ∷ qs) c = store_all-points qs _

  -- The points and the dirty flag behind a call, by its result.
  abbrev pub Ends : List Point → Collection b → Result ℕ × Collection b → Type 0
  Ends qs c r =
      (r.1.points ≡ (if is_ok r.0 then insert_all qs c.points else c.points))
      × (r.1.dirty ≡ (if is_ok r.0 then true else c.dirty))
      × (r.0 ≡ (if is_ok r.0 then ok (length qs) else r.0))

  pub indexed-Ends : (qs : List Point) (c : Collection b) → Ends qs c (indexed b (ok qs) c)
  unfolding touched
  indexed-Ends qs c = ended (index_batch b qs c) (index_batch-SameData qs c)
    where
      ended :
          (r : Result (Unit {0}) × Collection b)
          → SameData b c r.1
          → Ends qs c (resume r (λ _. stored b qs))
      ended (ok u, d) s = (store_all-points qs d ∙ ap (insert_all qs) s.same_points, refl, refl)
      ended (err e, d) s = (s.same_points, s.same_dirty, refl)

  -- A batch of points that is prepared stores all of them in order, counts them and makes the
  -- collection dirty, if the indices take them; else no point and no flag is changed.
  pub insert_batch-points :
      (normalize_vector : Vector → Result Vector) (ps qs : List Point) (c : Collection b)
      → is_empty ps ≡ false
      → prepare_batch normalize_vector c.config ps ≡ ok qs
      → Ends qs c (insert_batch b normalize_vector ps c)
  unfolding insert_batch
  insert_batch-points normalize_vector ps qs c given prepared =
      rw given (ended (validate_batch c.config ps))
    where
      ended : (r : Result (Unit {0})) → Ends qs c (validated b normalize_vector ps r c)
      ended (err e) = (refl, refl, refl)
      ended (ok u) = rw prepared (indexed-Ends qs c)
