-- ===== src/Collection/Dirty.antt =====
-- The dirty flag: whatever changes the points sets it.
use ferres_db.Base.{
  ℕ, ◌+◌, ◌<◌, ◌≡◌, refl, ap, ◌∙◌, Bool, true, false, List, [], ◌∷◌, arith, length, ◌⊎◌, inl, inr,
  Bool-cases, ltb, is_empty,
}
use ferres_db.Base.Text.{Text}
use ferres_db.Base.Dict.{Dict, contains_key}
use ferres_db.Error.{Result, ok, err, is_ok}
use ferres_db.Point.{Point, Vector}
use ferres_db.Backend.{Backend}
use ferres_db.Collection.{
  Collection, touched, insert, remove, drop_point, remove_data_only, put_relations, add_relation,
  tombstone_in_index,
}
use ferres_db.Collection.Keyed.{LinkOutcome, refused, linked, add_relation-LinkOutcome}
use ferres_db.Collection.Batch.{prepare_batch, insert_batch, indexed, validated, validate_batch}
use ferres_db.Collection.Batch.Points.{Ends, indexed-Ends}
use ferres_db.Collection.Runs.{
  Call, inserts, batches, removes, removes_data, tombstones, links, deletes, vacuums, swaps,
  dirties, cleans, step, run,
}
use ferres_db.Collection.Lookup.{insert-points}
use ferres_db.Collection.Sweep.{
  swap_index, mark_dirty, mark_clean, delete_each, delete_points_batch, drop_all,
  vacuum_expired_points, touched_if, sort, expired_ids,
}

module _ (b : Backend) where
  -- The later state is dirty, or has the points and the flag of the earlier one.
  abbrev pub Flagged : Collection b → Collection b → Type 0
  Flagged c d = (d.dirty ≡ true) ⊎ ((d.points ≡ c.points) × (d.dirty ≡ c.dirty))

  touched_dirty : (c : Collection b) → (touched b c).dirty ≡ true
  unfolding touched
  touched_dirty c = refl

  insert-Flagged : (p : Point) (c : Collection b) → Flagged c (insert b p c).1
  insert-Flagged p c =
      let (points, dirty) = insert-points b p c in
      elim (Bool-cases (is_ok (insert b p c).0)) [
        | inl done ↦ inl (dirty ∙ rw done refl)
        | inr failed ↦ inr (points ∙ rw failed refl, dirty ∙ rw failed refl)
      ]

  remove-Flagged : (id : Text) (c : Collection b) → Flagged c (remove b id c).1
  unfolding remove
  remove-Flagged id c = elim (Bool-cases (contains_key id c.points)) [
    | inl there ↦ inl (rw there (touched_dirty (drop_point b id c)))
    | inr gone ↦ inr (rw gone (refl, refl))
  ]

  remove_data_only-Flagged : (id : Text) (c : Collection b) → Flagged c (remove_data_only b id c).1
  unfolding remove_data_only touched
  remove_data_only-Flagged id c = elim (Bool-cases (contains_key id c.points)) [
    | inl there ↦ inl (rw there refl)
    | inr gone ↦ inr (rw gone (refl, refl))
  ]

  link-Flagged :
      (from to : Text) (c : Collection b) (r : Result (Unit {0}) × Collection b)
      → LinkOutcome b from to c r
      → Flagged c r.1
  link-Flagged from to c r (refused e h) = inr (rw h (refl, refl))
  link-Flagged from to c r (linked p q o hp hq h) =
      inl (rw h (touched_dirty (put_relations b from p to q c)))

  -- A loop that has deleted nothing has left the collection alone.
  delete_each-Flagged :
      (ids : List Text) (n : ℕ) (c : Collection b)
      → (n < (delete_each b ids n c).0) ⊎ (delete_each b ids n c ≡ (n, c))
  unfolding delete_each
  delete_each-Flagged [] n c = inr refl
  delete_each-Flagged (id ∷ ids) n c = elim (Bool-cases (contains_key id c.points)) [
    | inl there ↦
        inl
          (rw (there, delete_each) (more _ _ (delete_each-Flagged ids (n + 1) (drop_point b id c))))
    | inr gone ↦ rw (gone, delete_each) (delete_each-Flagged ids n c)
  ]
    where
      more : (d : Collection b) (r : ℕ × Collection b) → (n + 1 < r.0) ⊎ (r ≡ (n + 1, d)) → n < r.0
      more d r (inl h) = omega arith
      more d r (inr h) = rw h (omega arith)

  touched_if-Flagged :
      (t : Bool) (c d : Collection b) → (t ≡ false → d ≡ c) → Flagged c (touched_if b t d)
  touched_if-Flagged true c d h = inl (touched_dirty d)
  touched_if-Flagged false c d h = inr (ap (λ e. e.points) (h refl), ap (λ e. e.dirty) (h refl))

  delete_batch-Flagged :
      (ids : List Text) (c : Collection b) → Flagged c (delete_points_batch b ids c).1
  unfolding delete_points_batch
  delete_batch-Flagged ids c =
      touched_if-Flagged (ltb 0 (delete_each b (sort ids) 0 c).0) c (delete_each b (sort ids) 0 c).1
        λ none_gone. elim (delete_each-Flagged (sort ids) 0 c) [
          | inl some_gone ↦ ground arith
          | inr same ↦ ap (λ r. r.1) same
        ]

  vacuum-Flagged : (now : ℕ) (c : Collection b) → Flagged c (vacuum_expired_points b now c).1
  unfolding vacuum_expired_points drop_all
  vacuum-Flagged now c =
      touched_if-Flagged (ltb 0 (length (expired_ids now c.points))) c
        (drop_all b (expired_ids now c.points) c) (none_expired (expired_ids now c.points))
    where
      none_expired : (ids : List Text) → ltb 0 (length ids) ≡ false → drop_all b ids c ≡ c
      none_expired [] h = refl
      none_expired (id ∷ ids) h = ground arith

  Ends-Flagged :
      (qs : List Point) (c : Collection b) (r : Result ℕ × Collection b)
      → Ends b qs c r
      → Flagged c r.1
  Ends-Flagged qs c (ok n, d) (points, dirty, counted) = inl dirty
  Ends-Flagged qs c (err e, d) (points, dirty, counted) = inr (points, dirty)

  insert_batch-Flagged :
      (normalize_vector : Vector → Result Vector) (ps : List Point) (c : Collection b)
      → Flagged c (insert_batch b normalize_vector ps c).1
  unfolding insert_batch
  insert_batch-Flagged normalize_vector ps c = elim (Bool-cases (is_empty ps)) [
    | inl nothing ↦ inr (rw nothing (refl, refl))
    | inr given ↦ rw given (by_result (validate_batch c.config ps))
  ]
    where
      prepared : (r : Result (List Point)) → Flagged c (indexed b r c).1
      prepared (err e) = inr (refl, refl)
      prepared (ok qs) = Ends-Flagged qs c (indexed b (ok qs) c) (indexed-Ends b qs c)

      by_result : (r : Result (Unit {0})) → Flagged c (validated b normalize_vector ps r c).1
      by_result (err e) = inr (refl, refl)
      by_result (ok u) = prepared (prepare_batch normalize_vector c.config ps)

  -- The points at the last mark of a run, or those that are given.
  abbrev pub at_mark : Dict Point → Collection b → Call b → Dict Point
  at_mark points c cleans = c.points
  at_mark points c _ = points

  module _ (normalize_vector : Vector → Result Vector) where
    abbrev pub last_marked : Dict Point → Collection b → List (Call b) → Dict Point
    last_marked points c [] = points
    last_marked points c (call ∷ calls) =
        last_marked (at_mark points c call) (step b normalize_vector c call) calls

    -- A collection that is clean has the given points.
    abbrev IsMarked : Dict Point → Collection b → Type 0
    IsMarked points c = (c.dirty ≡ true) ⊎ (c.points ≡ points)

    marked :
        (points : Dict Point) (c d : Collection b)
        → Flagged c d
        → IsMarked points c
        → IsMarked points d
    marked points c d (inl dirty) h = inl dirty
    marked points c d (inr (same, flag)) (inl dirty) = inl (flag ∙ dirty)
    marked points c d (inr (same, flag)) (inr h) = inr (same ∙ h)

    step-IsMarked :
        (points : Dict Point) (c : Collection b) (call : Call b)
        → IsMarked points c
        → IsMarked (at_mark points c call) (step b normalize_vector c call)
    unfolding swap_index mark_dirty mark_clean tombstone_in_index
    step-IsMarked points c (inserts p) = marked points c (insert b p c).1 (insert-Flagged p c)
    step-IsMarked points c (batches ps) =
        marked points c (insert_batch b normalize_vector ps c).1
          (insert_batch-Flagged normalize_vector ps c)
    step-IsMarked points c (removes id) = marked points c (remove b id c).1 (remove-Flagged id c)
    step-IsMarked points c (removes_data id) =
        marked points c (remove_data_only b id c).1 (remove_data_only-Flagged id c)
    step-IsMarked points c (links from to) =
        marked points c (add_relation b from to c).1
          (link-Flagged from to c (add_relation b from to c) (add_relation-LinkOutcome b from to c))
    step-IsMarked points c (deletes ids) =
        marked points c (delete_points_batch b ids c).1 (delete_batch-Flagged ids c)
    step-IsMarked points c (vacuums now) =
        marked points c (vacuum_expired_points b now c).1 (vacuum-Flagged now c)
    step-IsMarked points c (swaps new_index) =
        λ h. inl (touched_dirty (record c { index = new_index }))
    step-IsMarked points c (tombstones id) = λ h. h
    step-IsMarked points c dirties = λ h. inl refl
    step-IsMarked points c cleans = λ h. inr refl

    run-IsMarked :
        (points : Dict Point) (c : Collection b) (calls : List (Call b))
        → IsMarked points c
        → IsMarked (last_marked points c calls) (run b normalize_vector c calls)
    run-IsMarked points c [] h = h
    run-IsMarked points c (call ∷ calls) h =
        run-IsMarked (at_mark points c call) (step b normalize_vector c call) calls
          (step-IsMarked points c call h)

    -- Whatever insertions, batches, removals, links, vacuums, tombstones, swaps of the index, and
    -- marks as dirty or clean are made, failing or not: a collection that is not dirty behind them
    -- has the points that it had when it was last marked as clean, or those of the start where it was
    -- not.
    pub run-dirty :
        (c : Collection b) (calls : List (Call b))
        → (run b normalize_vector c calls).dirty ≡ false
        → (run b normalize_vector c calls).points ≡ last_marked c.points c calls
    run-dirty c calls clean = elim (run-IsMarked c.points c calls (inr refl)) [
      | inl dirty ↦ cc
      | inr points ↦ points
    ]
