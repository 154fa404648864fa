-- ===== src/Collection/Lookup.antt =====
-- What the calls of a collection do to its points, key by key.
use ferres_db.Base.{
  ℕ, ◌+◌, ◌≡◌, refl, sym, ap, ◌∙◌, Bool, true, false, none, some, List, [], ◌∷◌, arith, inl, inr,
  Option-cases, if◌then◌else◌, any, ltb,
}
use ferres_db.Base.Text.{Text, text_eq, text_eq_iff}
use ferres_db.Base.Dict
use ferres_db.Base.Dict.{
  Dict, IsDistinct, get-insert, get-remove, remove-IsDistinct, remove_absent, contains_key, weigh,
  weigh-remove, weight,
}
use ferres_db.Error.{Result, ok, is_ok}
use ferres_db.Point.{Point, storage_id}
use ferres_db.Backend.{Backend}
use ferres_db.Collection.{
  Collection, store_text, store_point, touched, insert, remove, drop_point, remove_data_only,
}
use ferres_db.Collection.Insert.{Outcome, inserted, refused, insert-Outcome}
use ferres_db.Collection.Sweep.{
  delete_each, delete_points_batch, drop_all, vacuum_expired_points, touched_if, sort,
  insert_sorted, expired_ids, is_expired,
}

-- The membership test of a list of keys.
abbrev pub mentions : Text → List Text → Bool
mentions k ids = any (λ id. text_eq id k) ids

mentions-insert_sorted :
    (k id : Text) (ids : List Text) → mentions k (insert_sorted id ids) ≡ mentions k (id ∷ ids)
unfolding insert_sorted
mentions-insert_sorted k id [] = refl
mentions-insert_sorted k id (j ∷ ids) = ground (arith, mentions-insert_sorted k id ids)

pub mentions-sort : (k : Text) (ids : List Text) → mentions k (sort ids) ≡ mentions k ids
unfolding sort
mentions-sort k [] = refl
mentions-sort k (id ∷ ids) =
    ground (arith, mentions-insert_sorted k id (sort ids), mentions-sort k ids)

-- The keys of the expired points of a map whose keys are distinct.
pub mentions-expired_ids :
    (now : ℕ) (k : Text) (d : Dict Point)
    → IsDistinct d
    → mentions k (expired_ids now d)
      ≡ elim (Dict.get k d) [ none ↦ false | some p ↦ is_expired now p ]
unfolding expired_ids Dict.get
mentions-expired_ids now k [] h = refl
mentions-expired_ids now k ((j, p) ∷ d) h =
    ground (arith, text_eq_iff j k, mentions-expired_ids now k d)

module _ (b : Backend) where
  -- A successful insertion puts the point under its storage id, and nothing else changes; one that
  -- fails leaves the points and the dirty flag as they were.
  pub insert-points :
      (p : Point) (c : Collection b)
      → let r = insert b p c in
        (r.1.points ≡ (if is_ok r.0 then Dict.insert (storage_id p) p c.points else c.points))
        × (r.1.dirty ≡ (if is_ok r.0 then true else c.dirty))
  insert-points p c = ended (insert b p c) (insert-Outcome b p c)
    where
      ended :
          (r : Result (Unit {0}) × Collection b)
          → Outcome b p c r
          → (r.1.points ≡ (if is_ok r.0 then Dict.insert (storage_id p) p c.points else c.points))
            × (r.1.dirty ≡ (if is_ok r.0 then true else c.dirty))
      ended r (refused e h s) = rw h (s.same_points, s.same_dirty)
      ended r (inserted d h s e) = rw e (
          unfold touched store_point store_text in
          (ap (Dict.insert (storage_id p) p) s.same_points, refl))

  -- `remove` takes out exactly the point under the key, and says whether there was one.
  pub remove-points :
      (id : Text) (c : Collection b)
      → let r = remove b id c in
        (r.1.points ≡ Dict.remove id c.points) × (is_ok r.0 ≡ contains_key id c.points)
  unfolding remove drop_point touched
  remove-points id c = elim (Option-cases (Dict.get id c.points)) [
    | inl gone ↦ rw gone (sym (remove_absent id c.points gone), refl)
    | inr (p, there) ↦ rw there (refl, refl)
  ]

  pub insert-config : (p : Point) (c : Collection b) → (insert b p c).1.config ≡ c.config
  insert-config p c = kept (insert b p c) (insert-Outcome b p c)
    where
      kept : (r : Result (Unit {0}) × Collection b) → Outcome b p c r → r.1.config ≡ c.config
      kept r (refused e h s) = s.same_config
      kept r (inserted d h s e) = rw e (unfold touched store_point store_text in s.same_config)

  pub remove-config : (id : Text) (c : Collection b) → (remove b id c).1.config ≡ c.config
  unfolding remove drop_point touched
  remove-config id c = elim (Option-cases (Dict.get id c.points)) [
    | inl gone ↦ rw gone refl
    | inr (p, there) ↦ rw there refl
  ]

  pub remove_data_only-points :
      (id : Text) (c : Collection b)
      → ((remove_data_only b id c).1.points ≡ Dict.remove id c.points)
        × ((remove_data_only b id c).1.config ≡ c.config)
  unfolding remove_data_only touched
  remove_data_only-points id c = elim (Option-cases (Dict.get id c.points)) [
    | inl gone ↦ rw gone (sym (remove_absent id c.points gone), refl)
    | inr (p, there) ↦ rw there (refl, refl)
  ]

  get-drop_all :
      (ids : List Text) (k : Text) (c : Collection b)
      → Dict.get k (drop_all b ids c).points
        ≡ (if mentions k ids then none else Dict.get k c.points)
  unfolding drop_all drop_point
  get-drop_all [] k c = refl
  get-drop_all (id ∷ ids) k c =
      ground (arith, get-drop_all ids k (drop_point b id c), get-remove id k c.points)

  touched_if-points : (t : Bool) (c : Collection b) → (touched_if b t c).points ≡ c.points
  unfolding touched
  touched_if-points true c = refl
  touched_if-points false c = refl

  -- The vacuum takes out the points that expired before `now`, and no other.
  pub get-vacuum :
      (now : ℕ) (k : Text) (c : Collection b)
      → IsDistinct c.points
      → Dict.get k (vacuum_expired_points b now c).1.points ≡ elim (Dict.get k c.points) [
        | none ↦ none
        | some p ↦ if is_expired now p then none else some p
      ]
  unfolding vacuum_expired_points
  get-vacuum now k c h =
      ap (Dict.get k) (touched_if-points _ (drop_all b (expired_ids now c.points) c))
      ∙ get-drop_all (expired_ids now c.points) k c
      ∙ ground (arith, mentions-expired_ids now k c.points h)

  get-delete_each :
      (ids : List Text) (n : ℕ) (k : Text) (c : Collection b)
      → Dict.get k (delete_each b ids n c).1.points
        ≡ (if mentions k ids then none else Dict.get k c.points)
  unfolding delete_each drop_point
  get-delete_each [] n k c = refl
  get-delete_each (id ∷ ids) n k c = elim (Option-cases (Dict.get id c.points)) [
    | inl gone ↦
        rw (gone, delete_each) (get-delete_each ids n k c ∙ ground (arith, text_eq_iff id k))
    | inr (p, there) ↦
        rw (there, delete_each)
          (get-delete_each ids (n + 1) k (drop_point b id c)
            ∙ ground (arith, get-remove id k c.points))
  ]

  delete_each_count :
      (ids : List Text) (n : ℕ) (c : Collection b)
      → IsDistinct c.points
      → let r = delete_each b ids n c in
        r.0 + weigh (λ p. 1) r.1.points ≡ n + weigh (λ p. 1) c.points
  unfolding delete_each drop_point
  delete_each_count [] n c h = refl
  delete_each_count (id ∷ ids) n c h = elim (Option-cases (Dict.get id c.points)) [
    | inl gone ↦ rw (gone, delete_each) (delete_each_count ids n c h)
    | inr (p, there) ↦
        rw (there, delete_each)
          (delete_each_count ids (n + 1) (drop_point b id c) (remove-IsDistinct id c.points h)
            ∙ counted p there)
  ]
    where
      counted :
          (p : Point)
          → Dict.get id c.points ≡ some p
          → n + 1 + weigh (λ p. 1) (Dict.remove id c.points) ≡ n + weigh (λ p. 1) c.points
      counted p there = ground (arith, weigh-remove (λ p. 1) id c.points h)

  batch-points :
      (ids : List Text) (c : Collection b)
      → (delete_points_batch b ids c).1.points ≡ (delete_each b (sort ids) 0 c).1.points
  unfolding delete_points_batch
  batch-points ids c =
      touched_if-points (ltb 0 (delete_each b (sort ids) 0 c).0) (delete_each b (sort ids) 0 c).1

  -- The batch takes out the points whose keys are listed and no other, and returns how many it took.
  pub delete_points_batch-points :
      (ids : List Text) (c : Collection b)
      → IsDistinct c.points
      → (n : ℕ) × ((delete_points_batch b ids c).0 ≡ ok n)
        × (n + weigh (λ p. 1) (delete_points_batch b ids c).1.points ≡ weigh (λ p. 1) c.points)
        × ((k : Text)
            → Dict.get k (delete_points_batch b ids c).1.points
              ≡ (if mentions k ids then none else Dict.get k c.points))
  unfolding delete_points_batch
  delete_points_batch-points ids c h = (
    (delete_each b (sort ids) 0 c).0,
    refl,
    ap (λ ps. (delete_each b (sort ids) 0 c).0 + weigh (λ p. 1) ps) (batch-points ids c)
        ∙ delete_each_count (sort ids) 0 c h
        ∙ omega arith,
    λ k.
        ap (Dict.get k) (batch-points ids c)
        ∙ get-delete_each (sort ids) 0 k c
        ∙ ap (λ m. if m then none else Dict.get k c.points) (mentions-sort k ids),
  )
