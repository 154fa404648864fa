-- ===== src/Collection/Keyed.antt =====
-- Every point of a collection stands under its own key and has the collection's dimension.
use ferres_db.Base.{
  ℕ, ◌+◌, ◌≡◌, refl, Bool, true, false, none, some, List, [], ◌∷◌, arith, length, inl, inr,
  Option-cases, Bool-cases,
}
use ferres_db.Base.Text.{Text, text_eq, text_eq_iff}
use ferres_db.Base.Dict
use ferres_db.Base.Dict.{
  Dict, IsDistinct, get-insert, get-remove, insert-IsDistinct, remove-IsDistinct, contains_key,
}
use ferres_db.Error.{FerresError, Result, ok, err, point_not_found, invalid_point_id}
use ferres_db.Point.{Point, storage_id}
use ferres_db.Backend.{Backend}
use ferres_db.Collection.{
  Collection, validate_dimension, store_text, store_point, touched, insert, remove, drop_point,
  remove_data_only, put_relations, add_relation, ensure_contains, find,
}
use ferres_db.Collection.Insert.{Outcome, inserted, insert-Outcome, SameData}
use ferres_db.Collection.Sweep.{delete_each, drop_all, touched_if}

keyed_as : (p q : Point) → q.namespace ≡ p.namespace → q.id ≡ p.id → storage_id q ≡ storage_id p
unfolding storage_id
keyed_as p q h k = rw (h, k)

module _ (b : Backend) where
  pub record IsKeyed (c : Collection b) : Type 0 where
    pub distinct : IsDistinct c.points
    pub keyed : (k : Text) (p : Point) → Dict.get k c.points ≡ some p → storage_id p ≡ k
    pub sized :
        (k : Text) (p : Point) → Dict.get k c.points ≡ some p → length p.vector ≡ c.config.dimension

  drop_point-IsKeyed : (id : Text) (c : Collection b) → IsKeyed c → IsKeyed (drop_point b id c)
  unfolding drop_point
  drop_point-IsKeyed id c v = record {
    distinct = remove-IsDistinct id c.points v.distinct;
    keyed = λ k p h. ground (arith, get-remove id k c.points, v.keyed k p);
    sized = λ k p h. ground (arith, get-remove id k c.points, v.sized k p);
  }

  pub touched-IsKeyed : (c : Collection b) → IsKeyed c → IsKeyed (touched b c)
  unfolding touched
  touched-IsKeyed c v = record { distinct = v.distinct; keyed = v.keyed; sized = v.sized }

  pub store-IsKeyed :
      (p : Point) (c d : Collection b)
      → validate_dimension c.config p.vector ≡ ok tt
      → SameData b c d
      → IsKeyed c
      → IsKeyed (store_point b p (store_text b p d))
  unfolding store_point store_text validate_dimension
  store-IsKeyed p c d h s v = record {
    distinct = rw (s.same_points) (insert-IsDistinct (storage_id p) p c.points v.distinct);
    keyed = λ k q e. ground (
      arith,
      s.same_points,
      get-insert (storage_id p) k p d.points,
      text_eq_iff (storage_id p) k,
      v.keyed k q,
    );
    sized = λ k q e.
        ground (
          arith,
          s.same_points,
          s.same_config,
          get-insert (storage_id p) k p d.points,
          v.sized k q,
        );
  }

  Outcome-IsKeyed :
      (p : Point) (c : Collection b) (r : Result (Unit {0}) × Collection b)
      → Outcome b p c r
      → IsKeyed c
      → IsKeyed r.1
  Outcome-IsKeyed p c r (Outcome.refused e h s) v = record {
    distinct = rw (s.same_points) v.distinct;
    keyed = λ k q e'. v.keyed k q (ground (arith, s.same_points));
    sized = λ k q e'. ground (arith, s.same_points, s.same_config, v.sized k q);
  }
  Outcome-IsKeyed p c r (inserted d h s e) v =
      rw e (touched-IsKeyed (store_point b p (store_text b p d)) (store-IsKeyed p c d h s v))

  -- An insertion keeps the points keyed, whether it succeeds or fails.
  pub insert-IsKeyed : (p : Point) (c : Collection b) → IsKeyed c → IsKeyed (insert b p c).1
  insert-IsKeyed p c v = Outcome-IsKeyed p c (insert b p c) (insert-Outcome b p c) v

  pub remove-IsKeyed : (id : Text) (c : Collection b) → IsKeyed c → IsKeyed (remove b id c).1
  unfolding remove
  remove-IsKeyed id c v = elim (Bool-cases (contains_key id c.points)) [
    | inl there ↦ rw there (touched-IsKeyed (drop_point b id c) (drop_point-IsKeyed id c v))
    | inr gone ↦ rw gone v
  ]

  -- The data of the map after a link, when both ends are there.
  link-IsKeyed :
      (from to : Text) (p q : Point) (c : Collection b)
      → Dict.get from c.points ≡ some p
      → Dict.get to c.points ≡ some q
      → IsKeyed c
      → IsKeyed (put_relations b from p to q c)
  unfolding put_relations
  link-IsKeyed from to p q c hp hq v =
      let p' : Point = record p { relations = some (ensure_contains to p.relations) } in
      let q' : Point = record q { relations = some (ensure_contains from q.relations) } in
      let points = Dict.insert from p' c.points in
      record {
        distinct = insert-IsDistinct to q' points (insert-IsDistinct from p' c.points v.distinct);
        keyed = λ k x e. ground (
          arith,
          get-insert to k q' points,
          get-insert from k p' c.points,
          text_eq_iff to k,
          text_eq_iff from k,
          keyed_as p p' refl refl,
          keyed_as q q' refl refl,
          v.keyed from p hp,
          v.keyed to q hq,
          v.keyed k x,
        );
        sized = λ k x e. ground (
          arith,
          get-insert to k q' points,
          get-insert from k p' c.points,
          v.sized from p hp,
          v.sized to q hq,
          v.sized k x,
        );
      }

  find_lem :
      (id : Text) (c : Collection b) (p : Point)
      → Dict.get id c.points ≡ some p
      → find b id c ≡ (ok p, c)
  find_lem id c p h = rw h

  find-none :
      (id : Text) (c : Collection b)
      → Dict.get id c.points ≡ none
      → find b id c ≡ (err (point_not_found id), c)
  find-none id c h = rw h

  -- How a link ends: an error and no change, or both points with the other's id.
  pub data LinkOutcome (from to : Text) (c : Collection b) (r : Result (Unit {0}) × Collection b)
      : Type 0 where
    refused : (e : FerresError) → r ≡ (err e, c) → LinkOutcome from to c r
    linked :
        (p q : Point)
        → text_eq from to ≡ false
        → Dict.get from c.points ≡ some p
        → Dict.get to c.points ≡ some q
        → r ≡ (ok tt, touched b (put_relations b from p to q c))
        → LinkOutcome from to c r

  pub add_relation-LinkOutcome :
      (from to : Text) (c : Collection b) → LinkOutcome from to c (add_relation b from to c)
  unfolding add_relation
  add_relation-LinkOutcome from to c = elim (Bool-cases (text_eq from to)) [
    | inl same ↦ refused (invalid_point_id []) (rw same)
    | inr other ↦ elim (Option-cases (Dict.get from c.points)) [
      | inl no_from ↦ refused (point_not_found from) (rw (other, no_from))
      | inr (p, hp) ↦ elim (Option-cases (Dict.get to c.points)) [
        | inl no_to ↦ refused (point_not_found to) (rw (other, hp, no_to))
        | inr (q, hq) ↦ linked p q other hp hq (rw (other, hp, hq))
      ]
    ]
  ]

  pub link_step-IsKeyed :
      (from to : Text) (c : Collection b) (r : Result (Unit {0}) × Collection b)
      → LinkOutcome from to c r
      → IsKeyed c
      → IsKeyed r.1
  link_step-IsKeyed from to c r (refused e h) v = rw h v
  link_step-IsKeyed from to c r (linked p q o hp hq h) v =
      rw h (touched-IsKeyed (put_relations b from p to q c) (link-IsKeyed from to p q c hp hq v))

  pub remove_data_only-IsKeyed :
      (id : Text) (c : Collection b) → IsKeyed c → IsKeyed (remove_data_only b id c).1
  unfolding remove_data_only touched
  remove_data_only-IsKeyed id c v = elim (Bool-cases (contains_key id c.points)) [
    | inl there ↦ rw there (record {
      distinct = remove-IsDistinct id c.points v.distinct;
      keyed = λ k p h. ground (arith, get-remove id k c.points, v.keyed k p);
      sized = λ k p h. ground (arith, get-remove id k c.points, v.sized k p);
    })
    | inr gone ↦ rw gone v
  ]

  pub delete_each-IsKeyed :
      (ids : List Text) (n : ℕ) (c : Collection b) → IsKeyed c → IsKeyed (delete_each b ids n c).1
  unfolding delete_each
  delete_each-IsKeyed [] n c v = v
  delete_each-IsKeyed (id ∷ ids) n c v = elim (Bool-cases (contains_key id c.points)) [
    | inl there ↦
        rw (there, delete_each)
          (delete_each-IsKeyed ids (n + 1) (drop_point b id c) (drop_point-IsKeyed id c v))
    | inr gone ↦ rw (gone, delete_each) (delete_each-IsKeyed ids n c v)
  ]

  pub drop_all-IsKeyed :
      (ids : List Text) (c : Collection b) → IsKeyed c → IsKeyed (drop_all b ids c)
  unfolding drop_all
  drop_all-IsKeyed [] c v = v
  drop_all-IsKeyed (id ∷ ids) c v =
      drop_all-IsKeyed ids (drop_point b id c) (drop_point-IsKeyed id c v)

  pub touched_if-IsKeyed : (t : Bool) (c : Collection b) → IsKeyed c → IsKeyed (touched_if b t c)
  touched_if-IsKeyed true c v = touched-IsKeyed c v
  touched_if-IsKeyed false c v = v
