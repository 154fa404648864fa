-- ===== src/Collection/Insert.antt =====
-- What an insertion does to the points, on success and on every error.
use ferres_db.Base.{◌≡◌, refl, ◌∙◌, [], ◌∷◌}
use ferres_db.Base.Text.{Text}
use ferres_db.Base.Dict.{Dict}
use ferres_db.Error.{FerresError, Result, ok, err}
use ferres_db.Exec.{Exec, resume, each}
use ferres_db.Point.{Point, Vector}
use ferres_db.Backend.{Backend}
use ferres_db.Collection.{
  Collection, validate_dimension, validate_point_named_vectors, named_vectors, on_index, add_named,
  store_text, store_point, touched, insert,
}

module _ (b : Backend) where
  -- Two states that differ in their vector indices only.
  pub record SameData (c d : Collection b) : Type 0 where
    pub same_points : d.points ≡ c.points
    pub same_config : d.config ≡ c.config
    pub same_text : d.bm25_index ≡ c.bm25_index
    pub same_dirty : d.dirty ≡ c.dirty

  pub SameData-refl : (c : Collection b) → SameData c c
  SameData-refl c = record {
    same_points = refl;
    same_config = refl;
    same_text = refl;
    same_dirty = refl;
  }

  pub SameData-trans : {c d e : Collection b} → SameData c d → SameData d e → SameData c e
  SameData-trans h k = record {
    same_points = k.same_points ∙ h.same_points;
    same_config = k.same_config ∙ h.same_config;
    same_text = k.same_text ∙ h.same_text;
    same_dirty = k.same_dirty ∙ h.same_dirty;
  }

  pub resume-SameData :
      (c : Collection b) (r : Result (Unit {0}) × Collection b)
      (k : Unit {0} → Exec (Collection b) (Unit {0}))
      → SameData c r.1
      → ((d : Collection b) → SameData c d → SameData c (k tt d).1)
      → SameData c (resume r k).1
  resume-SameData c (ok tt, d) k h next = next d h
  resume-SameData c (err e, d) k h next = h

  add_named-SameData :
      (p : Point) (nv : Text × Vector) (c : Collection b) → SameData c (add_named b p nv c).1
  unfolding add_named
  add_named-SameData p (name, v) c = record {
    same_points = refl;
    same_config = refl;
    same_text = refl;
    same_dirty = refl;
  }

  pub each-add_named-SameData :
      (p : Point) (vs : Dict Vector) (c : Collection b) → SameData c (each (add_named b p) vs c).1
  unfolding each
  each-add_named-SameData p [] c = SameData-refl c
  each-add_named-SameData p (nv ∷ vs) c =
      resume-SameData c (add_named b p nv c) (λ _. each (add_named b p) vs)
        (add_named-SameData p nv c) (λ d h. SameData-trans h (each-add_named-SameData p vs d))

  -- How an insertion ends.
  pub data Outcome (p : Point) (c : Collection b) (r : Result (Unit {0}) × Collection b)
      : Type 0 where
    refused : (e : FerresError) → r.0 ≡ err e → SameData c r.1 → Outcome p c r
    inserted :
        (d : Collection b)
        → validate_dimension c.config p.vector ≡ ok tt
        → SameData c d
        → r ≡ (ok tt, touched b (store_point b p (store_text b p d)))
        → Outcome p c r

  pub index_only : (p : Point) (c : Collection b) → SameData c (on_index b (b.add_point p) c).1
  index_only p c = record {
    same_points = refl;
    same_config = refl;
    same_text = refl;
    same_dirty = refl;
  }

  resume-Outcome :
      (p : Point) (c : Collection b) (r : Result (Unit {0}) × Collection b)
      (k : Unit {0} → Exec (Collection b) (Unit {0}))
      → SameData c r.1
      → (r.0 ≡ ok tt → Outcome p c (k tt r.1))
      → Outcome p c (resume r k)
  resume-Outcome p c (ok tt, d) k h next = next refl
  resume-Outcome p c (err e, d) k h next = refused e refl h

  pub insert-Outcome : (p : Point) (c : Collection b) → Outcome p c (insert b p c)
  unfolding insert
  insert-Outcome p c =
      resume-Outcome p c (validate_dimension c.config p.vector, c) _ (SameData-refl c)
        λ sized.
          resume-Outcome p c (validate_point_named_vectors c.config p, c) _ (SameData-refl c)
            λ named. resume-Outcome p c (on_index b (b.add_point p) c) _ (index_only p c) λ added.
              resume-Outcome p c
                (each (add_named b p) (named_vectors p) (on_index b (b.add_point p) c).1) _
                (SameData-trans (index_only p c)
                  (each-add_named-SameData p (named_vectors p) (on_index b (b.add_point p) c).1))
                λ all.
                  inserted
                    (each (add_named b p) (named_vectors p) (on_index b (b.add_point p) c).1).1
                    sized
                    (SameData-trans (index_only p c) (
                      each-add_named-SameData p (named_vectors p) (on_index b (b.add_point p) c).1))
                    refl
