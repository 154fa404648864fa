-- ===== src/Recovery/Replay.antt =====
-- The replay of a log of upserts and deletes against a description of it, key by key.
use ferres_db.Base.{
  ◌≡◌, refl, sym, ap, ◌∙◌, Bool, true, false, ◌&&◌, Option, none, some, List, [], ◌∷◌, arith, ◌||◌,
  if◌then◌else◌,
}
use ferres_db.Base.Text.{Text, text_eq}
use ferres_db.Base.Dict
use ferres_db.Base.Dict.{Dict, get-insert, get-remove, contains_key}
use ferres_db.Error.{Result, ok, err, is_ok}
use ferres_db.Exec.{Exec, resume, each}
use ferres_db.Point.{Point, Vector, storage_id}
use ferres_db.Backend.{Backend, CollectionConfig}
use ferres_db.Collection.{
  Collection, insert, validate_dimension, validate_point_named_vectors, named_vectors, on_index,
  add_named, synthetic_point_with_vector,
}
use ferres_db.Collection.Lookup.{insert-points, remove-points, insert-config, remove-config}
use ferres_db.Wal.Entry.{WalEntry, WalOperation, upsert, delete, link}
use ferres_db.Recovery.{apply, replay}

module _ (b : Backend) (accepts : Point → Bool) where
  -- An index that takes a point or not by the point alone.
  abbrev pub Accepts : Type 0
  Accepts = (p : Point) (i : b.Index) → is_ok (b.add_point p i).0 ≡ accepts p

  abbrev pub accepts_named : Point → Dict Vector → Bool
  accepts_named p [] = true
  accepts_named p ((name, v) ∷ vs) = accepts (synthetic_point_with_vector p v) && accepts_named p vs

  -- Whether an insertion succeeds.
  abbrev pub accepted : CollectionConfig → Point → Bool
  accepted config p =
      is_ok (validate_dimension config p.vector)
      && (is_ok (validate_point_named_vectors config p)
          && (accepts p && accepts_named p (named_vectors p)))

  resume-is_ok :
      {S : Type 0} (r : Result (Unit {0}) × S) (k : Unit {0} → Exec S (Unit {0})) (t : Bool)
      → is_ok (k tt r.1).0 ≡ t
      → is_ok (resume r k).0 ≡ is_ok r.0 && t
  resume-is_ok (ok tt, s) k t h = h
  resume-is_ok (err e, s) k t h = refl

  each-is_ok :
      (p : Point) (vs : Dict Vector) (c : Collection b)
      → Accepts
      → is_ok (each (add_named b p) vs c).0 ≡ accepts_named p vs
  unfolding each add_named
  each-is_ok p [] c law = refl
  each-is_ok p ((name, v) ∷ vs) c law =
      resume-is_ok (add_named b p (name, v) c) _ (accepts_named p vs) (each-is_ok p vs _ law)
      ∙ ap (λ t. t && accepts_named p vs) (law (synthetic_point_with_vector p v) _)

  insert-is_ok :
      (p : Point) (c : Collection b) → Accepts → is_ok (insert b p c).0 ≡ accepted c.config p
  unfolding insert
  insert-is_ok p c law =
      resume-is_ok (validate_dimension c.config p.vector, c) _ _
        (resume-is_ok (validate_point_named_vectors c.config p, c) _ _
          (resume-is_ok (on_index b (b.add_point p) c) _ _ (
            resume-is_ok (each (add_named b p) (named_vectors p) (on_index b (b.add_point p) c).1) _
              true refl)))
      ∙ ground (
        arith,
        law p c.index,
        each-is_ok p (named_vectors p) (on_index b (b.add_point p) c).1 law,
      )

  -- What one entry and a log do to the point under a key.
  abbrev pub after_one : CollectionConfig → Text → WalOperation → Option Point → Option Point
  after_one config k (upsert p) o =
      if accepted config p && text_eq (storage_id p) k then some p else o
  after_one config k (delete id) o = if text_eq id k then none else o
  after_one config k (link from to) o = o

  abbrev pub after : CollectionConfig → Text → List WalEntry → Option Point → Option Point
  after config k [] o = o
  after config k (e ∷ es) o = after config k es (after_one config k e.operation o)

  abbrev pub IsPlain : List WalEntry → Type 0
  IsPlain [] = Unit
  IsPlain (e ∷ es) = elim e.operation [ link from to ↦ ⊥ | _ ↦ Unit ] × IsPlain es

  abbrev IsPlainOp : WalOperation → Type 0
  IsPlainOp op = elim op [ link from to ↦ ⊥ | _ ↦ Unit ]

  apply_config :
      (op : WalOperation) (c : Collection b) → IsPlainOp op → (apply b op c).config ≡ c.config
  unfolding apply
  apply_config (upsert p) c h = insert-config b p c
  apply_config (delete id) c h = remove-config b id c
  apply_config (link from to) c h = elim h [ ]

  get-apply :
      (k : Text) (op : WalOperation) (c : Collection b)
      → Accepts
      → IsPlainOp op
      → Dict.get k (apply b op c).points ≡ after_one c.config k op (Dict.get k c.points)
  unfolding apply
  get-apply k (upsert p) c law h =
      ap (Dict.get k) (insert-points b p c).0
      ∙ ground (arith, insert-is_ok p c law, get-insert (storage_id p) k p c.points)
  get-apply k (delete id) c law h =
      ap (Dict.get k) (remove-points b id c).0 ∙ get-remove id k c.points
  get-apply k (link from to) c law h = elim h [ ]

  -- A replay of upserts and deletes gives every key the last point that was accepted under it, and
  -- none when a deletion is later.
  pub get-replay :
      (k : Text) (es : List WalEntry) (c : Collection b)
      → Accepts
      → IsPlain es
      → Dict.get k (replay b es c).points ≡ after c.config k es (Dict.get k c.points)
  unfolding replay
  get-replay k [] c law h = refl
  get-replay k (e ∷ es) c law (h, hs) =
      get-replay k es (apply b e.operation c) law hs
      ∙ ap (λ config. after config k es (Dict.get k (apply b e.operation c).points))
          (apply_config e.operation c h)
      ∙ ap (after c.config k es) (get-apply k e.operation c law h)

  abbrev settles_one : CollectionConfig → Text → WalOperation → Bool
  settles_one config k (upsert p) = accepted config p && text_eq (storage_id p) k
  settles_one config k (delete id) = text_eq id k
  settles_one config k (link from to) = false

  abbrev settles : CollectionConfig → Text → List WalEntry → Bool
  settles config k [] = false
  settles config k (e ∷ es) = settles config k es || settles_one config k e.operation

  after_one_settled :
      (config : CollectionConfig) (k : Text) (op : WalOperation) (o : Option Point)
      → after_one config k op o
        ≡ (if settles_one config k op then after_one config k op none else o)
  after_one_settled config k (upsert p) o = ground arith
  after_one_settled config k (delete id) o = ground arith
  after_one_settled config k (link from to) o = refl

  after_settled :
      (config : CollectionConfig) (k : Text) (es : List WalEntry) (o : Option Point)
      → after config k es o ≡ (if settles config k es then after config k es none else o)
  after_settled config k [] o = refl
  after_settled config k (e ∷ es) o = ground (
    arith,
    after_settled config k es (after_one config k e.operation o),
    after_settled config k es (after_one config k e.operation none),
    after_one_settled config k e.operation o,
  )

  pub replay_config :
      (es : List WalEntry) (c : Collection b) → IsPlain es → (replay b es c).config ≡ c.config
  unfolding replay
  replay_config [] c h = refl
  replay_config (e ∷ es) c (h, hs) =
      replay_config es (apply b e.operation c) hs ∙ apply_config e.operation c h

  -- A second replay of a log of upserts and deletes, without links, changes no point, if the index
  -- takes the same points whenever it is asked: after a crash between a snapshot and the truncation
  -- of such a log, whose entries the snapshot has already, the recovery finds the same points.
  pub replay_again :
      (k : Text) (es : List WalEntry) (c : Collection b)
      → Accepts
      → IsPlain es
      → Dict.get k (replay b es (replay b es c)).points ≡ Dict.get k (replay b es c).points
  replay_again k es c law h =
      get-replay k es (replay b es c) law h
      ∙ ap (λ config. after config k es (Dict.get k (replay b es c).points)) (replay_config es c h)
      ∙ ap (after c.config k es) (get-replay k es c law h)
      ∙ ground (
        arith,
        after_settled c.config k es (after c.config k es (Dict.get k c.points)),
        after_settled c.config k es (Dict.get k c.points),
      )
      ∙ sym (get-replay k es c law h)
