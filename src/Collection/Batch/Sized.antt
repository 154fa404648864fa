-- ===== src/Collection/Batch/Sized.antt =====
-- What a batch stores has passed the validation, so that it keeps the points keyed and sized.
use ferres_db.Base.{
  ◌≡◌, refl, sym, subst, List, [], ◌∷◌, arith, All, length, ltb, is_empty, inl, inr, Bool-cases,
}
use ferres_db.Error.{Result, ok, err, Result-cases, ◌>>=◌}
use ferres_db.Exec.{resume}
use ferres_db.Point.{Point, Vector}
use ferres_db.Backend.{Backend, CollectionConfig}
use ferres_db.Collection.{
  Collection, validate_dimension, validate_point_named_vectors, store_text, store_point,
}
use ferres_db.Collection.Insert.{SameData, SameData-refl}
use ferres_db.Collection.Batch.{
  batch_rebuild_threshold, has_cosine, validate_dimensions, validate_all_named, validate_each,
  validate_batch, normalized, prepare_batch, index_batch, store_all, stored, indexed, validated,
  insert_batch,
}
use ferres_db.Collection.Batch.Points.{index_batch-SameData}
use ferres_db.Collection.Keyed.{IsKeyed, touched-IsKeyed, store-IsKeyed}

-- The normalization keeps the length of a vector.
abbrev pub KeepsLength : (Vector → Result Vector) → Type 0
KeepsLength normalize_vector = (v w : Vector) → normalize_vector v ≡ ok w → length w ≡ length v

abbrev pub IsSized : CollectionConfig → Point → Type 0
IsSized config p = validate_dimension config p.vector ≡ ok tt

then-ok :
    {B : Type 0} {y : B} (r : Result (Unit {0})) (f : Unit {0} → Result B)
    → (r >>= f) ≡ ok y
    → (r ≡ ok tt) × (f tt ≡ ok y)
then-ok (ok u) f h = (refl, h)
then-ok (err e) f h = absurd (ground arith)

ok_lem : {B : Type 0} {x y : B} → ok x ≡ ok y → x ≡ y
ok_lem e = cc

validate_dimensions-All :
    (config : CollectionConfig) (ps : List Point)
    → validate_dimensions config ps ≡ ok tt
    → All (IsSized config) ps
unfolding validate_dimensions
validate_dimensions-All config [] h = tt
validate_dimensions-All config (p ∷ ps) h =
    let (sized, rest) =
      then-ok (validate_dimension config p.vector) (λ u. validate_dimensions config ps) h in
    (sized, validate_dimensions-All config ps rest)

validate_each-All :
    (config : CollectionConfig) (ps : List Point)
    → validate_each config ps ≡ ok tt
    → All (IsSized config) ps
unfolding validate_each
validate_each-All config [] h = tt
validate_each-All config (p ∷ ps) h =
    let (sized, named) =
      then-ok (validate_dimension config p.vector)
        (λ u. validate_point_named_vectors config p >>= λ u. validate_each config ps) h in
    let (valid, rest) =
      then-ok (validate_point_named_vectors config p) (λ u. validate_each config ps) named in
    (sized, validate_each-All config ps rest)

validate_batch-All :
    (config : CollectionConfig) (ps : List Point)
    → validate_batch config ps ≡ ok tt
    → All (IsSized config) ps
unfolding validate_batch
validate_batch-All config ps h = elim (Bool-cases (ltb batch_rebuild_threshold (length ps))) [
  | inl large ↦
      validate_dimensions-All config ps
        (then-ok (validate_dimensions config ps) (λ u. validate_all_named config ps)
          (rw large at h)).0
  | inr small ↦ validate_each-All config ps (rw small at h)
]

module _ (normalize_vector : Vector → Result Vector) (keeps : KeepsLength normalize_vector) where
  normalized-All :
      (config : CollectionConfig) (ps qs : List Point)
      → All (IsSized config) ps
      → normalized normalize_vector ps ≡ ok qs
      → All (IsSized config) qs
  unfolding normalized validate_dimension
  normalized-All config [] [] sized h = tt
  normalized-All config [] (q ∷ qs) sized h = absurd (ground arith)
  normalized-All config (p ∷ ps) qs (sized, rest) h =
      elim (Result-cases (normalize_vector p.vector)) [
        | inr (e, failed) ↦ absurd (ground arith)
        | inl (v, done) ↦ elim (Result-cases (normalized normalize_vector ps)) [
          | inr (e, failed) ↦ absurd (ground arith)
          | inl (qs', others) ↦
              subst (All (IsSized config)) (ok_lem (rw (done, others) at h))
                (rw (keeps p.vector v done) sized, normalized-All config ps qs' rest others)
        ]
      ]

  prepare_batch-All :
      (config : CollectionConfig) (ps qs : List Point)
      → All (IsSized config) ps
      → prepare_batch normalize_vector config ps ≡ ok qs
      → All (IsSized config) qs
  unfolding prepare_batch
  prepare_batch-All config ps qs sized h = elim (Bool-cases (has_cosine config.distance)) [
    | inr other ↦ subst (All (IsSized config)) (ok_lem (rw other at h)) sized
    | inl cosine ↦ elim (Bool-cases (ltb batch_rebuild_threshold (length ps))) [
      | inl large ↦ normalized-All config ps qs sized (rw (cosine, large) at h)
      | inr small ↦ subst (All (IsSized config)) (ok_lem (rw (cosine, small) at h)) sized
    ]
  ]

module _ (b : Backend) where
  SameData-IsKeyed : (c d : Collection b) → SameData b c d → IsKeyed b c → IsKeyed b d
  SameData-IsKeyed c d s v = record {
    distinct = rw s.same_points v.distinct;
    keyed = λ k q e. v.keyed k q (ground (arith, s.same_points));
    sized = λ k q e. ground (arith, s.same_points, s.same_config, v.sized k q);
  }

  store_all-IsKeyed :
      (qs : List Point) (c : Collection b)
      → All (IsSized c.config) qs
      → IsKeyed b c
      → IsKeyed b (store_all b qs c)
  unfolding store_all
  store_all-IsKeyed [] c sized v = v
  store_all-IsKeyed (q ∷ qs) c (h, hs) v =
      store_all-IsKeyed qs (store_point b q (store_text b q c))
        (unfold store_point store_text in hs) (store-IsKeyed b q c c h (SameData-refl b c) v)

  pub insert_batch-IsKeyed :
      (normalize_vector : Vector → Result Vector) (ps : List Point) (c : Collection b)
      → KeepsLength normalize_vector
      → IsKeyed b c
      → IsKeyed b (insert_batch b normalize_vector ps c).1
  unfolding insert_batch
  insert_batch-IsKeyed normalize_vector ps c keeps v = elim (Bool-cases (is_empty ps)) [
    | inl nothing ↦ rw nothing v
    | inr given ↦ rw given (by_result (validate_batch c.config ps) refl)
  ]
    where
      ended :
          (qs : List Point)
          → All (IsSized c.config) qs
          → (r : Result (Unit {0}) × Collection b) → SameData b c r.1
          → IsKeyed b (resume r (λ _. stored b qs)).1
      ended qs sized (err e, d) s = SameData-IsKeyed c d s v
      ended qs sized (ok u, d) s = touched-IsKeyed b (store_all b qs d) (
          store_all-IsKeyed qs d
            (subst (λ config. All (IsSized config) qs) (sym s.same_config) sized)
            (SameData-IsKeyed c d s v))

      prepared :
          All (IsSized c.config) ps
          → (r : Result (List Point)) → prepare_batch normalize_vector c.config ps ≡ r
          → IsKeyed b (indexed b r c).1
      prepared sized (err e) h = v
      prepared sized (ok qs) h =
          ended qs (prepare_batch-All normalize_vector keeps c.config ps qs sized h)
            (index_batch b qs c) (index_batch-SameData b qs c)

      by_result :
          (r : Result (Unit {0}))
          → validate_batch c.config ps ≡ r
          → IsKeyed b (validated b normalize_vector ps r c).1
      by_result (err e) h = v
      by_result (ok u) h =
          prepared (validate_batch-All c.config ps h) (prepare_batch normalize_vector c.config ps)
            refl
