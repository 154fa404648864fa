-- ===== src/Hnsw/Readded.antt =====
-- A point that is removed and added again, and a rebuild.
use ferres_db.Base.{
  ℕ, ◌≡◌, refl, ap, ◌∙◌, Bool, true, false, ◌&&◌, Option, List, [], ◌∷◌, length, ltb, arith,
  Bool-cases, inl, inr, All,
}
use ferres_db.Base.Text.{Text, text_eq, text_eq_iff, text_eq_refl}
use ferres_db.Base.Dict.{contains_key}
use ferres_db.Error.{Result, ok, err}
use ferres_db.Point.{Point, Vector}
use ferres_db.Backend.{Hit}
use ferres_db.Hnsw.{
  Graph, HnswIndex, contains, insert_id, add_point, add_all, then_add, put, enter, remove_point,
  search, normalize_all, insert_normalized, fill, cleared, is_cosine, build, prepare_vector,
}
use ferres_db.Hnsw.Live.{IsFiltering, IsLive, predicate_of, search-IsLive}

module _ (g : Graph) where
  put-tombstones :
      (n : ℕ) (r : Result Vector) (h : HnswIndex g) → (put g n r h).1.tombstones ≡ h.tombstones
  put-tombstones n (ok v) h = refl
  put-tombstones n (err e) h = refl

  add_point-tombstones :
      (p : Point) (h : HnswIndex g) → (add_point g p h).1.tombstones ≡ h.tombstones
  unfolding add_point
  add_point-tombstones p h = put-tombstones _ (prepare_vector g p.vector h.distance) (enter g _ h)

  then_add-tombstones :
      (r : Result (Unit {0}) × HnswIndex g) (f : HnswIndex g → Result (Unit {0}) × HnswIndex g)
      → ((f (r.1)).1.tombstones ≡ r.1.tombstones)
      → (then_add g r f).1.tombstones ≡ r.1.tombstones
  then_add-tombstones (ok u, h) f e = e
  then_add-tombstones (err x, h) f e = refl

  pub add_all-tombstones :
      (ps : List Point) (h : HnswIndex g) → (add_all g ps h).1.tombstones ≡ h.tombstones
  unfolding add_all
  add_all-tombstones [] h = refl
  add_all-tombstones (p ∷ ps) h =
      then_add-tombstones (add_point g p h) (add_all g ps) (add_all-tombstones ps _)
      ∙ add_point-tombstones p h

  insert_normalized-tombstones :
      (ps : List Point) (vs : List Vector) (h : HnswIndex g)
      → (insert_normalized g ps vs h).tombstones ≡ h.tombstones
  unfolding insert_normalized
  insert_normalized-tombstones [] vs h = refl
  insert_normalized-tombstones (p ∷ ps) [] h = refl
  insert_normalized-tombstones (p ∷ ps) (v ∷ vs) h = insert_normalized-tombstones ps vs _

  fill-tombstones :
      (ps : List Point) (r : Result (List Vector)) (h : HnswIndex g)
      → (fill g ps r h).1.tombstones ≡ h.tombstones
  fill-tombstones ps (ok vs) h = insert_normalized-tombstones ps vs h
  fill-tombstones ps (err e) h = refl

  -- After a rebuild, whether it fails or not, no id is marked as removed.
  pub build-tombstones : (ps : List Point) (h : HnswIndex g) → (build g ps h).1.tombstones ≡ []
  unfolding build
  build-tombstones ps h = elim (Bool-cases (is_cosine g h.distance && ltb 100 (length ps))) [
    | inl many ↦ rw many (fill-tombstones ps (normalize_all g ps) (cleared g h))
    | inr few ↦ rw few (add_all-tombstones ps (cleared g h))
  ]

  contains-insert_id : (id : Text) (ids : List Text) → contains id (insert_id id ids) ≡ true
  contains-insert_id id ids = ground (arith, text_eq_refl id)

  remove_point-tombstones :
      (id : Text) (h : HnswIndex g)
      → contains_key id h.reverse_map ≡ true
      → contains id (remove_point g id h).tombstones ≡ true
  unfolding remove_point
  remove_point-tombstones id h there = rw there (contains-insert_id id h.tombstones)

  dead_hits :
      (h : HnswIndex g) (f : Text → Bool) (id : Text) (hits : List Hit)
      → contains id h.tombstones ≡ true
      → All (IsLive g h f) hits
      → All (λ hit. text_eq (hit.0) id ≡ false) hits
  dead_hits h f id [] dead all = tt
  dead_hits h f id ((j, d) ∷ hits) dead ((found, live, passes), all) = (
    elim (Bool-cases (text_eq j id)) [
      | inl same ↦
          (let e : j ≡ id = (text_eq_iff j id).0 same in
            absurd (ground (arith, ap (λ k. contains k h.tombstones) e)))
      | inr other ↦ other
    ],
    dead_hits h f id hits dead all,
  )

  -- An id that the index knew and that was removed is in no later result, even when points are added
  -- under it again, until the index is rebuilt.
  pub search-readded :
      (h : HnswIndex g) (id : Text) (ps : List Point) (query : Vector) (k : ℕ)
      (f : Option (Text → Bool)) (hits : List Hit)
      → IsFiltering g
      → contains_key id h.reverse_map ≡ true
      → search g query k f (add_all g ps (remove_point g id h)).1 ≡ ok hits
      → All (λ hit. text_eq (hit.0) id ≡ false) hits
  search-readded h id ps query k f hits law there e =
      let h' : HnswIndex g = (add_all g ps (remove_point g id h)).1 in
      let dead : contains id h'.tombstones ≡ true =
        ap (contains id) (add_all-tombstones ps (remove_point g id h))
        ∙ remove_point-tombstones id h there in
      dead_hits h' (predicate_of f) id hits dead ((search-IsLive g h' query k f hits law e).0)
