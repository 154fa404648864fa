-- ===== src/Collection/Connected.antt =====
-- `Collection::search_connected` (crates/core/src/collection.rs): the points near a center in the
-- graph of relations, by their distance to a query.
use ferres_db.Base.{
  ℕ, zero, suc, ◌+◌, ◌≤◌, ◌≡◌, refl, sym, ap, ◌∙◌, true, Option, none, some, List, [], ◌∷◌, arith,
  length, take, if◌then◌else◌, Bool-cases, inl, inr, All,
}
use ferres_db.Base.Text.{Text, text_eq, text_eq_refl}
use ferres_db.Base.Dict
use ferres_db.Error.{Result, ok, err}
use ferres_db.Point.{Point, Vector, storage_id}
use ferres_db.Backend.{Backend, Hit}
use ferres_db.Collection.{Collection, validate_dimension}
use ferres_db.Collection.Keyed.{IsKeyed}
use ferres_db.Collection.Search.{insert_scored, sort_scored}
use ferres_db.Graph.{seen, traverse_bfs}
use ferres_db.Graph.Levels.{ids_of, Walk}
use ferres_db.Graph.Ends.{traverse_bfs_ends}
use ferres_db.Graph.Reached.{traverse_bfs-Walk}

module _ (b : Backend) where
  abbrev pub scored_points : Collection b → Vector → List Point → List Hit
  scored_points c query [] = []
  scored_points c query (p ∷ ps) =
      (storage_id p, b.distance_between c.config.distance query p.vector) ∷ scored_points c query ps

  -- `none` only when the fuel of the search is out.
  abbrev pub nearest :
      Vector → ℕ → Collection b → Option (Result (List Point)) → Option (Result (List Hit))
  nearest query k c none = none
  nearest query k c (some (err e)) = some (err e)
  nearest query k c (some (ok ps)) = some (ok (take k (sort_scored b (scored_points c query ps))))

  abbrev pub connected :
      Vector → Text → ℕ → ℕ → Collection b → Result (Unit {0}) → Option (Result (List Hit))
  connected query center hops k c (err e) = some (err e)
  connected query center hops k c (ok u) =
      nearest query k c
        (traverse_bfs (λ id. Dict.get id c.points) (length c.points + 1) center hops)

  unfoldable pub search_connected :
      Vector → Text → ℕ → ℕ → Collection b → Option (Result (List Hit))
  unfolding traverse_bfs sort_scored
  search_connected query center hops k c =
      connected query center hops k c (validate_dimension c.config query)

  abbrev pub keys_of_hits : List Hit → List Text
  keys_of_hits [] = []
  keys_of_hits (x ∷ xs) = x.0 ∷ keys_of_hits xs

  seen-scored :
      (v : Text) (c : Collection b) (query : Vector) (ps : List Point)
      → seen v (keys_of_hits (scored_points c query ps)) ≡ seen v (ids_of ps)
  unfolding seen
  seen-scored v c query [] = refl
  seen-scored v c query (p ∷ ps) =
      ap (λ found. if text_eq (storage_id p) v then true else found) (seen-scored v c query ps)

  seen-insert :
      (v : Text) (x : Hit) (xs : List Hit)
      → seen v (keys_of_hits (insert_scored b x xs)) ≡ seen v (keys_of_hits (x ∷ xs))
  unfolding insert_scored seen
  seen-insert v x [] = refl
  seen-insert v x (y ∷ ys) = elim (Bool-cases (b.not_greater (x.1) (y.1))) [
    | inl first ↦ rw first refl
    | inr later ↦ rw later (ground (arith, seen-insert v x ys))
  ]

  seen-sort :
      (v : Text) (xs : List Hit)
      → seen v (keys_of_hits (sort_scored b xs)) ≡ seen v (keys_of_hits xs)
  unfolding sort_scored seen
  seen-sort v [] = refl
  seen-sort v (x ∷ xs) =
      seen-insert v x (sort_scored b xs)
      ∙ ap (λ found. if text_eq (x.0) v then true else found) (seen-sort v xs)

  seen-take :
      (v : Text) (k : ℕ) (xs : List Hit)
      → seen v (keys_of_hits (take k xs)) ≡ true
      → seen v (keys_of_hits xs) ≡ true
  unfolding seen
  seen-take v zero xs h = absurd cc
  seen-take v (suc k) [] h = absurd cc
  seen-take v (suc k) (x ∷ xs) h = elim (Bool-cases (text_eq (x.0) v)) [
    | inl same ↦ rw same refl
    | inr other ↦ rw other (seen-take v k xs (rw other at h))
  ]

  length-take_le : (k : ℕ) (xs : List Hit) → length (take k xs) ≤ k
  length-take_le zero xs = omega arith
  length-take_le (suc k) [] = omega arith
  length-take_le (suc k) (x ∷ xs) = omega (arith, length-take_le k xs)

  All-seen :
      (P : Text → Type 0) (xs : List Hit)
      → ((v : Text) → seen v (keys_of_hits xs) ≡ true → P v)
      → All (λ x. P (x.0)) xs
  unfolding seen
  All-seen P [] h = tt
  All-seen P (x ∷ xs) h = (
    h (x.0) (rw (text_eq_refl (x.0)) refl),
    All-seen P xs (λ v there. h v (elim (Bool-cases (text_eq (x.0) v)) [
      | inl same ↦ rw same refl
      | inr other ↦ rw other there
    ])),
  )

  -- A key that a walk of at most so many relations reaches.
  abbrev pub IsNear : Collection b → Text → ℕ → Text → Type 0
  IsNear c center hops v = (n : ℕ) × (n ≤ hops) × Walk (λ id. Dict.get id c.points) center n v

  abbrev pub AreNear : Collection b → Text → ℕ → ℕ → Result (List Hit) → Type 0
  AreNear c center hops k (err e) = Unit
  AreNear c center hops k (ok hits) = (length hits ≤ k) × All (λ x. IsNear c center hops (x.0)) hits

  -- The connected search of a collection whose points stand under their storage ids ends, and what
  -- it finds are at most `k` points, each of which a walk of at most `hops` relations reaches from
  -- the center.
  pub search_connected-AreNear :
      (query : Vector) (center : Text) (hops k : ℕ) (c : Collection b)
      → IsKeyed b c
      → (r : Result (List Hit)) × (search_connected query center hops k c ≡ some r)
        × AreNear c center hops k r
  unfolding search_connected
  search_connected-AreNear query center hops k c keyed =
      by_dimension (validate_dimension c.config query)
    where
      from_points :
          (r : Result (List Point))
          → traverse_bfs (λ id. Dict.get id c.points) (length c.points + 1) center hops ≡ some r
          → (q : Result (List Hit)) × (nearest query k c (some r) ≡ some q)
            × AreNear c center hops k q
      from_points (err e) runs = (err e, refl, tt)
      from_points (ok ps) runs =
          let near : List Hit = sort_scored b (scored_points c query ps) in
          (
            ok (take k near),
            refl,
            (
              length-take_le k near,
              All-seen (IsNear c center hops) (take k near) (λ v there.
                  (traverse_bfs-Walk (λ id. Dict.get id c.points) keyed.keyed (length c.points + 1)
                      hops center v ps runs).0
                    (sym (seen-scored v c query ps)
                      ∙ sym (seen-sort v (scored_points c query ps))
                      ∙ seen-take v k near there)),
            ),
          )

      by_dimension :
          (d : Result (Unit {0}))
          → (r : Result (List Hit)) × (connected query center hops k c d ≡ some r)
            × AreNear c center hops k r
      by_dimension (err e) = (err e, refl, tt)
      by_dimension (ok u) =
          let (r, runs) =
            traverse_bfs_ends c.points (length c.points + 1) center hops (omega arith) in
          let (q, is, near) = from_points r runs in (q, ap (nearest query k c) runs ∙ is, near)
