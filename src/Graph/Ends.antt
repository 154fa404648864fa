-- ===== src/Graph/Ends.antt =====
-- The search ends: every round takes an item off the queue, and every point of the map comes on it
-- once at most.
use ferres_db.Base.{
  ℕ, zero, suc, ◌+◌, ◌≤◌, ◌<◌, ◌≡◌, refl, ap, false, Option, none, some, List, [], ◌∷◌, arith,
  length, length-append, leb, is_empty, if◌then◌else◌, inl, inr, Bool-cases,
}
use ferres_db.Base.Text.{Text, text_eq_iff}
use ferres_db.Base.Dict
use ferres_db.Base.Dict.{Dict}
use ferres_db.Error.{Result, ok, err, point_not_found, invalid_point_id}
use ferres_db.Point.{Point, storage_id}
use ferres_db.Graph.{
  Search, seen, arrive, visit, visit_all, expand_point, expand, relations_of, ended, pop_front,
  rounds, start, found_from, from_point, traverse_bfs,
}

-- The entries of the map that are not visited.
unseen : List Text → Dict Point → ℕ
unseen visited [] = 0
unseen visited ((k, p) ∷ d) = (if seen k visited then 0 else 1) + unseen visited d

unseen-le :
    (id : Text) (visited : List Text) (d : Dict Point) → unseen (id ∷ visited) d ≤ unseen visited d
unfolding unseen seen
unseen-le id visited [] = omega arith
unseen-le id visited ((k, p) ∷ d) = ground (arith, unseen-le id visited d)

unseen-lt :
    (id : Text) (visited : List Text) (d : Dict Point) (p : Point)
    → seen id visited ≡ false
    → Dict.get id d ≡ some p
    → unseen (id ∷ visited) d < unseen visited d
unfolding unseen seen Dict.get
unseen-lt id visited [] p new there = absurd (ground arith)
unseen-lt id visited ((k, q) ∷ d) p new there =
    ground
      (arith, text_eq_iff k id, text_eq_iff id k, unseen-le id visited d, unseen-lt id visited d p)

unseen-le-length : (visited : List Text) (d : Dict Point) → unseen visited d ≤ length d
unfolding unseen
unseen-le-length visited [] = omega arith
unseen-le-length visited ((k, p) ∷ d) = ground (arith, unseen-le-length visited d)

module _ (d : Dict Point) where
  -- What is left to do: a round makes it smaller.
  abbrev work : Search → ℕ
  work s = unseen s.visited d + length s.queue

  arrive-work :
      (depth : ℕ) (id : Text) (o : Option Point) (s : Search)
      → Dict.get id d ≡ o
      → seen id s.visited ≡ false
      → work (arrive (λ k. Dict.get k d) depth o (record s { visited = id ∷ s.visited })) ≤ work s
  arrive-work depth id none s there new = omega (arith, unseen-le id s.visited d)
  arrive-work depth id (some p) s there new = omega (
    arith,
    unseen-lt id s.visited d p new there,
    length-append s.queue ((storage_id p, depth) ∷ []),
  )

  visit-work :
      (depth : ℕ) (s : Search) (id : Text) → work (visit (λ k. Dict.get k d) depth s id) ≤ work s
  unfolding visit
  visit-work depth s id = elim (Bool-cases (is_empty id)) [
    | inl nothing ↦ rw nothing (omega arith)
    | inr something ↦ elim (Bool-cases (seen id s.visited)) [
      | inl old ↦ rw (something, old) (omega arith)
      | inr new ↦ rw (something, new) (arrive-work depth id (Dict.get id d) s refl new)
    ]
  ]

  visit_all-work :
      (depth : ℕ) (s : Search) (ids : List Text)
      → work (visit_all (λ k. Dict.get k d) depth s ids) ≤ work s
  unfolding visit_all
  visit_all-work depth s [] = omega arith
  visit_all-work depth s (id ∷ ids) = omega (
    arith,
    visit-work depth s id,
    visit_all-work depth (visit (λ k. Dict.get k d) depth s id) ids,
  )

  expand-work :
      (max_depth : ℕ) (id : Text) (depth : ℕ) (s : Search)
      → work (expand (λ k. Dict.get k d) max_depth id depth s) ≤ work s
  unfolding expand
  expand-work max_depth id depth s = elim (Bool-cases (leb max_depth depth)) [
    | inl deep ↦ rw deep (omega arith)
    | inr room ↦ rw room (by_point (Dict.get id d))
  ]
    where
      by_point : (o : Option Point) → work (expand_point (λ k. Dict.get k d) depth o s) ≤ work s
      by_point none = omega arith
      by_point (some p) = visit_all-work (depth + 1) s (relations_of p.relations)

  rounds_end :
      (fuel max_depth : ℕ) (s : Search)
      → work s ≤ fuel
      → (t : Search) × (rounds (λ k. Dict.get k d) fuel max_depth s ≡ some t)
  unfolding rounds
  rounds_end zero max_depth s h = step s.queue refl
    where
      step :
          (q : List (Text × ℕ))
          → s.queue ≡ q
          → (t : Search) × (ended (λ k. Dict.get k d) q s ≡ some t)
      step [] e = (s, refl)
      step (item ∷ rest) e = absurd (omega (arith, ap length e))
  rounds_end (suc fuel) max_depth s h = step (λ s' h'. rounds_end fuel max_depth s' h') s.queue refl
    where
      step :
          ((s' : Search)
            → work s' ≤ fuel
            → (t : Search) × (rounds (λ k. Dict.get k d) fuel max_depth s' ≡ some t))
          → (q : List (Text × ℕ)) → s.queue ≡ q
          → (t : Search) × (pop_front
                (λ k. Dict.get k d)
                (λ id depth s'.
                  rounds
                    (λ k. Dict.get k d)
                    fuel
                    max_depth
                    (expand (λ k. Dict.get k d) max_depth id depth s'))
                q
                s
              ≡ some t)
      step more [] e = (s, refl)
      step more ((id, depth) ∷ rest) e =
          more (expand (λ k. Dict.get k d) max_depth id depth (record s { queue = rest }))
            (omega (arith, expand-work max_depth id depth (record s { queue = rest }), ap length e))

  from_point_ends :
      (fuel : ℕ) (id : Text) (max_depth : ℕ) (o : Option Point)
      → length d < fuel
      → (r : Result (List Point)) × (from_point (λ k. Dict.get k d) fuel id max_depth o ≡ some r)
  unfolding start
  from_point_ends fuel id max_depth none h = (err (point_not_found id), refl)
  from_point_ends fuel id max_depth (some p) h =
      let (t, e) =
        rounds_end fuel max_depth (start (λ k. Dict.get k d) p)
          (omega (arith, unseen-le-length (storage_id p ∷ []) d)) in
      (ok t.result, ap (found_from (λ k. Dict.get k d)) e)

  -- Over a map of points the search ends: fuel above the number of points is enough.
  pub traverse_bfs_ends :
      (fuel : ℕ) (start_id : Text) (max_depth : ℕ)
      → length d < fuel
      → (r : Result (List Point)) × (traverse_bfs (λ k. Dict.get k d) fuel start_id max_depth
          ≡ some r)
  unfolding traverse_bfs
  traverse_bfs_ends fuel start_id max_depth h = elim (Bool-cases (is_empty start_id)) [
    | inl nothing ↦ (err (invalid_point_id []), rw nothing refl)
    | inr named ↦ rw named (from_point_ends fuel start_id max_depth (Dict.get start_id d) h)
  ]
