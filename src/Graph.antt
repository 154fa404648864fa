-- ===== src/Graph.antt =====
-- Breadth-first search over the relations of points (crates/core/src/graph.rs).
pub mod Ends
pub mod Levels
pub mod Reached
use ferres_db.Base.{
  ℕ, zero, suc, ◌+◌, Bool, true, false, Option, none, some, List, [], ◌∷◌, ◌++◌, leb, is_empty,
  if◌then◌else◌,
}
use ferres_db.Base.Text.{Text, text_eq}
use ferres_db.Error.{FerresError, Result, ok, err, invalid_point_id, point_not_found}
use ferres_db.Point.{Point, storage_id}

-- The locals of `traverse_bfs`.
pub record Search : Type 0 where
  pub visited : List Text
  pub result : List Point
  pub queue : List (Text × ℕ)

-- `visited.contains_key`.
unfoldable pub seen : Text → List Text → Bool
seen k [] = false
seen k (id ∷ ids) = if text_eq id k then true else seen k ids

abbrev pub relations_of : Option (List Text) → List Text
relations_of none = []
relations_of (some rels) = rels

module _ (get_point : Text → Option Point) where
  -- A neighbour that is visited for the first time is a result, if it exists.
  abbrev pub arrive : ℕ → Option Point → Search → Search
  arrive depth none s = s
  arrive depth (some p) s = record s {
    result = s.result ++ p ∷ [];
    queue = s.queue ++ (storage_id p, depth) ∷ [];
  }

  unfoldable pub visit : ℕ → Search → Text → Search
  unfolding seen
  visit depth s id =
      if is_empty id
      then s
      else if seen id s.visited
      then s
      else arrive depth (get_point id) (record s { visited = id ∷ s.visited })

  -- The loop over the relations of a point.
  unfoldable pub visit_all : ℕ → Search → List Text → Search
  unfolding visit
  visit_all depth s [] = s
  visit_all depth s (id ∷ ids) = visit_all depth (visit depth s id) ids

  abbrev pub expand_point : ℕ → Option Point → Search → Search
  expand_point depth none s = s
  expand_point depth (some p) s = visit_all (depth + 1) s (relations_of p.relations)

  -- One round, behind the `pop_front` of `(id, depth)`.
  unfoldable pub expand : ℕ → Text → ℕ → Search → Search
  unfolding visit_all
  expand max_depth id depth s =
      if leb max_depth depth then s else expand_point depth (get_point id) s

  -- `none` when the fuel is out.
  abbrev pub ended : List (Text × ℕ) → Search → Option Search
  ended [] s = some s
  ended (item ∷ rest) s = none

  -- `while let Some((id, depth)) = queue.pop_front()`.
  abbrev pub pop_front :
      (Text → ℕ → Search → Option Search) → List (Text × ℕ) → Search → Option Search
  pop_front body [] s = some s
  pop_front body ((id, depth) ∷ rest) s = body id depth (record s { queue = rest })

  unfoldable pub rounds : ℕ → ℕ → Search → Option Search
  unfolding expand
  rounds zero max_depth s = ended s.queue s
  rounds (suc fuel) max_depth s =
      pop_front (λ id depth s'. rounds fuel max_depth (expand max_depth id depth s')) s.queue s

  unfoldable pub start : Point → Search
  start p = record { visited = storage_id p ∷ []; result = p ∷ []; queue = (storage_id p, 0) ∷ [] }

  abbrev pub found_from : Option Search → Option (Result (List Point))
  found_from none = none
  found_from (some s) = some (ok s.result)

  abbrev pub from_point : ℕ → Text → ℕ → Option Point → Option (Result (List Point))
  from_point fuel start_id max_depth none = some (err (point_not_found start_id))
  from_point fuel start_id max_depth (some p) = found_from (rounds fuel max_depth (start p))

  unfoldable pub traverse_bfs : ℕ → Text → ℕ → Option (Result (List Point))
  unfolding rounds start
  traverse_bfs fuel start_id max_depth =
      if is_empty start_id
      then some (err (invalid_point_id []))
      else from_point fuel start_id max_depth (get_point start_id)
