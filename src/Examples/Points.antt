-- ===== src/Examples/Points.antt =====
-- The collection, its replay and its snapshot, at two points.
use ferres_db.Base.{
  ◌+◌, ◌≡◌, refl, Bool, true, false, ◌||◌, none, some, List, [], ◌∷◌, arith, max, min, ◌≤◌, ◌*◌,
  ◌/◌, if◌then◌else◌, ap, length,
}
use ferres_db.Base.Text.{text, text_eq}
use ferres_db.Base.Dict
use ferres_db.Base.Dict.{Dict, weigh, values, contains_key}
use ferres_db.Error.{ok, is_ok}
use ferres_db.Point.{Point, Vector, storage_id}
use ferres_db.Collection
use ferres_db.Collection.{Collection, insert, add_relation, remove}
use ferres_db.Collection.Keyed.{IsKeyed}
use ferres_db.Collection.Runs.{
  Call, inserts, batches, removes, links, deletes, vacuums, swaps, cleans, run, run-IsKeyed,
}
use ferres_db.Collection.Lookup.{insert-points, get-vacuum}
use ferres_db.Collection.Links.{related, relations_of, add_relation-related, tuned_ef_range}
use ferres_db.Collection.Batch.{prepare_batch, insert_batch}
use ferres_db.Collection.Batch.Points.{Ends, insert_batch-points}
use ferres_db.Collection.Dirty.{last_marked, run-dirty}
use ferres_db.Collection.Sweep.{
  mark_clean, delete_each, sort, insert_sorted, vacuum_expired_points, delete_points_batch,
  is_expired, tuned_ef,
}
use ferres_db.Wal.Entry.{WalEntry, upsert, delete}
use ferres_db.Recovery.{replay}
use ferres_db.Recovery.Replay.{get-replay, replay_again, after, Accepts}
use ferres_db.Examples.Instances.{toy, config, point}

abbrev empty : Collection toy
unfolding Collection.new Collection.with_index
empty = Collection.new toy config

empty-IsKeyed : IsKeyed toy empty
unfolding empty Dict.get
empty-IsKeyed = record { distinct = tt; keyed = λ k p h. cc; sized = λ k p h. cc }

abbrev a : Point
a = point (text "a") (some 3)

abbrev b : Point
b = point (text "b") none

length_ok : (v w : Vector) → ok v ≡ ok w → length w ≡ length v
length_ok v w h = ap length (cc)

abbrev calls : List (Call toy)
calls =
    inserts a
    ∷ batches (a ∷ b ∷ [])
    ∷ links (text "a") (text "b")
    ∷ cleans
    ∷ vacuums 9
    ∷ swaps 7
    ∷ removes (text "b")
    ∷ []

run-IsKeyed_example : IsKeyed toy (run toy (λ v. ok v) empty calls)
run-IsKeyed_example =
    run-IsKeyed toy (λ v. ok v) empty calls (λ v w h. length_ok v w h) empty-IsKeyed

insert-points_example :
    ((insert toy a empty).1.points ≡ (
      if is_ok (insert toy a empty).0
      then Dict.insert (storage_id a) a empty.points
      else empty.points))
    × ((insert toy a empty).1.dirty ≡ (if is_ok (insert toy a empty).0 then true else empty.dirty))
insert-points_example = insert-points toy a empty

prepared : prepare_batch (λ v. ok v) config (a ∷ b ∷ []) ≡ ok (a ∷ b ∷ [])
unfolding prepare_batch
prepared = refl

insert_batch-points_example :
    Ends toy (a ∷ b ∷ []) empty (insert_batch toy (λ v. ok v) (a ∷ b ∷ []) empty)
unfolding empty
insert_batch-points_example =
    insert_batch-points toy (λ v. ok v) (a ∷ b ∷ []) (a ∷ b ∷ []) empty refl prepared

-- Both points, in a clean collection.
abbrev docs : Collection toy
docs = record empty { points = (text "a", a) ∷ (text "b", b) ∷ [] }

docs-IsDistinct : Dict.IsDistinct docs.points
unfolding Dict.get text_eq
docs-IsDistinct = (refl, (refl, tt))

get-vacuum_example :
    Dict.get (text "a") (vacuum_expired_points toy 9 docs).1.points
    ≡ elim (Dict.get (text "a") docs.points) [
      | none ↦ none
      | some p ↦ if is_expired 9 p then none else some p
    ]
get-vacuum_example = get-vacuum toy 9 (text "a") docs docs-IsDistinct

linked_ok : is_ok (add_relation toy (text "a") (text "b") docs).0 ≡ true
unfolding add_relation Dict.get text_eq
linked_ok = refl

add_relation-related_example :
    (related
        (text "b")
        (relations_of (Dict.get (text "a") (add_relation toy (text "a") (text "b") docs).1.points))
      ≡ true)
    × (related (text "a") (
          relations_of (Dict.get (text "b") (add_relation toy (text "a") (text "b") docs).1.points))
        ≡ true)
    × ((if text_eq (text "a") (text "c") || text_eq (text "b") (text "c")
          then Dict.get (text "c") docs.points
          else Dict.get (text "c") (add_relation toy (text "a") (text "b") docs).1.points)
        ≡ Dict.get (text "c") docs.points)
add_relation-related_example =
    add_relation-related toy (text "a") (text "b") (text "c") docs linked_ok

abbrev marked_calls : List (Call toy)
marked_calls = inserts a ∷ removes (text "z") ∷ cleans ∷ deletes (text "y" ∷ []) ∷ []

still_clean : (run toy (λ v. ok v) empty marked_calls).dirty ≡ false
unfolding insert remove delete_points_batch delete_each sort insert_sorted Dict.get text_eq empty
    mark_clean Collection.validate_dimension Collection.validate_point_named_vectors
    Collection.validate_named ferres_db.Exec.each Collection.touched Collection.store_point
    Dict.insert Collection.store_text storage_id
still_clean = refl

run-dirty_example :
    (run toy (λ v. ok v) empty marked_calls).points
    ≡ last_marked toy (λ v. ok v) empty.points empty marked_calls
run-dirty_example = run-dirty toy (λ v. ok v) empty marked_calls still_clean

tuned_ef_range_example :
    (tuned_ef 50 60 true false true ≤ 60 + 10)
    × (60 ≤ tuned_ef 50 60 true false true + 10)
    × (max (50 / 2) 10 ≤ tuned_ef 50 60 true false true)
    × (tuned_ef 50 60 true false true ≤ min (50 * 2) 200)
tuned_ef_range_example = tuned_ef_range 50 60 true false true (omega arith) (omega arith)

abbrev entries : List WalEntry
entries =
    record { timestamp = 1; operation = upsert a }
    ∷ record { timestamp = 2; operation = upsert b }
    ∷ record { timestamp = 3; operation = delete (text "a") }
    ∷ []

abbrev accepts : Point → Bool
accepts p = true

toy-Accepts : Accepts toy accepts
toy-Accepts p i = refl

get-replay_example :
    Dict.get (text "b") (replay toy entries empty).points
    ≡ after toy accepts empty.config (text "b") entries (Dict.get (text "b") empty.points)
get-replay_example =
    get-replay toy accepts (text "b") entries empty toy-Accepts (tt, (tt, (tt, tt)))

replay_again_example :
    Dict.get (text "b") (replay toy entries (replay toy entries empty)).points
    ≡ Dict.get (text "b") (replay toy entries empty).points
replay_again_example =
    replay_again toy accepts (text "b") entries empty toy-Accepts (tt, (tt, (tt, tt)))
