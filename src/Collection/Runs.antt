-- ===== src/Collection/Runs.antt =====
-- Runs of the calls that change the points of a collection, its index or its dirty flag.
use ferres_db.Base.{ℕ, List, [], ◌∷◌}
use ferres_db.Base.Text.{Text}
use ferres_db.Error.{Result}
use ferres_db.Point.{Point, Vector}
use ferres_db.Backend.{Backend}
use ferres_db.Collection.{
  Collection, insert, remove, remove_data_only, add_relation, tombstone_in_index,
}
use ferres_db.Collection.Sweep.{
  swap_index, mark_dirty, mark_clean, delete_points_batch, vacuum_expired_points, sort, expired_ids,
}
use ferres_db.Collection.Batch.{insert_batch}
use ferres_db.Collection.Keyed.{
  IsKeyed, touched-IsKeyed, insert-IsKeyed, remove-IsKeyed, remove_data_only-IsKeyed,
  link_step-IsKeyed, add_relation-LinkOutcome, delete_each-IsKeyed, drop_all-IsKeyed,
  touched_if-IsKeyed,
}
use ferres_db.Collection.Batch.Sized.{KeepsLength, insert_batch-IsKeyed}

module _ (b : Backend) where
  -- The calls that change the points, the index or the dirty flag.
  pub data Call : Type 0 where
    inserts : Point → Call
    batches : List Point → Call
    removes removes_data tombstones : Text → Call
    links : Text → Text → Call
    deletes : List Text → Call
    vacuums : ℕ → Call
    swaps : b.Index → Call
    dirties cleans : Call

  module _ (normalize_vector : Vector → Result Vector) where
    abbrev pub step : Collection b → Call → Collection b
    step c (inserts p) = (insert b p c).1
    step c (batches ps) = (insert_batch b normalize_vector ps c).1
    step c (removes id) = (remove b id c).1
    step c (removes_data id) = (remove_data_only b id c).1
    step c (tombstones id) = tombstone_in_index b id c
    step c (links from to) = (add_relation b from to c).1
    step c (deletes ids) = (delete_points_batch b ids c).1
    step c (vacuums now) = (vacuum_expired_points b now c).1
    step c (swaps new_index) = swap_index b new_index c
    step c dirties = mark_dirty b c
    step c cleans = mark_clean b c

    abbrev pub run : Collection b → List Call → Collection b
    run c [] = c
    run c (call ∷ calls) = run (step c call) calls

    step-IsKeyed :
        (c : Collection b) (call : Call)
        → KeepsLength normalize_vector
        → IsKeyed b c
        → IsKeyed b (step c call)
    unfolding swap_index mark_dirty mark_clean tombstone_in_index
    step-IsKeyed c (inserts p) keeps v = insert-IsKeyed b p c v
    step-IsKeyed c (batches ps) keeps v = insert_batch-IsKeyed b normalize_vector ps c keeps v
    step-IsKeyed c (removes id) keeps v = remove-IsKeyed b id c v
    step-IsKeyed c (removes_data id) keeps v = remove_data_only-IsKeyed b id c v
    step-IsKeyed c (links from to) keeps v =
        link_step-IsKeyed b from to c (add_relation b from to c)
          (add_relation-LinkOutcome b from to c) v
    step-IsKeyed c (deletes ids) keeps v =
        unfold delete_points_batch in
        touched_if-IsKeyed b _ _ (delete_each-IsKeyed b (sort ids) 0 c v)
    step-IsKeyed c (vacuums now) keeps v =
        unfold vacuum_expired_points in
        touched_if-IsKeyed b _ _ (drop_all-IsKeyed b (expired_ids now c.points) c v)
    step-IsKeyed c (swaps new_index) keeps v =
        touched-IsKeyed b (record c { index = new_index })
          (record { distinct = v.distinct; keyed = v.keyed; sized = v.sized })
    step-IsKeyed c (tombstones id) keeps v = record {
      distinct = v.distinct;
      keyed = v.keyed;
      sized = v.sized;
    }
    step-IsKeyed c dirties keeps v = record {
      distinct = v.distinct;
      keyed = v.keyed;
      sized = v.sized;
    }
    step-IsKeyed c cleans keeps v = record {
      distinct = v.distinct;
      keyed = v.keyed;
      sized = v.sized;
    }

    -- Whatever insertions, batches, removals, links, vacuums, tombstones, swaps of the index, and
    -- marks as dirty or clean are made, failing or not, from a collection where every point stands
    -- once, under its own key, with the collection's dimension, this stays so, if the normalization
    -- keeps the length of vectors.
    pub run-IsKeyed :
        (c : Collection b) (calls : List Call)
        → KeepsLength normalize_vector
        → IsKeyed b c
        → IsKeyed b (run c calls)
    run-IsKeyed c [] keeps v = v
    run-IsKeyed c (call ∷ calls) keeps v =
        run-IsKeyed (step c call) calls keeps (step-IsKeyed c call keeps v)
