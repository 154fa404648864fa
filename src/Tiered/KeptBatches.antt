-- ===== src/Tiered/KeptBatches.antt =====
-- The two batches of a compaction keep every point in its tier.
use ferres_db.Base.{
  ℕ, ◌≡◌, refl, sym, ap, ◌∙◌, subst, Bool, true, false, Option, none, some, List, [], ◌∷◌, arith,
  All, if◌then◌else◌, length,
}
use ferres_db.Base.Text.{Text, text_eq}
use ferres_db.Base.Dict
use ferres_db.Base.Dict.{Dict, get-insert, get-remove}
use ferres_db.Error.{Result, ok, err, is_ok}
use ferres_db.Exec.{resume}
use ferres_db.Backend.{Backend}
use ferres_db.Snapshot.{Formats}
use ferres_db.Tiered.{StorageTier, hot, warm, cold, points_to_demote_at}
use ferres_db.Tiered.Warm.{WarmStorage}
use ferres_db.Tiered.Cold.{ColdStorage}
use ferres_db.Tiered.Layers.{
  TieredCollection, WarmPointMeta, map_some, saved, move_to_warm, settle_cold, cooled,
}
use ferres_db.Tiered.Compaction.{
  Batch, CompactionResult, hot_batch, add_vectors, remove_vectors, batch_of, to_warm_ids,
  to_cold_ids, move_each, demote_batch_to_warm, persist_each, counted, demote_batch_to_cold,
  run_compaction, then_to_cold, compacted,
}
use ferres_db.Tiered.Kept.{IsPlainId, offsets_of, WarmFits, HasAt, HasAt-Same, KeptBut, Kept}
use ferres_db.Tiered.KeptSteps.{move_to_warm-Kept}
use ferres_db.Tiered.KeptCold.{settle_cold-Kept}
use ferres_db.Tiered.BatchKeys.{
  ids_of, hot_batch-All, add_vectors-Fits, add_vectors_found, add_vectors-All, remove_vectors-Fits,
  get-remove_vectors, IsOwn, warm_batch-All, PlainKeys, points_to_demote-PlainKeys, to_cold_ids-All,
  to_warm_ids-All,
}

module _ (b : Backend) (fmt : Formats) where
  move_each-Kept :
      (batch : Batch) (tc : TieredCollection b)
      → All (λ e. IsPlainId e.0) batch
      → All (λ e. (q : ℕ) × (Dict.get e.0 (offsets_of tc.warm_storage) ≡ some q)) batch
      → Kept b fmt tc
      → Kept b fmt (move_each b batch tc)
  unfolding move_each
  move_each-Kept [] tc plain there k = k
  move_each-Kept ((id, p) ∷ batch) tc (h, hs) ((q, at), rest) k =
      move_each-Kept batch (move_to_warm b id p tc) hs (unfold move_to_warm in rest)
        (move_to_warm-Kept b fmt id p q tc h at k)

  hot_batch-sized :
      (batch : Batch) (tc : TieredCollection b)
      → Kept b fmt tc
      → All (λ e. (Dict.get e.0 tc.collection.points ≡ some e.1) × IsPlainId e.0) batch
      → All (λ e. length e.1.vector ≡ tc.collection.config.dimension) batch
        × All (λ e. IsPlainId e.0) batch
  hot_batch-sized [] tc k h = (tt, tt)
  hot_batch-sized ((id, p) ∷ batch) tc k ((there, plain), hs) =
      let (sized, plains) = hot_batch-sized batch tc k hs in
      ((k.keyed.sized id p there, sized), (plain, plains))

  add_vectors-Kept :
      (batch : Batch) (tc : TieredCollection b)
      → All (λ e. length e.1.vector ≡ tc.collection.config.dimension) batch
      → Kept b fmt tc
      → Kept b fmt (record tc { warm_storage = map_some (add_vectors batch) tc.warm_storage })
        × All
            (λ e.
              (q : ℕ) × (Dict.get e.0 (offsets_of (map_some (add_vectors batch) tc.warm_storage))
                ≡ some q))
            batch
  add_vectors-Kept batch tc sized k = step tc.warm_storage refl k.fits
    where
      step :
          (ws : Option WarmStorage)
          → tc.warm_storage ≡ ws
          → WarmFits tc.collection.config.dimension ws
          → Kept b fmt (record tc { warm_storage = map_some (add_vectors batch) ws })
            × All
                (λ e.
                  (q : ℕ) × (Dict.get e.0 (offsets_of (map_some (add_vectors batch) ws)) ≡ some q))
                batch
      step none is f = absurd f
      step (some w) is (f, same, pos) =
          let sized' = subst (λ n. All (λ e. length e.1.vector ≡ n) batch) (sym same) sized in
          let (g, kept) = add_vectors-Fits batch w f sized' in
          (
            record {
              keyed = k.keyed;
              fits = (g, kept ∙ same, pos);
              stored = k.stored;
              plain_keys = k.plain_keys;
              placed = λ j t hj h open_j. still j t (k.placed j t hj h open_j);
            },
            add_vectors-All batch w f sized',
          )
        where
          still :
              (j : Text) (t : StorageTier)
              → HasAt b fmt tc j t
              → HasAt b fmt (record tc { warm_storage = some (add_vectors batch w) }) j t
          still j hot h = h
          still j cold h = h
          still j warm (m, o, meta, at) =
              let (q, found) =
                add_vectors_found batch w j o f
                  (subst (λ n. All (λ e. length e.1.vector ≡ n) batch) (sym same) sized)
                  (ap (λ s. Dict.get j (offsets_of s)) (sym is) ∙ at) in
              (m, q, meta, found)

  pub demote_batch_to_warm-Kept :
      (ids : List Text) (tc : TieredCollection b)
      → All IsPlainId ids
      → Kept b fmt tc
      → Kept b fmt (demote_batch_to_warm b ids tc).1
  unfolding demote_batch_to_warm
  demote_batch_to_warm-Kept ids tc plain k =
      let batch : Batch = hot_batch ids tc.collection.points in
      let (sized, plains) =
        hot_batch-sized batch tc k (hot_batch-All ids tc.collection.points plain) in
      let (k', there) = add_vectors-Kept batch tc sized k in
      move_each-Kept batch
        (record tc { warm_storage = map_some (add_vectors batch) tc.warm_storage }) plains there k'

  remove_vectors-Kept :
      (batch : Batch) (tc : TieredCollection b)
      → Kept b fmt tc
      → KeptBut b fmt
          (ids_of batch)
          (record tc { warm_storage = map_some (remove_vectors batch) tc.warm_storage })
  remove_vectors-Kept batch tc k = step tc.warm_storage refl k.fits
    where
      step :
          (ws : Option WarmStorage)
          → tc.warm_storage ≡ ws
          → WarmFits tc.collection.config.dimension ws
          → KeptBut b fmt
              (ids_of batch)
              (record tc { warm_storage = map_some (remove_vectors batch) ws })
      step none is f = absurd f
      step (some w) is (f, same, pos) =
          let (g, kept) = remove_vectors-Fits batch w f in
          record {
            keyed = k.keyed;
            fits = (g, kept ∙ same, pos);
            stored = k.stored;
            plain_keys = k.plain_keys;
            placed = λ j t hj h open_j.
                HasAt-Same b fmt j t tc (record tc { warm_storage = some (remove_vectors batch w) })
                  (record {
                    same_points = refl;
                    same_metadata = refl;
                    same_offset =
                        get-remove_vectors batch w j open_j
                        ∙ ap (λ s. Dict.get j (offsets_of s)) (sym is);
                    same_file = refl;
                  })
                  (k.placed j t hj h refl);
          }

  -- A pending key may lose its metadata.
  forget-KeptBut :
      (id : Text) (pending : List Text) (tc : TieredCollection b)
      → KeptBut b fmt (id ∷ pending) tc
      → KeptBut b fmt (id ∷ pending) (record tc { warm_metadata = Dict.remove id tc.warm_metadata })
  forget-KeptBut id pending tc k = record {
    keyed = k.keyed;
    fits = k.fits;
    stored = k.stored;
    plain_keys = k.plain_keys;
    placed = λ j t hj h open_j.
        let other : text_eq id j ≡ false = ground arith in
        HasAt-Same b fmt j t tc (record tc { warm_metadata = Dict.remove id tc.warm_metadata })
          (record {
            same_points = refl;
            same_metadata = get-remove id j tc.warm_metadata ∙ rw other refl;
            same_offset = refl;
            same_file = refl;
          })
          (k.placed j t hj h open_j);
  }

  module _ (writable : Text → Bool) where
    persist_each-Kept :
        (batch : Batch) (tc : TieredCollection b)
        → All IsOwn batch
        → (persist_each b fmt writable batch tc).0 ≡ ok tt
        → KeptBut b fmt (ids_of batch) tc
        → Kept b fmt (persist_each b fmt writable batch tc).1
    unfolding persist_each
    persist_each-Kept [] tc own done k = k
    persist_each-Kept ((id, p) ∷ batch) tc ((plain, mine), own) done k =
        step (λ d h k. persist_each-Kept batch d own h k) (saved fmt writable p tc.cold_storage)
          refl done
      where
        forgotten : TieredCollection b
        forgotten = record tc { warm_metadata = Dict.remove id tc.warm_metadata }

        rest : Result (Option ColdStorage) → Result (Unit {0}) × TieredCollection b
        rest s =
            resume (cooled b id p s forgotten forgotten) (λ _. persist_each b fmt writable batch)

        step :
            ((d : TieredCollection b)
              → (persist_each b fmt writable batch d).0 ≡ ok tt
              → KeptBut b fmt (ids_of batch) d
              → Kept b fmt (persist_each b fmt writable batch d).1)
            → (s : Result (Option ColdStorage)) → saved fmt writable p tc.cold_storage ≡ s
            → (rest s).0 ≡ ok tt
            → Kept b fmt (rest s).1
        step others (err e) h failed = absurd (ground arith)
        step others (ok cs) h done =
            others (settle_cold b id p (record forgotten { cold_storage = cs })) done (
              settle_cold-Kept b fmt writable id p cs (ids_of batch) forgotten plain mine h
                (forget-KeptBut id (ids_of batch) tc k))

    counted-ok :
        (n : ℕ) (r : Result (Unit {0}) × TieredCollection b)
        → is_ok (counted b n r).0 ≡ true
        → (r.0 ≡ ok tt) × ((counted b n r).1 ≡ r.1)
    counted-ok n (ok u, tc) h = (refl, refl)
    counted-ok n (err e, tc) h = absurd (ground arith)

    batch_of-All :
        (ids : List Text) (ws : Option WarmStorage) (metadata : Dict WarmPointMeta)
        → All IsPlainId ids
        → All IsOwn (batch_of ids ws metadata)
    batch_of-All ids none metadata h = tt
    batch_of-All ids (some w) metadata h = warm_batch-All ids w metadata h

    pub demote_batch_to_cold-Kept :
        (ids : List Text) (tc : TieredCollection b)
        → All IsPlainId ids
        → is_ok (demote_batch_to_cold b fmt writable ids tc).0 ≡ true
        → Kept b fmt tc
        → Kept b fmt (demote_batch_to_cold b fmt writable ids tc).1
    unfolding demote_batch_to_cold
    demote_batch_to_cold-Kept ids tc plain done k =
        let batch : Batch = batch_of ids tc.warm_storage tc.warm_metadata in
        let tc' : TieredCollection b = record tc {
          warm_storage = map_some (remove_vectors batch) tc.warm_storage;
        } in
        let (persisted, same) =
          counted-ok (length batch) (persist_each b fmt writable batch tc') done in
        subst (Kept b fmt) (sym same) (
          persist_each-Kept batch tc' (batch_of-All ids tc.warm_storage tc.warm_metadata plain)
            persisted (remove_vectors-Kept batch tc k))

    compacted-ok :
        (total warmed : ℕ) (r : Result ℕ × TieredCollection b)
        → is_ok (compacted b total warmed r).0 ≡ true
        → (is_ok r.0 ≡ true) × ((compacted b total warmed r).1 ≡ r.1)
    compacted-ok total warmed (ok n, tc) h = (refl, refl)
    compacted-ok total warmed (err e, tc) h = absurd (ground arith)

    pub run_compaction-Kept :
        (now : ℕ) (tc : TieredCollection b)
        → is_ok (run_compaction b fmt writable now tc).0 ≡ true
        → Kept b fmt tc
        → Kept b fmt (run_compaction b fmt writable now tc).1
    unfolding run_compaction
    run_compaction-Kept now tc done k = step tc.config.enabled done
      where
        changes : Dict StorageTier
        changes = points_to_demote_at tc.config tc.point_tiers now tc.access_tracker

        plain : PlainKeys changes
        plain =
            points_to_demote-PlainKeys tc.config tc.point_tiers now tc.access_tracker k.plain_keys

        there : Result CompactionResult × TieredCollection b
        there =
            then_to_cold b fmt writable changes
              (demote_batch_to_warm b (to_warm_ids tc.point_tiers changes) tc)

        stays : Result CompactionResult × TieredCollection b
        stays = (ok (record { demoted_to_warm = 0; demoted_to_cold = 0; total_changes = 0 }), tc)

        moved : is_ok there.0 ≡ true → Kept b fmt there.1
        moved h =
            unfold demote_batch_to_warm in
            let (persisted, same) = compacted-ok (length changes) _ _ h in
            subst (Kept b fmt) (sym same) (
              demote_batch_to_cold-Kept (to_cold_ids changes)
                (demote_batch_to_warm b (to_warm_ids tc.point_tiers changes) tc).1
                (to_cold_ids-All changes plain) persisted
                (demote_batch_to_warm-Kept (to_warm_ids tc.point_tiers changes) tc
                  (to_warm_ids-All tc.point_tiers changes plain) k))

        step :
            (enabled : Bool)
            → is_ok (if enabled then there else stays).0 ≡ true
            → Kept b fmt (if enabled then there else stays).1
        step true h = moved h
        step false h = k
