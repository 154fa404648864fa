-- ===== src/Tiered/KeptCold.antt =====
-- A step to the cold tier keeps every point.
use ferres_db.Base.{◌≡◌, refl, ap, ◌∙◌, Bool, false, Option, none, some, List, [], ◌∷◌, arith}
use ferres_db.Base.Text.{Text, text_eq, text_eq_refl}
use ferres_db.Base.Dict
use ferres_db.Base.Dict.{Dict, get-insert, get-remove}
use ferres_db.Error.{Result, ok, err}
use ferres_db.Point.{Point}
use ferres_db.Backend.{Backend}
use ferres_db.Snapshot.{Formats}
use ferres_db.Tiered.{cold}
use ferres_db.Tiered.Cold.{ColdStorage, point_path}
use ferres_db.Tiered.Layers.{
  TieredCollection, hydrate_from_warm, saved, set_tier, leave_warm, settle_cold, moved_to_cold,
  cooled, demote_to_cold,
}
use ferres_db.Tiered.Kept.{
  IsPlainId, offsets_of, files_of, HasAt-Same, PlacedBut-set, KeptBut, Kept,
}
use ferres_db.Tiered.KeptKeys.{All-insert, shrink, other_path, saved_files}
use ferres_db.Tiered.KeptSteps.{hydrate_from_warm-id}

module _ (b : Backend) (fmt : Formats) where
  -- A pending key that is saved in the cold storage.
  pub settle_cold-Kept :
      (writable : Text → Bool) (id : Text) (p : Point) (cs : Option ColdStorage)
      (pending : List Text) (tc : TieredCollection b)
      → IsPlainId id
      → p.id ≡ id
      → saved fmt writable p tc.cold_storage ≡ ok cs
      → KeptBut b fmt (id ∷ pending) tc
      → KeptBut b fmt pending (settle_cold b id p (record tc { cold_storage = cs }))
  unfolding settle_cold set_tier
  settle_cold-Kept writable id p cs pending tc plain mine h k =
      let (t, json, files, there) = saved_files fmt writable p tc.cold_storage cs k.stored h in
      let e : files_of cs ≡ Dict.insert (point_path id) t (files_of tc.cold_storage) =
        files ∙ ap (λ i. Dict.insert (point_path i) t (files_of tc.cold_storage)) mine in
      record {
        keyed = k.keyed;
        fits = k.fits;
        stored = there;
        plain_keys = All-insert id cold tc.point_tiers plain k.plain_keys;
        placed =
            PlacedBut-set b fmt id cold pending tc
              (settle_cold b id p (record tc { cold_storage = cs })) refl
              (
                t,
                ap (Dict.get (point_path id)) e
                    ∙ get-insert (point_path id) (point_path id) t (files_of tc.cold_storage)
                    ∙ rw (text_eq_refl (point_path id)) refl,
              )
              (λ j hj other. record {
                same_points = refl;
                same_metadata = refl;
                same_offset = refl;
                same_file =
                    ap (Dict.get (point_path j)) e
                    ∙ get-insert (point_path id) (point_path j) t (files_of tc.cold_storage)
                    ∙ rw (other_path id j plain hj other) refl;
              })
              k.placed;
      }

  -- A key that leaves the warm storage is pending.
  pub leave_warm-Kept :
      (id : Text) (pending : List Text) (tc : TieredCollection b)
      → KeptBut b fmt pending tc
      → KeptBut b fmt (id ∷ pending) (leave_warm b id tc)
  unfolding leave_warm
  leave_warm-Kept id pending tc k =
      let (fits, offsets) = shrink tc.collection.config.dimension id tc.warm_storage k.fits in
      record {
        keyed = k.keyed;
        fits = fits;
        stored = k.stored;
        plain_keys = k.plain_keys;
        placed = λ j t hj h open_j.
            let other : text_eq id j ≡ false = ground arith in
            HasAt-Same b fmt j t tc (leave_warm b id tc)
              (record {
                same_points = refl;
                same_metadata = get-remove id j tc.warm_metadata ∙ rw other refl;
                same_offset =
                    ap (Dict.get j) offsets
                    ∙ get-remove id j (offsets_of tc.warm_storage)
                    ∙ rw other refl;
                same_file = refl;
              })
              (k.placed j t hj h (ground arith));
      }

  moved_to_cold-Kept :
      (writable : Text → Bool) (id : Text) (r : Result (Option Point)) (tc : TieredCollection b)
      → IsPlainId id
      → ((p : Point) → r ≡ ok (some p) → p.id ≡ id)
      → Kept b fmt tc
      → Kept b fmt (moved_to_cold b fmt writable id r tc).1
  moved_to_cold-Kept writable id (err e) tc plain mine k = k
  moved_to_cold-Kept writable id (ok none) tc plain mine k = k
  moved_to_cold-Kept writable id (ok (some p)) tc plain mine k =
      step (saved fmt writable p tc.cold_storage) refl
    where
      step :
          (r : Result (Option ColdStorage))
          → saved fmt writable p tc.cold_storage ≡ r
          → Kept b fmt (cooled b id p r tc (leave_warm b id tc)).1
      step (err e) h = k
      step (ok cs) h =
          settle_cold-Kept writable id p cs [] (leave_warm b id tc) plain (mine p refl)
            (unfold leave_warm in h) (leave_warm-Kept id [] tc k)

  pub demote_to_cold-Kept :
      (writable : Text → Bool) (id : Text) (tc : TieredCollection b)
      → IsPlainId id
      → Kept b fmt tc
      → Kept b fmt (demote_to_cold b fmt writable id tc).1
  unfolding demote_to_cold
  demote_to_cold-Kept writable id tc plain k =
      moved_to_cold-Kept writable id (hydrate_from_warm b id tc) tc plain
        (λ p h. (hydrate_from_warm-id b id tc p plain h).0) k
