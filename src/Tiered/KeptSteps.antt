-- ===== src/Tiered/KeptSteps.antt =====
-- The single steps of a tiered collection keep every point in its tier.
use ferres_db.Base.{
  ℕ, ◌≡◌, refl, sym, ap, ◌∙◌, subst, true, Option, none, some, [], inl, inr, Bool-cases,
  if◌then◌else◌, is_some, length,
}
use ferres_db.Base.Text.{Text, text_eq, text_eq_refl}
use ferres_db.Base.Dict
use ferres_db.Base.Dict.{Dict, get-insert, get-remove}
use ferres_db.Error.{Result, ok, err, is_ok, then_call-ok}
use ferres_db.Point.{Point, Vector, storage_id, storage_id_from_parts}
use ferres_db.Backend.{Backend}
use ferres_db.Collection
use ferres_db.Collection.{Collection, remove_data_only}
use ferres_db.Collection.Keyed.{IsKeyed, insert-IsKeyed, remove-IsKeyed, remove_data_only-IsKeyed}
use ferres_db.Collection.Lookup.{
  insert-points, remove-points, insert-config, remove-config, remove_data_only-points,
}
use ferres_db.Snapshot.{Formats}
use ferres_db.Tiered.{StorageTier, hot, warm, cold}
use ferres_db.Tiered.Warm.{add_vector, remove_vector}
use ferres_db.Tiered.WarmReads.{get-insert_new}
use ferres_db.Tiered.Cold.{ColdStorage, remove_point, point_path}
use ferres_db.Tiered.Layers.{
  TieredCollection, warm_meta, map_some, hydrate_from_warm, warm_vector, after_insert, accessed,
  set_tier, insert, remove, leave_warm, leave_cold, move_to_warm, demote_to_warm, warmed,
}
use ferres_db.Tiered.Kept.{
  IsPlainId, offsets_of, files_of, WarmFits, HasAt, HasAt-Same, PlacedBut-set, PlacedBut-unset,
  PlacedBut-weaken, Kept,
}
use ferres_db.Tiered.KeptKeys.{All-insert, All-remove, grow, shrink, other_path, both_id}

module _ (b : Backend) where
  pub hydrate_from_warm-id :
      (id : Text) (tc : TieredCollection b) (p : Point)
      → IsPlainId id
      → hydrate_from_warm b id tc ≡ ok (some p)
      → (p.id ≡ id) × (p.namespace ≡ none)
  unfolding hydrate_from_warm
  hydrate_from_warm-id id tc p plain h =
      let (v, reads, is) = then_call-ok _ (some p) (warm_vector id tc.warm_storage) h in
      both_id id v (Dict.get id tc.warm_metadata) p plain (ok_injective is)
    where
      ok_injective : {x y : Option Point} → ok x ≡ ok y → x ≡ y
      ok_injective e = cc

  module _ (fmt : Formats) where
    insert_sorted-key : (p : Point) → p.namespace ≡ none → storage_id p ≡ p.id
    unfolding storage_id storage_id_from_parts
    insert_sorted-key p h = rw h refl

    after_insert-Kept :
        (now : ℕ) (p : Point) (tc : TieredCollection b) (r : Result (Unit {0}) × Collection b)
        → p.namespace ≡ none
        → IsPlainId p.id
        → r.1.points ≡ (
            if is_ok r.0
            then Dict.insert (storage_id p) p tc.collection.points
            else tc.collection.points)
        → r.1.config ≡ tc.collection.config
        → IsKeyed b r.1
        → Kept b fmt tc
        → Kept b fmt (after_insert b r (λ tc'. accessed b now p.id (set_tier b p.id hot tc')) tc).1
    unfolding set_tier
    after_insert-Kept now p tc (err e, c) bare plain points config keyed k = record {
      keyed = keyed;
      fits = subst (λ n. WarmFits n tc.warm_storage) (ap (λ x. x.dimension) (sym config)) k.fits;
      stored = k.stored;
      plain_keys = k.plain_keys;
      placed = λ j t hj h open_j.
          HasAt-Same b fmt j t tc (record tc { collection = c })
            (record {
              same_points = ap (Dict.get j) points;
              same_metadata = refl;
              same_offset = refl;
              same_file = refl;
            })
            (k.placed j t hj h open_j);
    }
    after_insert-Kept now p tc (ok tt, c) bare plain points config keyed k =
        let tc' : TieredCollection b =
          accessed b now p.id (set_tier b p.id hot (record tc { collection = c })) in
        let e : c.points ≡ Dict.insert p.id p tc.collection.points =
          points ∙ ap (λ key. Dict.insert key p tc.collection.points) (insert_sorted-key p bare) in
        record {
          keyed = keyed;
          fits =
              subst (λ n. WarmFits n tc.warm_storage) (ap (λ x. x.dimension) (sym config)) k.fits;
          stored = k.stored;
          plain_keys = All-insert p.id hot tc.point_tiers plain k.plain_keys;
          placed =
              PlacedBut-set b fmt p.id hot [] tc tc' refl
                (
                  p,
                  ap (Dict.get p.id) e
                      ∙ get-insert p.id p.id p tc.collection.points
                      ∙ rw (text_eq_refl p.id) refl,
                )
                (λ j hj other. record {
                  same_points =
                      ap (Dict.get j) e ∙ get-insert p.id j p tc.collection.points ∙ rw other refl;
                  same_metadata = refl;
                  same_offset = refl;
                  same_file = refl;
                })
                (PlacedBut-weaken b fmt p.id [] tc k.placed);
        }

    pub insert-Kept :
        (now : ℕ) (p : Point) (tc : TieredCollection b)
        → p.namespace ≡ none
        → IsPlainId p.id
        → Kept b fmt tc
        → Kept b fmt (insert b now p tc).1
    unfolding insert
    insert-Kept now p tc bare plain k =
        after_insert-Kept now p tc (Collection.insert b p tc.collection) bare plain
          (insert-points b p tc.collection).0 (insert-config b p tc.collection)
          (insert-IsKeyed b p tc.collection k.keyed) k

    pub remove-Kept :
        (id : Text) (tc : TieredCollection b)
        → IsPlainId id
        → Kept b fmt tc
        → Kept b fmt (remove b id tc).1
    unfolding remove leave_warm leave_cold
    remove-Kept id tc plain k =
        let (fits, offsets) = shrink tc.collection.config.dimension id tc.warm_storage k.fits in
        record {
          keyed = remove-IsKeyed b id tc.collection k.keyed;
          fits =
              subst (λ n. WarmFits n (map_some (remove_vector id) tc.warm_storage))
                (ap (λ x. x.dimension) (sym (remove-config b id tc.collection))) fits;
          stored = some_kept tc.cold_storage k.stored;
          plain_keys = All-remove id tc.point_tiers k.plain_keys;
          placed =
              PlacedBut-unset b fmt id [] tc (remove b id tc).1 refl
                (λ j hj other. record {
                  same_points =
                      ap (Dict.get j) (remove-points b id tc.collection).0
                      ∙ get-remove id j tc.collection.points
                      ∙ rw other refl;
                  same_metadata = get-remove id j tc.warm_metadata ∙ rw other refl;
                  same_offset =
                      ap (Dict.get j) offsets
                      ∙ get-remove id j (offsets_of tc.warm_storage)
                      ∙ rw other refl;
                  same_file =
                      ap (Dict.get (point_path j)) (removed_files tc.cold_storage)
                      ∙ get-remove (point_path id) (point_path j) (files_of tc.cold_storage)
                      ∙ rw (other_path id j plain hj other) refl;
                })
                k.placed;
        }
      where
        some_kept :
            (cs : Option ColdStorage)
            → is_some cs ≡ true
            → is_some (map_some (remove_point id) cs) ≡ true
        some_kept none h = h
        some_kept (some cs) h = refl

        removed_files :
            (cs : Option ColdStorage)
            → files_of (map_some (remove_point id) cs) ≡ Dict.remove (point_path id) (files_of cs)
        removed_files none = unfold Dict.remove in refl
        removed_files (some cs) = unfold remove_point in refl

    -- What a move to the warm storage asks: a vector for the key is there.
    pub move_to_warm-Kept :
        (id : Text) (p : Point) (o : ℕ) (tc : TieredCollection b)
        → IsPlainId id
        → Dict.get id (offsets_of tc.warm_storage) ≡ some o
        → Kept b fmt tc
        → Kept b fmt (move_to_warm b id p tc)
    unfolding move_to_warm set_tier
    move_to_warm-Kept id p o tc plain there k =
        let (points, config) = remove_data_only-points b id tc.collection in
        record {
          keyed = remove_data_only-IsKeyed b id tc.collection k.keyed;
          fits =
              subst (λ n. WarmFits n tc.warm_storage) (ap (λ x. x.dimension) (sym config)) k.fits;
          stored = k.stored;
          plain_keys = All-insert id warm tc.point_tiers plain k.plain_keys;
          placed =
              PlacedBut-set b fmt id warm [] tc (move_to_warm b id p tc) refl
                (
                  warm_meta p,
                  o,
                  get-insert id id (warm_meta p) tc.warm_metadata ∙ rw (text_eq_refl id) refl,
                  there,
                )
                (λ j hj other. record {
                  same_points =
                      ap (Dict.get j) points ∙ get-remove id j tc.collection.points ∙ rw other refl;
                  same_metadata = get-insert id j (warm_meta p) tc.warm_metadata ∙ rw other refl;
                  same_offset = refl;
                  same_file = refl;
                })
                (PlacedBut-weaken b fmt id [] tc k.placed);
        }

    -- Another vector in the warm storage.
    pub add_vector-Kept :
        (id : Text) (v : Vector) (tc : TieredCollection b)
        → length v ≡ tc.collection.config.dimension
        → Kept b fmt tc
        → Kept b fmt (record tc { warm_storage = map_some (add_vector id v) tc.warm_storage })
    add_vector-Kept id v tc sized k =
        let (fits, (o, offsets)) =
          grow tc.collection.config.dimension id v tc.warm_storage k.fits sized in
        record {
          keyed = k.keyed;
          fits = fits;
          stored = k.stored;
          plain_keys = k.plain_keys;
          placed = λ j t hj h open_j. still o offsets j t (k.placed j t hj h open_j);
        }
      where
        still :
            (o : ℕ)
            → offsets_of (map_some (add_vector id v) tc.warm_storage)
              ≡ Dict.insert id o (offsets_of tc.warm_storage)
            → (j : Text) (t : StorageTier) → HasAt b fmt tc j t
            → HasAt b fmt
                (record tc { warm_storage = map_some (add_vector id v) tc.warm_storage })
                j
                t
        still o offsets j hot h = h
        still o offsets j cold h = h
        still o offsets j warm (m, q, meta, at) = elim (Bool-cases (text_eq id j)) [
          | inl same ↦ (
            m,
            o,
            meta,
            ap (Dict.get j) offsets ∙ get-insert id j o (offsets_of tc.warm_storage) ∙ rw same refl,
          )
          | inr other ↦ (
            m,
            q,
            meta,
            ap (Dict.get j) offsets ∙ get-insert id j o (offsets_of tc.warm_storage) ∙ rw other at,
          )
        ]

    pub demote_to_warm-Kept :
        (id : Text) (tc : TieredCollection b)
        → IsPlainId id
        → Kept b fmt tc
        → Kept b fmt (demote_to_warm b id tc)
    unfolding demote_to_warm
    demote_to_warm-Kept id tc plain k = step (Dict.get id tc.collection.points) refl
      where
        step :
            (o : Option Point)
            → Dict.get id tc.collection.points ≡ o
            → Kept b fmt (warmed b id o tc)
        step none gone = k
        step (some p) there =
            let sized = k.keyed.sized id p there in
            let (fits, (o, offsets)) =
              grow tc.collection.config.dimension id p.vector tc.warm_storage k.fits sized in
            move_to_warm-Kept id p o
              (record tc { warm_storage = map_some (add_vector id p.vector) tc.warm_storage }) plain
              (ap (Dict.get id) offsets ∙ get-insert_new id o (offsets_of tc.warm_storage))
              (add_vector-Kept id p.vector tc sized k)
