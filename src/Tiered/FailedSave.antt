-- ===== src/Tiered/FailedSave.antt =====
-- A write of the cold storage that fails: the demotion of one point keeps it, the batch loses it.
use ferres_db.Base.{
  ℕ, ◌≡◌, refl, ap, ap₂, ◌∙◌, ◌⊎◌, Bool, true, false, Option, none, some, List, [], ◌∷◌, length,
  Bool-cases, inl, inr,
}
use ferres_db.Base.Text.{Text, text_eq, text_eq_refl}
use ferres_db.Base.Dict
use ferres_db.Base.Dict.{get-remove, contains_key}
use ferres_db.Error.{FerresError, Result, ok, err, ◌>>=◌, Result-cases}
use ferres_db.Exec.{resume}
use ferres_db.Point.{Vector}
use ferres_db.Backend.{Backend}
use ferres_db.Snapshot.{Formats}
use ferres_db.Tiered.Warm.{WarmStorage, read_vector, remove_vector}
use ferres_db.Tiered.Layers.{
  TieredCollection, WarmPointMeta, map_some, hydrate_from_warm, hydrate_from_cold, hydrated, found,
  warm_vector, both, saved, demote_to_cold, moved_to_cold, cooled, leave_warm, get_from_any_tier,
  any_tier, cold_or_none,
}
use ferres_db.Tiered.Compaction.{
  Batch, warm_read, with_point, warm_batch, remove_vectors, batch_of, persist_each,
  demote_batch_to_cold, counted,
}

remove_vectors_gone :
    (batch : Batch) (w : WarmStorage) (j : Text)
    → Dict.get j w.offsets ≡ none
    → Dict.get j (remove_vectors batch w).offsets ≡ none
unfolding remove_vectors
remove_vectors_gone [] w j h = h
remove_vectors_gone ((id, p) ∷ batch) w j h = remove_vectors_gone batch (remove_vector id w) j (
    unfold remove_vector in
    (get-remove id j w.offsets
      ∙ elim (Bool-cases (text_eq id j)) [ inl same ↦ rw same refl | inr other ↦ rw other h ]))

module _ (b : Backend) (fmt : Formats) (writable : Text → Bool) where
  module _ (id : Text) (ids : List Text) (tc : TieredCollection b) (w : WarmStorage) (v : Vector)
      (m : WarmPointMeta) where
    -- The state behind the batch that stopped at its first point.
    abbrev lost : TieredCollection b
    lost = record tc {
      warm_storage =
          some (remove_vectors ((id, hydrated id v m) ∷ warm_batch ids w tc.warm_metadata) w);
      warm_metadata = Dict.remove id tc.warm_metadata;
    }

    batch_is :
        tc.warm_storage ≡ some w
        → warm_read id w ≡ some v
        → Dict.get id tc.warm_metadata ≡ some m
        → batch_of (id ∷ ids) tc.warm_storage tc.warm_metadata
          ≡ (id, hydrated id v m) ∷ warm_batch ids w tc.warm_metadata
    unfolding warm_batch
    batch_is is reads meta =
        ap (λ ws. batch_of (id ∷ ids) ws tc.warm_metadata) is
        ∙ ap₂ (λ r o. with_point id r o (warm_batch ids w tc.warm_metadata)) reads meta

    lost_vector : warm_vector id lost.warm_storage ≡ ok none
    unfolding remove_vectors
    lost_vector =
        let gone : Dict.get id (remove_vector id w).offsets ≡ none =
          unfold remove_vector in (get-remove id id w.offsets ∙ rw (text_eq_refl id) refl) in
        rw (remove_vectors_gone (warm_batch ids w tc.warm_metadata) (remove_vector id w) id gone)
          refl

    lost_warm : found b (hydrate_from_warm b id lost) ≡ none
    unfolding hydrate_from_warm
    lost_warm =
        ap
          (λ (r : Result (Option Vector)).
            found b (r >>= λ v. ok (both id v (Dict.get id lost.warm_metadata))))
          lost_vector

    get-lost :
        (now : ℕ)
        → Dict.get id tc.collection.points ≡ none
        → hydrate_from_cold b fmt id tc ≡ none
        → (get_from_any_tier b fmt now id lost).0 ≡ none
    unfolding get_from_any_tier hydrate_from_cold
    get-lost now not_hot not_cold =
        ap₂ (λ o w. (any_tier b fmt now id lost o w).0) not_hot lost_warm
        ∙ ap (λ o. (cold_or_none b now id lost o).0) not_cold

    persisted :
        (e : FerresError) (batch : Batch) (tc' : TieredCollection b)
        → saved fmt writable (hydrated id v m) tc'.cold_storage ≡ err e
        → persist_each b fmt writable ((id, hydrated id v m) ∷ batch) tc'
          ≡ (err e, record tc' { warm_metadata = Dict.remove id tc'.warm_metadata })
    unfolding persist_each
    persisted e batch tc' fails =
        ap
          (λ s.
            resume
              (cooled b id (hydrated id v m) s
                (record tc' { warm_metadata = Dict.remove id tc'.warm_metadata })
                (record tc' { warm_metadata = Dict.remove id tc'.warm_metadata }))
              (λ _. persist_each b fmt writable batch))
          fails

    batch-lost :
        (e : FerresError)
        → tc.warm_storage ≡ some w
        → warm_read id w ≡ some v
        → Dict.get id tc.warm_metadata ≡ some m
        → saved fmt writable (hydrated id v m) tc.cold_storage ≡ err e
        → demote_batch_to_cold b fmt writable (id ∷ ids) tc ≡ (err e, lost)
    unfolding demote_batch_to_cold
    batch-lost e is reads meta fails =
        let rest : Batch = warm_batch ids w tc.warm_metadata in
        let batch : Batch = (id, hydrated id v m) ∷ rest in
        ap₂
          (λ ws (s : Batch). counted b (length s) (
            persist_each b fmt writable s
              (record tc { warm_storage = map_some (remove_vectors s) ws })))
          is (batch_is is reads meta)
        ∙ ap (counted b (length batch))
            (persisted e rest (record tc { warm_storage = some (remove_vectors batch w) }) fails)

    single_kept :
        (e : FerresError)
        → tc.warm_storage ≡ some w
        → warm_read id w ≡ some v
        → Dict.get id tc.warm_metadata ≡ some m
        → saved fmt writable (hydrated id v m) tc.cold_storage ≡ err e
        → demote_to_cold b fmt writable id tc ≡ (err e, tc)
    unfolding demote_to_cold hydrate_from_warm
    single_kept e is reads meta fails =
        ap₂
          (λ (r : Result (Option Vector)) o.
            moved_to_cold b fmt writable id (r >>= λ v. ok (both id v o)) tc)
          (ap (warm_vector id) is
            ∙ read_again (Bool-cases (contains_key id w.offsets)) (Result-cases (read_vector id w)))
          meta
        ∙ ap (λ s. cooled b id (hydrated id v m) s tc (leave_warm b id tc)) fails
      where
        read_again :
            (contains_key id w.offsets ≡ true) ⊎ (contains_key id w.offsets ≡ false)
            → ((u : Vector) × (read_vector id w ≡ ok u))
              ⊎ ((f : FerresError) × (read_vector id w ≡ err f))
            → warm_vector id (some w) ≡ ok (some v)
        read_again (inl there) (inl (u, h)) =
            let e' = rw (there, h) at reads in rw (there, h) (ap (λ o. ok o) e')
        read_again (inl there) (inr (f, h)) = absurd (let e' = rw (there, h) at reads in cc)
        read_again (inr gone) r = absurd (let e' = rw gone at reads in cc)

    -- When the write of a point fails, its demotion alone is an error and changes nothing, and the
    -- batch that begins with it is the same error and loses it: the point is in no tier behind it.
    pub demote_batch_loses :
        (e : FerresError) (now : ℕ)
        → tc.warm_storage ≡ some w
        → warm_read id w ≡ some v
        → Dict.get id tc.warm_metadata ≡ some m
        → Dict.get id tc.collection.points ≡ none
        → hydrate_from_cold b fmt id tc ≡ none
        → saved fmt writable (hydrated id v m) tc.cold_storage ≡ err e
        → (demote_to_cold b fmt writable id tc ≡ (err e, tc))
          × ((demote_batch_to_cold b fmt writable (id ∷ ids) tc).0 ≡ err e)
          × ((get_from_any_tier b fmt now id
                (demote_batch_to_cold b fmt writable (id ∷ ids) tc).1).0
              ≡ none)
    demote_batch_loses e now is reads meta not_hot not_cold fails =
        let stops = batch-lost e is reads meta fails in
        (
          single_kept e is reads meta fails,
          ap (λ r. r.0) stops,
          ap (λ r. (get_from_any_tier b fmt now id r.1).0) stops ∙ get-lost now not_hot not_cold,
        )
