-- ===== src/Tiered/KeptRuns.antt =====
-- Runs of a tiered collection: no point is lost on its way through the tiers.
use ferres_db.Base.{ℕ, ◌≡◌, refl, Bool, true, Option, none, some, List, [], ◌∷◌, All}
use ferres_db.Base.Text.{Text}
use ferres_db.Base.Dict
use ferres_db.Base.Dict.{get-remove}
use ferres_db.Error.{is_ok}
use ferres_db.Point.{Point}
use ferres_db.Backend.{Backend}
use ferres_db.Snapshot.{Formats}
use ferres_db.Tiered.{StorageTier}
use ferres_db.Tiered.Layers.{
  TieredCollection, hydrate_from_warm, hydrate_from_cold, found, insert, remove, demote_to_warm,
  demote_to_cold, get_from_any_tier, any_tier, accessed,
}
use ferres_db.Tiered.Compaction.{run_compaction}
use ferres_db.Tiered.Kept.{IsPlainId, IsReadableAt, Kept, get-Kept}
use ferres_db.Tiered.KeptSteps.{insert-Kept, remove-Kept, demote_to_warm-Kept}
use ferres_db.Tiered.KeptCold.{demote_to_cold-Kept}
use ferres_db.Tiered.KeptBatches.{run_compaction-Kept}

-- The calls on a tiered collection, but for the promotion and the search.
pub data TierCall : Type 0 where
  inserts : ℕ → Point → TierCall
  removes cools warms : Text → TierCall
  reads : ℕ → Text → TierCall
  compacts : ℕ → TierCall

-- Points without a namespace, and plain ids.
abbrev pub IsPlainCall : TierCall → Type 0
IsPlainCall (inserts now p) = (p.namespace ≡ none) × IsPlainId p.id
IsPlainCall (removes id) = IsPlainId id
IsPlainCall (cools id) = IsPlainId id
IsPlainCall (warms id) = IsPlainId id
IsPlainCall (reads now id) = Unit
IsPlainCall (compacts now) = Unit

module _ (b : Backend) (fmt : Formats) (writable : Text → Bool) where
  abbrev pub step : TieredCollection b → TierCall → TieredCollection b
  step tc (inserts now p) = (insert b now p tc).1
  step tc (removes id) = (remove b id tc).1
  step tc (cools id) = (demote_to_cold b fmt writable id tc).1
  step tc (warms id) = demote_to_warm b id tc
  step tc (reads now id) = (get_from_any_tier b fmt now id tc).1
  step tc (compacts now) = (run_compaction b fmt writable now tc).1

  abbrev pub run : TieredCollection b → List TierCall → TieredCollection b
  run tc [] = tc
  run tc (call ∷ calls) = run (step tc call) calls

  -- Every compaction of a run succeeds.
  abbrev pub Compacts : TieredCollection b → TierCall → Type 0
  Compacts tc (inserts now p) = Unit
  Compacts tc (removes id) = Unit
  Compacts tc (cools id) = Unit
  Compacts tc (warms id) = Unit
  Compacts tc (reads now id) = Unit
  Compacts tc (compacts now) = is_ok (run_compaction b fmt writable now tc).0 ≡ true

  abbrev pub CompactAlong : TieredCollection b → List TierCall → Type 0
  CompactAlong tc [] = Unit
  CompactAlong tc (call ∷ calls) = Compacts tc call × CompactAlong (step tc call) calls

  accessed-Kept :
      (now : ℕ) (id : Text) (tc : TieredCollection b)
      → Kept b fmt tc
      → Kept b fmt (accessed b now id tc)
  accessed-Kept now id tc k = record {
    keyed = k.keyed;
    fits = k.fits;
    stored = k.stored;
    plain_keys = k.plain_keys;
    placed = λ j t hj h open_j. k.placed j t hj h open_j;
  }

  any_tier-Kept :
      (now : ℕ) (id : Text) (tc : TieredCollection b) (o w c : Option Point)
      → hydrate_from_cold b fmt id tc ≡ c
      → Kept b fmt tc
      → Kept b fmt (any_tier b fmt now id tc o w).1
  any_tier-Kept now id tc (some p) w c h k = k
  any_tier-Kept now id tc none (some p) c h k = accessed-Kept now id tc k
  any_tier-Kept now id tc none none none h k = rw h k
  any_tier-Kept now id tc none none (some p) h k = rw h (accessed-Kept now id tc k)

  step-Kept :
      (tc : TieredCollection b) (call : TierCall)
      → Compacts tc call
      → IsPlainCall call
      → Kept b fmt tc
      → Kept b fmt (step tc call)
  step-Kept tc (inserts now p) done (bare, plain) k = insert-Kept b fmt now p tc bare plain k
  step-Kept tc (removes id) done plain k = remove-Kept b fmt id tc plain k
  step-Kept tc (cools id) done plain k = demote_to_cold-Kept b fmt writable id tc plain k
  step-Kept tc (warms id) done plain k = demote_to_warm-Kept b fmt id tc plain k
  step-Kept tc (reads now id) done plain k =
      unfold get_from_any_tier in
      any_tier-Kept now id tc (Dict.get id tc.collection.points)
        (found b (hydrate_from_warm b id tc)) (hydrate_from_cold b fmt id tc) refl k
  step-Kept tc (compacts now) done plain k = run_compaction-Kept b fmt writable now tc done k

  pub run-Kept :
      (calls : List TierCall) (tc : TieredCollection b)
      → CompactAlong tc calls
      → All IsPlainCall calls
      → Kept b fmt tc
      → Kept b fmt (run tc calls)
  run-Kept [] tc done plain k = k
  run-Kept (call ∷ calls) tc (now_done, done) (plain, plains) k =
      run-Kept calls (step tc call) done plains (step-Kept tc call now_done plain k)

  -- From a state in which every key with a tier has its point there, whatever insertions, removals,
  -- demotions, compactions and reads of plain ids and of points without a namespace are made, where
  -- every compaction succeeds (a single demotion may fail): a plain key that has a tier has a point,
  -- which `get_from_any_tier` finds, if the cold file of the key, where there is one, can be parsed.
  pub get-run :
      (calls : List TierCall) (tc : TieredCollection b) (now : ℕ) (j : Text) (t : StorageTier)
      → CompactAlong tc calls
      → All IsPlainCall calls
      → Kept b fmt tc
      → IsPlainId j
      → Dict.get j (run tc calls).point_tiers ≡ some t
      → IsReadableAt b fmt j (run tc calls)
      → (p : Point) × ((get_from_any_tier b fmt now j (run tc calls)).0 ≡ some p)
  get-run calls tc now j t done plains k plain h readable =
      get-Kept b fmt now j t (run tc calls) (run-Kept calls tc done plains k) plain h readable
