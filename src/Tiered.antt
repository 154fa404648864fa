-- ===== src/Tiered.antt =====
-- Tiered storage (crates/core/src/tiered.rs): the tier that the last access gives, and what a
-- compaction moves.
pub mod Warm
pub mod Cold
pub mod Layers
pub mod Compaction
pub mod Repack
pub mod Metadata
pub mod WarmFits
pub mod ColdPaths
pub mod Kept
pub mod KeptKeys
pub mod KeptSteps
pub mod KeptCold
pub mod BatchKeys
pub mod KeptBatches
pub mod KeptRuns
pub mod FailedSave
pub mod Cooling
pub mod WarmReads
use ferres_db.Base.{
  ℕ, ◌+◌, ◌-◌, ◌*◌, ◌/◌, Bool, true, false, not, ◌&&◌, Option, none, some, List, [], ◌∷◌, ltb,
  unwrap_or, if◌then◌else◌,
}
use ferres_db.Base.Text.{Text}
use ferres_db.Base.Dict
use ferres_db.Base.Dict.{Dict}

pub data StorageTier : Type 0 where
  hot warm cold : StorageTier

pub record TieredStorageConfig : Type 0 where
  pub enabled : Bool
  pub hot_threshold_hours : ℕ
  pub warm_threshold_hours : ℕ

pub record AccessTracker : Type 0 where
  pub last_access : Dict ℕ
  pub access_count : Dict ℕ

unfoldable pub record_access_at : Text → ℕ → AccessTracker → AccessTracker
record_access_at id timestamp t = record {
  last_access = Dict.insert id timestamp t.last_access;
  access_count = Dict.insert id (unwrap_or (Dict.get id t.access_count) 0 + 1) t.access_count;
}

-- `get_tier_at_from_last_access`, which `get_tier_at` repeats.
unfoldable pub get_tier_at_from_last_access : Option ℕ → TieredStorageConfig → ℕ → StorageTier
get_tier_at_from_last_access none config now = cold
get_tier_at_from_last_access (some last) config now =
    let hours_since : ℕ = (now - last) / 3600 in
    if ltb hours_since config.hot_threshold_hours
    then hot
    else if ltb hours_since config.warm_threshold_hours
    then warm
    else cold

unfoldable pub get_tier_at : Text → TieredStorageConfig → ℕ → AccessTracker → StorageTier
unfolding get_tier_at_from_last_access
get_tier_at id config now t = get_tier_at_from_last_access (Dict.get id t.last_access) config now

unfoldable pub should_demote : StorageTier → StorageTier → Bool
should_demote hot warm = true
should_demote hot cold = true
should_demote warm cold = true
should_demote _ _ = false

-- `points_to_demote_at`; the compaction computes the same list.
unfoldable pub points_to_demote_at :
    TieredStorageConfig → Dict StorageTier → ℕ → AccessTracker → Dict StorageTier
unfolding get_tier_at should_demote
points_to_demote_at config [] now t = []
points_to_demote_at config ((id, current) ∷ rest) now t =
    let others = points_to_demote_at config rest now t in
    let ideal : StorageTier = get_tier_at id config now t in
    if should_demote current ideal then (id, ideal) ∷ others else others
