-- ===== src/Tiered/Metadata.antt =====
-- `TierMetadata` (crates/core/src/tiered.rs): what a tiered collection keeps of its tiers.
use ferres_db.Base.{ℕ, none, some, [], ◌∷◌, ltb, unwrap_or, if◌then◌else◌}
use ferres_db.Base.Dict
use ferres_db.Base.Dict.{Dict}
use ferres_db.Backend.{Backend}
use ferres_db.Tiered.{StorageTier}
use ferres_db.Tiered.Layers.{TieredCollection}

pub record TierMetadata : Type 0 where
  pub point_tiers : Dict StorageTier
  pub last_access : Dict ℕ
  pub access_count : Dict ℕ

-- The accesses and the counts of the ids that have a tier; a count of 0 is left out.
unfoldable pub accesses_of : Dict StorageTier → Dict ℕ → Dict ℕ
accesses_of [] last_access = []
accesses_of ((id, tier) ∷ tiers) last_access =
    let rest = accesses_of tiers last_access in
    elim (Dict.get id last_access) [ none ↦ rest | some ts ↦ Dict.insert id ts rest ]

unfoldable pub counts_of : Dict StorageTier → Dict ℕ → Dict ℕ
counts_of [] access_count = []
counts_of ((id, tier) ∷ tiers) access_count =
    let rest = counts_of tiers access_count in
    let count : ℕ = unwrap_or (Dict.get id access_count) 0 in
    if ltb 0 count then Dict.insert id count rest else rest

module _ (b : Backend) where
  unfoldable pub from_tiered_collection : TieredCollection b → TierMetadata
  unfolding accesses_of counts_of
  from_tiered_collection tc = record {
    point_tiers = tc.point_tiers;
    last_access = accesses_of tc.point_tiers tc.access_tracker.last_access;
    access_count = counts_of tc.point_tiers tc.access_tracker.access_count;
  }
