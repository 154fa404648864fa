-- ===== src/Tiered/Compaction.antt =====
-- `run_compaction` of `TieredCollection` (crates/core/src/tiered.rs): the points whose tier has grown
-- too hot move in two batches, first to the warm storage and then to the cold one.
use ferres_db.Base.{ℕ, ◌+◌, ◌*◌, Bool, Option, none, some, List, [], ◌∷◌, length, if◌then◌else◌}
use ferres_db.Base.Text.{Text}
use ferres_db.Base.Dict
use ferres_db.Base.Dict.{Dict, contains_key}
use ferres_db.Error.{Result, ok, err}
use ferres_db.Exec.{Exec, ◌>>◌, pure}
use ferres_db.Point.{Point, Vector}
use ferres_db.Backend.{Backend}
use ferres_db.Snapshot.{Formats}
use ferres_db.Tiered.{StorageTier, hot, warm, cold, points_to_demote_at}
use ferres_db.Tiered.Warm.{WarmStorage, add_vector, read_vector, remove_vector}
use ferres_db.Tiered.Cold.{save_point}
use ferres_db.Tiered.Layers.{
  TieredCollection, WarmPointMeta, map_some, hydrated, saved, move_to_warm, settle_cold, cooled,
}

-- A batch: keys with their points.
abbrev pub Batch : Type 0
Batch = List (Text × Point)

pub record CompactionResult : Type 0 where
  pub demoted_to_warm : ℕ
  pub demoted_to_cold : ℕ
  pub total_changes : ℕ

pub record TierDistribution : Type 0 where
  pub hot_points : ℕ
  pub warm_points : ℕ
  pub cold_points : ℕ
  pub hot_memory_bytes : ℕ
  pub warm_memory_bytes : ℕ
  pub cold_memory_bytes : ℕ

-- The points of the ids that the collection has.
unfoldable pub hot_batch : List Text → Dict Point → Batch
hot_batch [] points = []
hot_batch (id ∷ ids) points = elim (Dict.get id points) [
  | none ↦ hot_batch ids points
  | some p ↦ (id, p) ∷ hot_batch ids points
]

unfoldable pub add_vectors : Batch → WarmStorage → WarmStorage
unfolding add_vector
add_vectors [] ws = ws
add_vectors ((id, p) ∷ batch) ws = add_vectors batch (add_vector id p.vector ws)

-- `ws.read_vector(id)`, when the storage has the id and the read succeeds.
abbrev pub warm_read : Text → WarmStorage → Option Vector
warm_read id ws =
    if contains_key id ws.offsets
    then (elim (read_vector id ws) [ ok v ↦ some v | err e ↦ none ])
    else none

abbrev pub with_point : Text → Option Vector → Option WarmPointMeta → Batch → Batch
with_point id (some v) (some m) batch = (id, hydrated id v m) ∷ batch
with_point id (some v) none batch = batch
with_point id none m batch = batch

-- The points of the ids that the warm storage has and can read.
unfoldable pub warm_batch : List Text → WarmStorage → Dict WarmPointMeta → Batch
unfolding hydrated read_vector
warm_batch [] ws metadata = []
warm_batch (id ∷ ids) ws metadata =
    with_point id (warm_read id ws) (Dict.get id metadata) (warm_batch ids ws metadata)

unfoldable pub remove_vectors : Batch → WarmStorage → WarmStorage
unfolding remove_vector
remove_vectors [] ws = ws
remove_vectors ((id, p) ∷ batch) ws = remove_vectors batch (remove_vector id ws)

abbrev pub batch_of : List Text → Option WarmStorage → Dict WarmPointMeta → Batch
batch_of ids none metadata = []
batch_of ids (some ws) metadata = warm_batch ids ws metadata

-- The match on the current and on the ideal tier.
abbrev pub if_warmed : Option StorageTier → StorageTier → Text → List Text → List Text
if_warmed (some hot) warm id others = id ∷ others
if_warmed (some hot) cold id others = id ∷ others
if_warmed (some hot) hot id others = others
if_warmed (some warm) ideal id others = others
if_warmed (some cold) ideal id others = others
if_warmed none ideal id others = others

-- The ids that go to the warm storage, also those that go on to the cold one.
unfoldable pub to_warm_ids : Dict StorageTier → Dict StorageTier → List Text
to_warm_ids tiers [] = []
to_warm_ids tiers ((id, ideal) ∷ changes) =
    if_warmed (Dict.get id tiers) ideal id (to_warm_ids tiers changes)

unfoldable pub to_cold_ids : Dict StorageTier → List Text
to_cold_ids [] = []
to_cold_ids ((id, ideal) ∷ changes) =
    let others = to_cold_ids changes in
    elim ideal [ hot ↦ others | warm ↦ others | cold ↦ id ∷ others ]

unfoldable pub count_tier : StorageTier → Dict StorageTier → ℕ
count_tier tier [] = 0
count_tier hot ((id, hot) ∷ tiers) = count_tier hot tiers + 1
count_tier warm ((id, warm) ∷ tiers) = count_tier warm tiers + 1
count_tier cold ((id, cold) ∷ tiers) = count_tier cold tiers + 1
count_tier tier ((id, other) ∷ tiers) = count_tier tier tiers

module _ (b : Backend) where
  unfoldable pub move_each : Batch → TieredCollection b → TieredCollection b
  unfolding move_to_warm
  move_each [] tc = tc
  move_each ((id, p) ∷ batch) tc = move_each batch (move_to_warm b id p tc)

  unfoldable pub demote_batch_to_warm :
      List Text → TieredCollection b → Result ℕ × TieredCollection b
  unfolding hot_batch add_vectors move_each
  demote_batch_to_warm ids tc =
      let batch : Batch = hot_batch ids tc.collection.points in
      (
        ok (length batch),
        move_each batch (record tc { warm_storage = map_some (add_vectors batch) tc.warm_storage }),
      )

  abbrev pub persist_one :
      Formats → (Text → Bool) → Text → Point → Exec (TieredCollection b) (Unit {0})
  persist_one fmt writable id p tc =
      let tc' : TieredCollection b = record tc {
        warm_metadata = Dict.remove id tc.warm_metadata;
      } in
      cooled b id p (saved fmt writable p tc.cold_storage) tc' tc'

  unfoldable pub persist_each :
      Formats → (Text → Bool) → Batch → Exec (TieredCollection b) (Unit {0})
  unfolding save_point settle_cold
  persist_each fmt writable [] = pure tt
  persist_each fmt writable ((id, p) ∷ batch) =
      persist_one fmt writable id p >> persist_each fmt writable batch

  abbrev pub counted : ℕ → Result (Unit {0}) × TieredCollection b → Result ℕ × TieredCollection b
  counted n (ok u, tc) = (ok n, tc)
  counted n (err e, tc) = (err e, tc)

  -- All vectors of the batch leave the warm storage before the first point is saved.
  unfoldable pub demote_batch_to_cold :
      Formats → (Text → Bool) → List Text → TieredCollection b → Result ℕ × TieredCollection b
  unfolding warm_batch remove_vectors persist_each
  demote_batch_to_cold fmt writable ids tc =
      let batch : Batch = batch_of ids tc.warm_storage tc.warm_metadata in
      counted (length batch) (
        persist_each fmt writable batch
          (record tc { warm_storage = map_some (remove_vectors batch) tc.warm_storage }))

  abbrev pub compacted :
      ℕ → ℕ → Result ℕ × TieredCollection b → Result CompactionResult × TieredCollection b
  compacted total warmed (ok cooled, tc) = (
    ok (record { demoted_to_warm = warmed; demoted_to_cold = cooled; total_changes = total }),
    tc,
  )
  compacted total warmed (err e, tc) = (err e, tc)

  abbrev pub then_to_cold :
      Formats
      → (Text → Bool)
      → Dict StorageTier
      → Result ℕ × TieredCollection b
      → Result CompactionResult × TieredCollection b
  then_to_cold fmt writable changes (err e, tc) = (err e, tc)
  then_to_cold fmt writable changes (ok warmed, tc) =
      compacted (length changes) warmed (demote_batch_to_cold fmt writable (to_cold_ids changes) tc)

  unfoldable pub run_compaction :
      Formats
      → (Text → Bool)
      → ℕ
      → TieredCollection b
      → Result CompactionResult × TieredCollection b
  unfolding points_to_demote_at to_warm_ids to_cold_ids demote_batch_to_warm demote_batch_to_cold
  run_compaction fmt writable now tc =
      let changes : Dict StorageTier =
        points_to_demote_at tc.config tc.point_tiers now tc.access_tracker in
      if tc.config.enabled
      then then_to_cold fmt writable changes
          (demote_batch_to_warm (to_warm_ids tc.point_tiers changes) tc)
      else (ok (record { demoted_to_warm = 0; demoted_to_cold = 0; total_changes = 0 }), tc)

  unfoldable pub tier_distribution : TieredCollection b → TierDistribution
  unfolding count_tier
  tier_distribution tc =
      let hots : ℕ = count_tier hot tc.point_tiers in
      let warms : ℕ = count_tier warm tc.point_tiers in
      let colds : ℕ = count_tier cold tc.point_tiers in
      record {
        hot_points = hots;
        warm_points = warms;
        cold_points = colds;
        hot_memory_bytes = hots * (tc.collection.config.dimension * 4 + 200 + 128);
        warm_memory_bytes = warms * (200 + 64);
        cold_memory_bytes = colds * 64;
      }
