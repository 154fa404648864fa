-- ===== src/Tiered/BatchKeys.antt =====
-- What the batches of a compaction hold, and what they do to the warm storage.
use ferres_db.Base.{
  ℕ, ◌*◌, ◌≡◌, refl, sym, ap, ◌∙◌, subst, false, Option, none, some, List, [], ◌∷◌, arith, All, inl,
  inr, Bool-cases, Option-cases, length,
}
use ferres_db.Base.Text.{Text, text_eq}
use ferres_db.Base.Dict
use ferres_db.Base.Dict.{Dict, get-insert, get-remove}
use ferres_db.Point.{Point, Vector}
use ferres_db.Tiered.{
  StorageTier, hot, warm, cold, points_to_demote_at, TieredStorageConfig, AccessTracker,
  should_demote, get_tier_at,
}
use ferres_db.Tiered.Warm.{WarmStorage, add_vector, remove_vector}
use ferres_db.Tiered.WarmReads.{get-insert_new}
use ferres_db.Tiered.WarmFits.{Fits, add_vector-Fits, remove_vector-Fits}
use ferres_db.Tiered.Layers.{WarmPointMeta, hydrated}
use ferres_db.Tiered.Compaction.{
  Batch, hot_batch, add_vectors, warm_read, with_point, warm_batch, remove_vectors, if_warmed,
  to_warm_ids, to_cold_ids,
}
use ferres_db.Tiered.Kept.{IsPlainId, pends}
use ferres_db.Tiered.KeptKeys.{parse_plain}

abbrev pub ids_of : Batch → List Text
ids_of [] = []
ids_of ((id, p) ∷ batch) = id ∷ ids_of batch

pub hot_batch-All :
    (ids : List Text) (points : Dict Point)
    → All IsPlainId ids
    → All (λ e. (Dict.get e.0 points ≡ some e.1) × IsPlainId e.0) (hot_batch ids points)
unfolding hot_batch
hot_batch-All [] points h = tt
hot_batch-All (id ∷ ids) points (h, hs) = elim (Option-cases (Dict.get id points)) [
  | inl gone ↦ rw (gone, hot_batch) (hot_batch-All ids points hs)
  | inr (p, there) ↦ rw (there, hot_batch) ((there, h), hot_batch-All ids points hs)
]

pub add_vectors-Fits :
    (batch : Batch) (w : WarmStorage)
    → Fits w
    → All (λ e. length e.1.vector ≡ w.dimension) batch
    → Fits (add_vectors batch w) × ((add_vectors batch w).dimension ≡ w.dimension)
unfolding add_vectors
add_vectors-Fits [] w f h = (f, refl)
add_vectors-Fits ((id, p) ∷ batch) w f (h, hs) =
    let (f', offsets, kept) = add_vector-Fits id p.vector w f h in
    let (g, same) =
      add_vectors-Fits batch (add_vector id p.vector w) f'
        (subst (λ n. All (λ e. length e.1.vector ≡ n) batch) (sym kept) hs) in
    (g, same ∙ kept)

pub add_vectors_found :
    (batch : Batch) (w : WarmStorage) (j : Text) (o : ℕ)
    → Fits w
    → All (λ e. length e.1.vector ≡ w.dimension) batch
    → Dict.get j w.offsets ≡ some o
    → (q : ℕ) × (Dict.get j (add_vectors batch w).offsets ≡ some q)
unfolding add_vectors
add_vectors_found [] w j o f h at = (o, at)
add_vectors_found ((id, p) ∷ batch) w j o f (h, hs) at =
    let (f', offsets, kept) = add_vector-Fits id p.vector w f h in
    let sized = subst (λ n. All (λ e. length e.1.vector ≡ n) batch) (sym kept) hs in
    let n : ℕ = length w.offsets * w.dimension * 4 in
    let e = ap (Dict.get j) offsets ∙ get-insert id j n w.offsets in
    elim (Bool-cases (text_eq id j)) [
      | inl same ↦
          add_vectors_found batch (add_vector id p.vector w) j n f' sized (e ∙ rw same refl)
      | inr other ↦
          add_vectors_found batch (add_vector id p.vector w) j o f' sized (e ∙ rw other at)
    ]

pub add_vectors-All :
    (batch : Batch) (w : WarmStorage)
    → Fits w
    → All (λ e. length e.1.vector ≡ w.dimension) batch
    → All (λ e. (q : ℕ) × (Dict.get e.0 (add_vectors batch w).offsets ≡ some q)) batch
unfolding add_vectors
add_vectors-All [] w f h = tt
add_vectors-All ((id, p) ∷ batch) w f (h, hs) =
    let (f', offsets, kept) = add_vector-Fits id p.vector w f h in
    let sized = subst (λ n. All (λ e. length e.1.vector ≡ n) batch) (sym kept) hs in
    let n : ℕ = length w.offsets * w.dimension * 4 in
    (
      add_vectors_found batch (add_vector id p.vector w) id n f' sized
          (ap (Dict.get id) offsets ∙ get-insert_new id n w.offsets),
      add_vectors-All batch (add_vector id p.vector w) f' sized,
    )

pub remove_vectors-Fits :
    (batch : Batch) (w : WarmStorage)
    → Fits w
    → Fits (remove_vectors batch w) × ((remove_vectors batch w).dimension ≡ w.dimension)
unfolding remove_vectors
remove_vectors-Fits [] w f = (f, refl)
remove_vectors-Fits ((id, p) ∷ batch) w f =
    let (g, same) = remove_vectors-Fits batch (remove_vector id w) (remove_vector-Fits id w f) in
    (g, same ∙ unfold remove_vector in refl)

pub get-remove_vectors :
    (batch : Batch) (w : WarmStorage) (j : Text)
    → pends j (ids_of batch) ≡ false
    → Dict.get j (remove_vectors batch w).offsets ≡ Dict.get j w.offsets
unfolding remove_vectors
get-remove_vectors [] w j h = refl
get-remove_vectors ((id, p) ∷ batch) w j h =
    let other : text_eq id j ≡ false = ground arith in
    get-remove_vectors batch (remove_vector id w) j (ground arith)
    ∙ (unfold remove_vector in (get-remove id j w.offsets ∙ rw other refl))

-- The elements of a cold batch have the id of their key.
abbrev pub IsOwn : Text × Point → Type 0
IsOwn (id, p) = IsPlainId id × (p.id ≡ id)

with_point-All :
    (id : Text) (v : Option Vector) (m : Option WarmPointMeta) (batch : Batch)
    → IsPlainId id
    → All IsOwn batch
    → All IsOwn (with_point id v m batch)
unfolding hydrated
with_point-All id none m batch h hs = hs
with_point-All id (some v) none batch h hs = hs
with_point-All id (some v) (some m) batch h hs =
    ((h, ap (λ (k : Option Text × Text). k.1) (parse_plain id h)), hs)

pub warm_batch-All :
    (ids : List Text) (w : WarmStorage) (metadata : Dict WarmPointMeta)
    → All IsPlainId ids
    → All IsOwn (warm_batch ids w metadata)
unfolding warm_batch
warm_batch-All [] w metadata h = tt
warm_batch-All (id ∷ ids) w metadata (h, hs) =
    with_point-All id (warm_read id w) (Dict.get id metadata) (warm_batch ids w metadata) h
      (warm_batch-All ids w metadata hs)

abbrev pub PlainKeys : Dict StorageTier → Type 0
PlainKeys d = All (λ e. IsPlainId e.0) d

pub points_to_demote-PlainKeys :
    (config : TieredStorageConfig) (tiers : Dict StorageTier) (now : ℕ) (t : AccessTracker)
    → PlainKeys tiers
    → PlainKeys (points_to_demote_at config tiers now t)
unfolding points_to_demote_at
points_to_demote-PlainKeys config [] now t h = tt
points_to_demote-PlainKeys config ((id, current) ∷ rest) now t (h, hs) =
    elim (Bool-cases (should_demote current (get_tier_at id config now t))) [
      | inl moves ↦
          rw (moves, points_to_demote_at) (h, points_to_demote-PlainKeys config rest now t hs)
      | inr stays ↦
          rw (stays, points_to_demote_at) (points_to_demote-PlainKeys config rest now t hs)
    ]

pub to_cold_ids-All :
    (changes : Dict StorageTier) → PlainKeys changes → All IsPlainId (to_cold_ids changes)
unfolding to_cold_ids
to_cold_ids-All [] h = tt
to_cold_ids-All ((id, hot) ∷ changes) (h, hs) = to_cold_ids-All changes hs
to_cold_ids-All ((id, warm) ∷ changes) (h, hs) = to_cold_ids-All changes hs
to_cold_ids-All ((id, cold) ∷ changes) (h, hs) = (h, to_cold_ids-All changes hs)

if_warmed-All :
    (o : Option StorageTier) (ideal : StorageTier) (id : Text) (others : List Text)
    → IsPlainId id
    → All IsPlainId others
    → All IsPlainId (if_warmed o ideal id others)
if_warmed-All none ideal id others h hs = hs
if_warmed-All (some hot) hot id others h hs = hs
if_warmed-All (some hot) warm id others h hs = (h, hs)
if_warmed-All (some hot) cold id others h hs = (h, hs)
if_warmed-All (some warm) ideal id others h hs = hs
if_warmed-All (some cold) ideal id others h hs = hs

pub to_warm_ids-All :
    (tiers changes : Dict StorageTier)
    → PlainKeys changes
    → All IsPlainId (to_warm_ids tiers changes)
unfolding to_warm_ids
to_warm_ids-All tiers [] h = tt
to_warm_ids-All tiers ((id, ideal) ∷ changes) (h, hs) =
    if_warmed-All (Dict.get id tiers) ideal id (to_warm_ids tiers changes) h
      (to_warm_ids-All tiers changes hs)
