-- ===== src/Tiered/Cooling.antt =====
-- The tiers that a compaction gives.
use ferres_db.Base.{
  ℕ, ◌-◌, ◌/◌, ◌≤◌, ◌≡◌, refl, sym, ap, ◌∙◌, Bool, true, false, Option, none, some, [], ◌∷◌, ltb,
  arith, if◌then◌else◌, Option-cases, Bool-cases, inl, inr,
}
use ferres_db.Base.Text.{Text, text_eq, text_eq_iff}
use ferres_db.Base.Dict
use ferres_db.Base.Dict.{Dict, IsDistinct, get-insert}
use ferres_db.Tiered.{
  StorageTier, hot, warm, cold, TieredStorageConfig, AccessTracker, get_tier_at_from_last_access,
  get_tier_at, should_demote, points_to_demote_at,
}

-- How far from memory a tier is.
abbrev pub level : StorageTier → ℕ
level hot = 0
level warm = 1
level cold = 2

-- As time goes by a point that is not accessed only gets colder.
pub get_tier_at-later :
    (id : Text) (config : TieredStorageConfig) (now later : ℕ) (t : AccessTracker)
    → now ≤ later
    → level (get_tier_at id config now t) ≤ level (get_tier_at id config later t)
unfolding get_tier_at get_tier_at_from_last_access
get_tier_at-later id config now later t h = elim (Option-cases (Dict.get id t.last_access)) [
  | inl never ↦ rw never (omega arith)
  | inr (last, at) ↦
      let hours : (now - last) / 3600 ≤ (later - last) / 3600 = omega arith in rw at (ground arith)
]

should_demote_lem : (s t : StorageTier) → should_demote s t ≡ ltb (level s) (level t)
unfolding should_demote
should_demote_lem hot hot = refl
should_demote_lem hot warm = refl
should_demote_lem hot cold = refl
should_demote_lem warm hot = refl
should_demote_lem warm warm = refl
should_demote_lem warm cold = refl
should_demote_lem cold hot = refl
should_demote_lem cold warm = refl
should_demote_lem cold cold = refl

-- The change of one point, if it is to be moved.
abbrev pub demotion : StorageTier → StorageTier → Option StorageTier
demotion current ideal = if ltb (level current) (level ideal) then some ideal else none

get_listed :
    (j id : Text) (current ideal : StorageTier) (d : Dict StorageTier)
    → text_eq j id ≡ true
    → Dict.get id d ≡ none
    → Dict.get id (if ltb (level current) (level ideal) then (j, ideal) ∷ d else d)
      ≡ demotion current ideal
unfolding Dict.get
get_listed j id current ideal d same gone = ground arith

get_unlisted :
    (j id : Text) (t : Bool) (ideal : StorageTier) (d : Dict StorageTier)
    → text_eq j id ≡ false
    → Dict.get id (if t then (j, ideal) ∷ d else d) ≡ Dict.get id d
unfolding Dict.get
get_unlisted j id true ideal d other = rw other refl
get_unlisted j id false ideal d other = refl

-- The points that are listed for demotion are those whose ideal tier is colder than the tier that
-- they are in, each with its ideal tier.
pub get-points_to_demote_at :
    (id : Text) (config : TieredStorageConfig) (tiers : Dict StorageTier) (now : ℕ)
    (t : AccessTracker)
    → IsDistinct tiers
    → Dict.get id (points_to_demote_at config tiers now t) ≡ elim (Dict.get id tiers) [
      | none ↦ none
      | some current ↦ demotion current (get_tier_at id config now t)
    ]
unfolding points_to_demote_at Dict.get
get-points_to_demote_at id config [] now t h = refl
get-points_to_demote_at id config ((j, current) ∷ rest) now t (h, hs) =
    let others : Dict StorageTier = points_to_demote_at config rest now t in
    let ideal : StorageTier = get_tier_at j config now t in
    rw (should_demote_lem current ideal) (elim (Bool-cases (text_eq j id)) [
      | inl same ↦
          (let e : j ≡ id = (text_eq_iff j id).0 same in
            let gone : Dict.get id rest ≡ none = ap (λ k. Dict.get k rest) (sym e) ∙ h in
            rw same (
              get_listed j id current ideal others same
                (get-points_to_demote_at id config rest now t hs ∙ rw gone refl)
              ∙ ap (λ k. demotion current (get_tier_at k config now t)) e))
      | inr other ↦ rw other (
          get_unlisted j id (ltb (level current) (level ideal)) ideal others other
          ∙ get-points_to_demote_at id config rest now t hs)
    ])
