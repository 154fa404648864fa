-- ===== src/Tiered/Kept.antt =====
-- Every key with a tier has its point in that tier.
use ferres_db.Base.{
  ℕ, ◌<◌, ◌≡◌, refl, sym, ap, ap₂, ◌∙◌, subst, Bool, true, false, Option, none, some, List, [], ◌∷◌,
  arith, All, ◌⊎◌, inl, inr, Bool-cases, if◌then◌else◌, is_some,
}
use ferres_db.Base.Text.{Text, text_eq, text_eq_iff}
use ferres_db.Base.Utf8.{IsScalar}
use ferres_db.Base.Dict
use ferres_db.Base.Dict.{Dict, get-insert, get-remove}
use ferres_db.Error.{ok, ◌>>=◌}
use ferres_db.Point.{Point, Vector}
use ferres_db.Point.StorageId.{IsNulFree}
use ferres_db.Backend.{Backend}
use ferres_db.Collection.Keyed.{IsKeyed}
use ferres_db.Snapshot.{Formats}
use ferres_db.Tiered.{StorageTier, hot, warm, cold}
use ferres_db.Tiered.Warm.{WarmStorage}
use ferres_db.Tiered.WarmFits.{Fits, read_vector-Fits}
use ferres_db.Tiered.Cold.{ColdStorage, load_point, point_path}
use ferres_db.Tiered.Layers.{
  TieredCollection, WarmPointMeta, hydrate_from_warm, hydrate_from_cold, hydrated, found,
  warm_vector, both, cold_point, cold_or_none, get_from_any_tier, any_tier,
}

-- An id that is a key of its own: a text without NUL.
abbrev pub IsPlainId : Text → Type 0
IsPlainId id = IsNulFree id × All IsScalar id

abbrev pub offsets_of : Option WarmStorage → Dict ℕ
offsets_of none = []
offsets_of (some ws) = ws.offsets

abbrev pub files_of : Option ColdStorage → Dict Text
files_of none = []
files_of (some cs) = cs.files

abbrev pub WarmFits : ℕ → Option WarmStorage → Type 0
WarmFits dimension none = ⊥
WarmFits dimension (some ws) = Fits ws × (ws.dimension ≡ dimension) × (0 < dimension)

-- The keys of a list, by the test that the tiers use.
abbrev pub pends : Text → List Text → Bool
pends k [] = false
pends k (id ∷ ids) = if text_eq id k then true else pends k ids

module _ (b : Backend) (fmt : Formats) where
  abbrev pub HasAt : TieredCollection b → Text → StorageTier → Type 0
  HasAt tc j hot = (p : Point) × (Dict.get j tc.collection.points ≡ some p)
  HasAt tc j warm =
      (m : WarmPointMeta) × (o : ℕ) × (Dict.get j tc.warm_metadata ≡ some m)
      × (Dict.get j (offsets_of tc.warm_storage) ≡ some o)
  HasAt tc j cold = (t : Text) × (Dict.get (point_path j) (files_of tc.cold_storage) ≡ some t)

  -- What is stored under a key, the same in two states.
  pub record Same (j : Text) (tc tc' : TieredCollection b) : Type 0 where
    pub same_points : Dict.get j tc'.collection.points ≡ Dict.get j tc.collection.points
    pub same_metadata : Dict.get j tc'.warm_metadata ≡ Dict.get j tc.warm_metadata
    pub same_offset :
        Dict.get j (offsets_of tc'.warm_storage) ≡ Dict.get j (offsets_of tc.warm_storage)
    pub same_file :
        Dict.get (point_path j) (files_of tc'.cold_storage)
        ≡ Dict.get (point_path j) (files_of tc.cold_storage)

  pub HasAt-Same :
      (j : Text) (t : StorageTier) (tc tc' : TieredCollection b)
      → Same j tc tc'
      → HasAt tc j t
      → HasAt tc' j t
  HasAt-Same j hot tc tc' s (p, h) = (p, s.same_points ∙ h)
  HasAt-Same j warm tc tc' s (m, o, h, k) = (m, o, s.same_metadata ∙ h, s.same_offset ∙ k)
  HasAt-Same j cold tc tc' s (t, h) = (t, s.same_file ∙ h)

  -- Every plain key with a tier is there, except those that are pending.
  abbrev pub PlacedBut : List Text → TieredCollection b → Type 0
  PlacedBut pending tc =
      (j : Text) (t : StorageTier)
      → IsPlainId j
      → Dict.get j tc.point_tiers ≡ some t
      → pends j pending ≡ false
      → HasAt tc j t

  -- A step that sets the tier of one key, and leaves what the others have.
  pub PlacedBut-set :
      (id : Text) (t : StorageTier) (pending : List Text) (tc tc' : TieredCollection b)
      → tc'.point_tiers ≡ Dict.insert id t tc.point_tiers
      → HasAt tc' id t
      → ((j : Text) → IsPlainId j → text_eq id j ≡ false → Same j tc tc')
      → PlacedBut (id ∷ pending) tc
      → PlacedBut pending tc'
  PlacedBut-set id t pending tc tc' tiers mine others placed j u plain h open_j =
      elim (Bool-cases (text_eq id j)) [
        | inl same ↦
            subst (λ k. HasAt tc' k u) ((text_eq_iff id j).0 same)
              (subst (HasAt tc' id)
                (ground (arith, ap (Dict.get j) tiers, get-insert id j t tc.point_tiers)) mine)
        | inr other ↦ HasAt-Same j u tc tc' (others j plain other) (
            placed j u plain
              (ground (arith, ap (Dict.get j) tiers, get-insert id j t tc.point_tiers))
              (rw other open_j))
      ]

  -- A step that takes the tier of one key away.
  pub PlacedBut-unset :
      (id : Text) (pending : List Text) (tc tc' : TieredCollection b)
      → tc'.point_tiers ≡ Dict.remove id tc.point_tiers
      → ((j : Text) → IsPlainId j → text_eq id j ≡ false → Same j tc tc')
      → PlacedBut pending tc
      → PlacedBut pending tc'
  PlacedBut-unset id pending tc tc' tiers others placed j u plain h open_j =
      elim (Bool-cases (text_eq id j)) [
        | inl same ↦ absurd (ground (arith, ap (Dict.get j) tiers, get-remove id j tc.point_tiers))
        | inr other ↦ HasAt-Same j u tc tc' (others j plain other) (
            placed j u plain (ground (arith, ap (Dict.get j) tiers, get-remove id j tc.point_tiers))
              open_j)
      ]

  -- More keys may be pending.
  pub PlacedBut-weaken :
      (id : Text) (pending : List Text) (tc : TieredCollection b)
      → PlacedBut pending tc
      → PlacedBut (id ∷ pending) tc
  PlacedBut-weaken id pending tc placed j u plain h open_j = placed j u plain h (ground arith)

  pub record KeptBut (pending : List Text) (tc : TieredCollection b) : Type 0 where
    pub keyed : IsKeyed b tc.collection
    pub fits : WarmFits tc.collection.config.dimension tc.warm_storage
    pub stored : is_some tc.cold_storage ≡ true
    pub plain_keys : All (λ e. IsPlainId e.0) tc.point_tiers
    pub placed : PlacedBut pending tc

  abbrev pub Kept : TieredCollection b → Type 0
  Kept = KeptBut []

  warm_vector_found :
      (j : Text) (o : ℕ) (ws : WarmStorage)
      → Fits ws
      → 0 < ws.dimension
      → Dict.get j ws.offsets ≡ some o
      → (v : Vector) × (warm_vector j (some ws) ≡ ok (some v))
  warm_vector_found j o ws f pos at =
      let (v, reads) = read_vector-Fits j ws o f pos at in (v, rw (at, reads) refl)

  warm_found :
      (j : Text) (m : WarmPointMeta) (o : ℕ) (tc : TieredCollection b) (ws : WarmStorage)
      → tc.warm_storage ≡ some ws
      → Fits ws
      → 0 < ws.dimension
      → Dict.get j tc.warm_metadata ≡ some m
      → Dict.get j ws.offsets ≡ some o
      → (p : Point) × (found b (hydrate_from_warm b j tc) ≡ some p)
  unfolding hydrate_from_warm
  warm_found j m o tc ws is f pos meta at =
      let (v, reads) = warm_vector_found j o ws f pos at in
      (
        hydrated j v m,
        ap₂ (λ r (meta : Option WarmPointMeta). found b (r >>= λ v. ok (both j v meta)))
            (ap (warm_vector j) is ∙ reads) meta,
      )

  any_tier_found :
      (now : ℕ) (id : Text) (tc : TieredCollection b) (o w : Option Point) (p : Point)
      → (o ≡ some p) ⊎ ((w ≡ some p) ⊎ (hydrate_from_cold b fmt id tc ≡ some p))
      → (q : Point) × ((any_tier b fmt now id tc o w).0 ≡ some q)
  any_tier_found now id tc (some q) w p h = (q, refl)
  any_tier_found now id tc none (some q) p h = (q, refl)
  any_tier_found now id tc none none p (inl h) = absurd (ground arith)
  any_tier_found now id tc none none p (inr (inl h)) = absurd (ground arith)
  any_tier_found now id tc none none p (inr (inr h)) =
      (p, ap (λ o. (cold_or_none b now id tc o).0) h)

  cold_point_found :
      (j t : Text) (p : Point) (cs : Option ColdStorage)
      → Dict.get (point_path j) (files_of cs) ≡ some t
      → fmt.point_of_json t ≡ some p
      → cold_point fmt j cs ≡ some p
  unfolding load_point
  cold_point_found j t p none h k = absurd (unfold Dict.get in ground arith)
  cold_point_found j t p (some cs) h k = rw (h, k) refl

  cold_found :
      (j t : Text) (p : Point) (tc : TieredCollection b)
      → Dict.get (point_path j) (files_of tc.cold_storage) ≡ some t
      → fmt.point_of_json t ≡ some p
      → hydrate_from_cold b fmt j tc ≡ some p
  unfolding hydrate_from_cold
  cold_found j t p tc h k = cold_point_found j t p tc.cold_storage h k

  -- The cold file of a key, if there is one, can be read.
  abbrev pub IsReadableAt : Text → TieredCollection b → Type 0
  IsReadableAt j tc =
      (t : Text)
      → Dict.get (point_path j) (files_of tc.cold_storage) ≡ some t
      → (p : Point) × (fmt.point_of_json t ≡ some p)

  -- Where every key with a tier is placed, and the cold file of a key can be read,
  -- `get_from_any_tier` finds a point under it.
  pub get-Kept :
      (now : ℕ) (j : Text) (t : StorageTier) (tc : TieredCollection b)
      → Kept tc
      → IsPlainId j
      → Dict.get j tc.point_tiers ≡ some t
      → IsReadableAt j tc
      → (p : Point) × ((get_from_any_tier b fmt now j tc).0 ≡ some p)
  unfolding get_from_any_tier
  get-Kept now j t tc kept plain h readable = at t (kept.placed j t plain h refl)
    where
      by_warm :
          (m : WarmPointMeta) (o : ℕ)
          → Dict.get j tc.warm_metadata ≡ some m
          → Dict.get j (offsets_of tc.warm_storage) ≡ some o
          → (ws : Option WarmStorage) → tc.warm_storage ≡ ws
          → WarmFits tc.collection.config.dimension ws
          → (p : Point) × (found b (hydrate_from_warm b j tc) ≡ some p)
      by_warm m o meta offset none is f = absurd f
      by_warm m o meta offset (some ws) is (f, same, pos) =
          warm_found j m o tc ws is f (omega arith) meta
            (ap (λ w. Dict.get j (offsets_of w)) (sym is) ∙ offset)

      at :
          (t : StorageTier)
          → HasAt tc j t
          → (p : Point) × ((get_from_any_tier b fmt now j tc).0 ≡ some p)
      at hot (p, at_hot) =
          any_tier_found now j tc (Dict.get j tc.collection.points)
            (found b (hydrate_from_warm b j tc)) p (inl at_hot)
      at warm (m, o, meta, offset) =
          let (p, e) = by_warm m o meta offset tc.warm_storage refl kept.fits in
          any_tier_found now j tc (Dict.get j tc.collection.points)
            (found b (hydrate_from_warm b j tc)) p (inr (inl e))
      at cold (t, file) =
          let (p, parses) = readable t file in
          any_tier_found now j tc (Dict.get j tc.collection.points)
            (found b (hydrate_from_warm b j tc)) p (inr (inr (cold_found j t p tc file parses)))
