-- ===== src/Tiered/KeptKeys.antt =====
-- Keys and files under one insertion or removal, and the paths of other keys.
use ferres_db.Base.{
  ℕ, ◌*◌, ◌≡◌, refl, sym, ap, ◌∙◌, Bool, true, false, Option, none, some, [], ◌∷◌, arith, All, inl,
  inr, Bool-cases, Option-cases, is_some, length,
}
use ferres_db.Base.Text.{Text, text_eq, text_eq_iff}
use ferres_db.Base.Dict
use ferres_db.Base.Dict.{Dict, get-insert, get-remove}
use ferres_db.Error.{ok}
use ferres_db.Point.{Point, Vector, storage_id_from_parts, parse_storage_id}
use ferres_db.Point.StorageId.{parse_storage_id-storage_id_from_parts}
use ferres_db.Snapshot.{Formats}
use ferres_db.Tiered.{StorageTier}
use ferres_db.Tiered.Warm.{WarmStorage, add_vector, remove_vector}
use ferres_db.Tiered.WarmFits.{add_vector-Fits, remove_vector-Fits}
use ferres_db.Tiered.Cold.{ColdStorage, save_point, point_path}
use ferres_db.Tiered.ColdPaths.{point_path_injective}
use ferres_db.Tiered.Layers.{WarmPointMeta, map_some, hydrated, both, saved}
use ferres_db.Tiered.Kept.{IsPlainId, offsets_of, files_of, WarmFits}

pub parse_plain : (id : Text) → IsPlainId id → parse_storage_id id ≡ (none, id)
parse_plain id h =
    unfold storage_id_from_parts in parse_storage_id-storage_id_from_parts none id h.0

pub All-insert :
    (id : Text) (t : StorageTier) (d : Dict StorageTier)
    → IsPlainId id
    → All (λ e. IsPlainId e.0) d
    → All (λ e. IsPlainId e.0) (Dict.insert id t d)
unfolding Dict.insert
All-insert id t [] h hs = (h, tt)
All-insert id t ((j, u) ∷ d) h (hj, hs) = elim (Bool-cases (text_eq j id)) [
  | inl same ↦ rw same (hj, hs)
  | inr other ↦ rw other (hj, All-insert id t d h hs)
]

pub All-remove :
    (id : Text) (d : Dict StorageTier)
    → All (λ e. IsPlainId e.0) d
    → All (λ e. IsPlainId e.0) (Dict.remove id d)
unfolding Dict.remove
All-remove id [] hs = tt
All-remove id ((j, u) ∷ d) (hj, hs) = elim (Bool-cases (text_eq j id)) [
  | inl same ↦ rw same (All-remove id d hs)
  | inr other ↦ rw other (hj, All-remove id d hs)
]

-- The warm storage behind an addition and behind a removal.
pub grow :
    (dimension : ℕ) (id : Text) (v : Vector) (ws : Option WarmStorage)
    → WarmFits dimension ws
    → length v ≡ dimension
    → WarmFits dimension (map_some (add_vector id v) ws)
      × ((o : ℕ) × (offsets_of (map_some (add_vector id v) ws) ≡ Dict.insert id o (offsets_of ws)))
grow dimension id v none f sized = absurd f
grow dimension id v (some w) (f, same, pos) sized =
    let (f', offsets, kept) = add_vector-Fits id v w f (sized ∙ sym same) in
    ((f', kept ∙ same, pos), (length w.offsets * w.dimension * 4, offsets))

pub shrink :
    (dimension : ℕ) (id : Text) (ws : Option WarmStorage)
    → WarmFits dimension ws
    → WarmFits dimension (map_some (remove_vector id) ws)
      × (offsets_of (map_some (remove_vector id) ws) ≡ Dict.remove id (offsets_of ws))
shrink dimension id none f = absurd f
shrink dimension id (some w) (f, same, pos) =
    ((remove_vector-Fits id w f, (unfold remove_vector in same), pos), unfold remove_vector in refl)

pub other_path :
    (id j : Text)
    → IsPlainId id
    → IsPlainId j
    → text_eq id j ≡ false
    → text_eq (point_path id) (point_path j) ≡ false
other_path id j hid hj other = elim (Bool-cases (text_eq (point_path id) (point_path j))) [
  | inr differs ↦ differs
  | inl same ↦
      let e : id ≡ j =
        point_path_injective id j hid.1 hj.1
          ((text_eq_iff (point_path id) (point_path j)).0 same) in
      absurd (ground (arith, text_eq_iff id j))
]

-- What a save that succeeds leaves in the cold storage.
pub saved_files :
    (fmt : Formats) (writable : Text → Bool) (p : Point) (cs cs' : Option ColdStorage)
    → is_some cs ≡ true
    → saved fmt writable p cs ≡ ok cs'
    → (t : Text) × (fmt.point_json p ≡ some t)
      × (files_of cs' ≡ Dict.insert (point_path p.id) t (files_of cs))
      × (is_some cs' ≡ true)
unfolding save_point
saved_files fmt writable p none cs' there h = absurd (ground arith)
saved_files fmt writable p (some cs) cs' there h = elim (Option-cases (fmt.point_json p)) [
  | inl fails ↦ absurd (ground arith)
  | inr (t, json) ↦ elim (Bool-cases (writable (point_path p.id))) [
    | inr refused ↦ absurd (ground arith)
    | inl takes ↦
        let h' = rw (json, takes) at h in
        (t, json, ap files_of (sym (ok_some h')), ap is_some (sym (ok_some h')))
  ]
]
  where
    ok_some : {x y : Option ColdStorage} → ok x ≡ ok y → x ≡ y
    ok_some e = cc

-- The point that is read from the warm storage has the id of its plain key.
pub both_id :
    (id : Text) (v : Option Vector) (m : Option WarmPointMeta) (p : Point)
    → IsPlainId id
    → both id v m ≡ some p
    → (p.id ≡ id) × (p.namespace ≡ none)
unfolding hydrated
both_id id none m p plain h = absurd (ground arith)
both_id id (some v) none p plain h = absurd (ground arith)
both_id id (some v) (some m) p plain h =
    let e = parse_plain id plain in
    (
      ground (arith, ap (λ (k : Option Text × Text). k.1) e),
      ground (arith, ap (λ (k : Option Text × Text). k.0) e),
    )
