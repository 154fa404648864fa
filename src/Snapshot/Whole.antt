-- ===== src/Snapshot/Whole.antt =====
-- A whole collection: saved, loaded, and the same key by key.
use ferres_db.Base.{
  ℕ, ◌≡◌, refl, sym, ap, ◌∙◌, Bool, false, Option, none, some, List, [], ◌∷◌, ◌++◌, append-nil,
  arith, Option-cases, inl, inr, All,
}
use ferres_db.Base.Text.{Text, text_eq_iff, text_eq_refl}
use ferres_db.Base.Dict
use ferres_db.Base.Dict.{Dict, values, IsDistinct, get-insert}
use ferres_db.Error.{Result, ok, then_call-ok}
use ferres_db.Point.{Point, storage_id}
use ferres_db.Backend.{Backend, CollectionConfig}
use ferres_db.Collection.{Collection, index_text, with_index, new}
use ferres_db.Collection.Keyed.{IsKeyed}
use ferres_db.Snapshot.{
  PointsDir, CollectionDir, Formats, load_namespaces, load_collection, from_points, insert_all,
  index_texts, field_names, build_fields, built,
}
use ferres_db.Snapshot.Save.{write_points_and_index, save_points, save_collection}
use ferres_db.Snapshot.RoundTrip.{IsLawful, IsValid, load_points-write}

or_else : Option Point → Option Point → Option Point
or_else none o = o
or_else (some p) o = some p

ok_injective {ℓ} : {A : Type ℓ} {x y : A} → ok x ≡ ok y → x ≡ y
ok_injective h = cc

or_none : (k : Text) (o : Option Point) → or_else o (Dict.get k []) ≡ o
unfolding or_else Dict.get
or_none k none = refl
or_none k (some p) = refl

tail_keyed :
    (j : Text) (p : Point) (d : Dict Point)
    → IsDistinct ((j, p) ∷ d)
    → ((k : Text) (q : Point) → Dict.get k ((j, p) ∷ d) ≡ some q → storage_id q ≡ k)
    → (k : Text) (q : Point) → Dict.get k d ≡ some q
    → storage_id q ≡ k
unfolding Dict.get
tail_keyed j p d (h, hs) keyed k q e = ground (arith, text_eq_iff j k, keyed k q)

-- Inserting the values of a map whose keys are the storage ids gives its entries again.
get-insert_all :
    (k : Text) (d e : Dict Point)
    → IsDistinct d
    → ((k : Text) (q : Point) → Dict.get k d ≡ some q → storage_id q ≡ k)
    → Dict.get k (insert_all (values d) e) ≡ or_else (Dict.get k d) (Dict.get k e)
unfolding insert_all Dict.get or_else
get-insert_all k [] e h keyed = refl
get-insert_all k ((j, p) ∷ d) e h keyed = ground (
  arith,
  get-insert_all k d (Dict.insert (storage_id p) p e) h.1 (tail_keyed j p d h keyed),
  get-insert (storage_id p) k p e,
  text_eq_iff j k,
  text_eq_refl j,
  keyed j p,
)

index_texts-points :
    (b : Backend) (ps : List Point) (c : Collection b) → (index_texts b c ps).points ≡ c.points
index_texts-points b [] c = refl
index_texts-points b (p ∷ ps) c =
    index_texts-points b ps (record c { bm25_index = index_text b c p c.bm25_index })

module _ (b : Backend) where
  from_points-points :
      (config : CollectionConfig) (ps : List Point) (d : Collection b)
      → from_points b config ps ≡ ok d
      → d.points ≡ insert_all ps []
  unfolding from_points new with_index
  from_points-points config ps d h =
      let (index, built_it, rest) =
        then_call-ok _ d (built b (b.build ps (new b config).index)) h in
      let (fields, named, last) =
        then_call-ok _ d (build_fields b config ps (field_names ps [])) rest in
      sym (ap (λ e. e.points) (ok_injective last))
      ∙ index_texts-points b (values (insert_all ps [])) _

  save_collection-ok :
      (fmt : Formats) (now : ℕ) (binary : Bool) (c : Collection b) (dir dir' : CollectionDir)
      → save_collection b fmt now c binary false dir ≡ (ok tt, dir')
      → (t : Text) × (root : PointsDir) × (fmt.config_json c.config ≡ some t)
        × (write_points_and_index fmt binary (values c.points) dir.root ≡ (ok tt, root))
        × (dir' ≡ record {
          config = some t;
          last_snapshot = some now;
          root = root;
          namespaces = dir.namespaces;
        })
  unfolding save_collection save_points
  save_collection-ok fmt now binary c dir dir' h = elim (Option-cases (fmt.config_json c.config)) [
    | inl fails ↦ absurd (ground arith)
    | inr (t, q) ↦
        let m : Result (Unit {0}) × PointsDir =
          write_points_and_index fmt binary (values c.points) dir.root in
        let saved = rw q at h in (t, m.1, q, ap (λ r. (r.0, m.1)) saved, sym (ap (λ r. r.1) saved))
  ]

  pub load-save_collection :
      (fmt : Formats) (now : ℕ) (binary : Bool) (c : Collection b) (dir dir' : CollectionDir)
      (stale : List Point)
      → IsLawful fmt (values c.points)
      → ((t : Text) → fmt.config_json c.config ≡ some t → fmt.config_of_json t ≡ some c.config)
      → All (IsValid fmt) (values c.points)
      → (binary ≡ false → dir.root.points_bin ≡ none)
      → load_namespaces fmt dir.namespaces ≡ ok stale
      → save_collection b fmt now c binary false dir ≡ (ok tt, dir')
      → load_collection b fmt dir' ≡ from_points b c.config (values c.points ++ stale)
  unfolding save_collection save_points load_collection
  load-save_collection fmt now binary c dir dir' stale law back valid fresh old h =
      let (t, root, json, wrote, is) = save_collection-ok fmt now binary c dir dir' h in
      rw is (
        rw
          (
            back t json,
            load_points-write fmt binary (values c.points) dir.root root law valid fresh wrote,
            old,
          )
          refl)

  -- A collection that is saved without the isolation of namespaces and is loaded again, both with
  -- success, has the point that it had under every key, where the directory has no directories of
  -- namespaces and, for a save in the JSONL format, no points.bin, where the points stand under
  -- their own keys, and where the points and the configuration are read back from what is written.
  pub get-load_save :
      (fmt : Formats) (now : ℕ) (binary : Bool) (c d : Collection b) (dir dir' : CollectionDir)
      (k : Text)
      → IsLawful fmt (values c.points)
      → ((t : Text) → fmt.config_json c.config ≡ some t → fmt.config_of_json t ≡ some c.config)
      → IsKeyed b c
      → All (IsValid fmt) (values c.points)
      → (binary ≡ false → dir.root.points_bin ≡ none)
      → dir.namespaces ≡ []
      → save_collection b fmt now c binary false dir ≡ (ok tt, dir')
      → load_collection b fmt dir' ≡ ok d
      → Dict.get k d.points ≡ Dict.get k c.points
  get-load_save fmt now binary c d dir dir' k law back keyed valid fresh no_ns h loads =
      let ps : List Point = values c.points in
      let whole : from_points b c.config ps ≡ ok d =
        ap (from_points b c.config) (sym (append-nil ps))
        ∙ sym (
            load-save_collection fmt now binary c dir dir' [] law back valid fresh
              (rw no_ns (unfold load_namespaces in refl)) h)
        ∙ loads in
      ap (Dict.get k) (from_points-points c.config ps d whole)
      ∙ get-insert_all k c.points [] keyed.distinct keyed.keyed
      ∙ or_none k (Dict.get k c.points)
