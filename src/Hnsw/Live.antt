-- ===== src/Hnsw/Live.antt =====
-- What a search of the index returns.
use ferres_db.Base.{
  ℕ, zero, suc, ◌+◌, ◌≤◌, ◌≡◌, refl, Bool, true, false, Option, none, some, List, [], ◌∷◌, length,
  take, length-take, min, max, ltb, ◌==◌, arith, if◌then◌else◌, Bool-cases, Option-cases, inl, inr,
  All,
}
use ferres_db.Base.Text.{Text}
use ferres_db.Error.{ok, then_call-ok}
use ferres_db.Point.{Vector}
use ferres_db.Backend.{Hit}
use ferres_db.Hnsw.{
  Graph, HnswIndex, get_elem?, contains, hnsw_filter, named, named_live, search_rounds,
  search_prepared, search, prepare_vector,
}

All-take {ℓ} : {A : Type ℓ} (P : A → Type 0) (n : ℕ) (xs : List A) → All P xs → All P (take n xs)
All-take P zero xs h = tt
All-take P (suc n) [] h = tt
All-take P (suc n) (x ∷ xs) (h, hs) = (h, All-take P n xs hs)

abbrev pub always : Text → Bool
always id = true

-- The predicate of a search, if there is none every id.
abbrev pub predicate_of : Option (Text → Bool) → Text → Bool
predicate_of none = always
predicate_of (some f) = f

-- What the filtered search of the graph promises: the filter holds, and there are `k` at most.
pub record IsFiltering (g : Graph) : Type 0 where
  pub filtered :
      (q : Vector) (k ef : ℕ) (f : ℕ → Bool) (i : g.Inner)
      → All (λ n. f n.0 ≡ true) (g.search_filter q k ef f i)
  pub bounded :
      (q : Vector) (k ef : ℕ) (f : ℕ → Bool) (i : g.Inner) → length (g.search_filter q k ef f i) ≤ k

ok_injective {ℓ} : {A : Type ℓ} {x y : A} → ok x ≡ ok y → x ≡ y
ok_injective h = cc

module _ (g : Graph) where
  -- The id is one of the index, not removed, and satisfies the predicate.
  abbrev pub IsLive : HnswIndex g → (Text → Bool) → Hit → Type 0
  IsLive h f hit =
      ((n : ℕ) × (get_elem? h.id_map n ≡ some (hit.0)))
      × (contains (hit.0) h.tombstones ≡ false)
      × (f (hit.0) ≡ true)

  named_live-IsLive :
      (h : HnswIndex g) (ns : List (ℕ × ℕ))
      → All (IsLive h always) (named_live g h.id_map h.tombstones ns)
  unfolding named_live
  named_live-IsLive h [] = tt
  named_live-IsLive h ((n, d) ∷ ns) = elim (Option-cases (get_elem? h.id_map n)) [
    | inl out ↦ rw (out, named_live) (named_live-IsLive h ns)
    | inr (id, at) ↦ elim (Bool-cases (contains id h.tombstones)) [
      | inl dead ↦ rw (at, named_live) (rw dead (named_live-IsLive h ns))
      | inr live ↦ rw (at, named_live) (rw live (((n, at), live, refl), named_live-IsLive h ns))
    ]
  ]

  hnsw_filter-IsLive :
      (h : HnswIndex g) (f : Text → Bool) (n d : ℕ) (id : Text)
      → hnsw_filter g h f n ≡ true
      → get_elem? h.id_map n ≡ some id
      → IsLive h f (id, d)
  unfolding hnsw_filter
  hnsw_filter-IsLive h f n d id e at = ((n, at), ground arith, ground arith)

  named-IsLive :
      (h : HnswIndex g) (f : Text → Bool) (ns : List (ℕ × ℕ))
      → All (λ n. hnsw_filter g h f n.0 ≡ true) ns
      → All (IsLive h f) (named g h.id_map ns) × (length (named g h.id_map ns) ≤ length ns)
  unfolding named
  named-IsLive h f [] hs = (tt, omega arith)
  named-IsLive h f ((n, d) ∷ ns) (e, hs) =
      let (rest, le) = named-IsLive h f ns hs in
      elim (Option-cases (get_elem? h.id_map n)) [
        | inl out ↦ rw (out, named) (rest, omega arith)
        | inr (id, at) ↦ rw (at, named) ((hnsw_filter-IsLive h f n d id e at, rest), omega arith)
      ]

  record Found (h : HnswIndex g) (f : Text → Bool) (k : ℕ) (hits : List Hit) : Type 0 where
    live : All (IsLive h f) hits
    short : length hits ≤ k

  chosen : (P : List Hit → Type 0) (t : Bool) (x y : List Hit) → P x → P y → P (if t then x else y)
  chosen P true x y px py = px
  chosen P false x y px py = py

  search_rounds-Found :
      (h : HnswIndex g) (q : Vector) (k : ℕ) (f : Text → Bool) (rounds ef : ℕ) (best : List Hit)
      → IsFiltering g
      → Found h f k best
      → Found h f k (search_rounds g h q k f rounds ef best)
  unfolding search_rounds
  search_rounds-Found h q k f zero ef best law b = b
  search_rounds-Found h q k f (suc rounds) ef best law b =
      let ns : List (ℕ × ℕ) = g.search_filter q k ef (hnsw_filter g h f) h.inner in
      let (live, le) = named-IsLive h f ns (law.filtered q k ef (hnsw_filter g h f) h.inner) in
      let results : Found h f k (named g h.id_map ns) = record {
        live = live;
        short = omega (arith, law.bounded q k ef (hnsw_filter g h f) h.inner);
      } in
      let better =
        chosen (Found h f k) (ltb (length best) (length (named g h.id_map ns))) _ best results b in
      chosen (Found h f k) _ _ _ results (
        chosen (Found h f k) _ _ _ better
          (chosen (Found h f k) _ _ _ better (search_rounds-Found h q k f rounds _ _ law better)))

  search_prepared-Found :
      (h : HnswIndex g) (q : Vector) (k : ℕ) (f : Option (Text → Bool))
      → IsFiltering g
      → Found h (predicate_of f) k (search_prepared g q k f h)
  search_prepared-Found h q k none law = record {
    live = All-take (IsLive h always) k _ (named_live-IsLive h _);
    short = omega (
      arith,
      length-take k (
          named_live g h.id_map h.tombstones (
            g.search q (min (k + length h.tombstones) (length h.id_map))
              (max h.ef_search_runtime (min (k + length h.tombstones) (length h.id_map))) h.inner)),
    );
  }
  search_prepared-Found h q k (some f) law =
      search_rounds-Found h q k f _ _ [] law (record { live = tt; short = omega arith })

  shorter :
      (h : HnswIndex g) (q : Vector) (k : ℕ) (f : Option (Text → Bool))
      → Found h
          (predicate_of f)
          (min k (length h.id_map))
          (search_prepared g q (min k (length h.id_map)) f h)
      → Found h (predicate_of f) k (search_prepared g q (min k (length h.id_map)) f h)
  shorter h q k f all = record { live = all.live; short = omega (arith, all.short) }

  -- A search that succeeds returns at most `k` hits, each of them an id of the index that is not
  -- removed and that the predicate of the search accepts.
  pub search-IsLive :
      (h : HnswIndex g) (query : Vector) (k : ℕ) (f : Option (Text → Bool)) (hits : List Hit)
      → IsFiltering g
      → search g query k f h ≡ ok hits
      → All (IsLive h (predicate_of f)) hits × (length hits ≤ k)
  unfolding search
  search-IsLive h query k f hits law e =
      let (q, ready, rest) = then_call-ok _ hits (prepare_vector g query h.distance) e in
      let all : Found h (predicate_of f) k (
          if min k (length h.id_map) == 0
          then []
          else search_prepared g q (min k (length h.id_map)) f h) =
        chosen (Found h (predicate_of f) k) (min k (length h.id_map) == 0) [] _
          (record { live = tt; short = omega arith })
          (shorter h q k f (search_prepared-Found h q (min k (length h.id_map)) f law)) in
      rw (← (ok_injective rest)) (all.live, all.short)
