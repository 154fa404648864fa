-- ===== src/Collection/Cache.antt =====
-- The cache of search results: what it answers is what the index would answer.
use ferres_db.Base.{
  ℕ, ◌+◌, ◌≡◌, refl, sym, ap, ◌∙◌, Bool, true, false, Option, none, some, List, arith,
  if◌then◌else◌, Option-cases, inl, inr, ◌⊎◌,
}
use ferres_db.Base.Text.{Text}
use ferres_db.Error.{Result, ok, err, Result-cases}
use ferres_db.Point.{Vector}
use ferres_db.Backend.{Backend, Hit, CacheKey}
use ferres_db.Collection.{Collection, touched, validate_dimension}
use ferres_db.Collection.Search.{
  search, search_index, search_cached, index_of, scans, scan, named_field, guarded, through_cache,
  with_answer,
}

module _ (b : Backend) where
  -- What the search relies on of the cache: a look-up changes no answer, an insertion changes the
  -- answer of its own key, if any, and a cleared cache has no answer.
  pub record IsCache : Type 0 where
    pub get_keeps :
        (key key' : CacheKey) (c : b.Cache)
        → (b.cache_get key' (b.cache_get key c).1).0 ≡ (b.cache_get key' c).0
    pub put_answers :
        (key key' : CacheKey) (hits hits' : List Hit) (c : b.Cache)
        → (b.cache_get key' (b.cache_put key hits c)).0 ≡ some hits'
        → ((key' ≡ key) × (hits' ≡ hits)) ⊎ ((b.cache_get key' c).0 ≡ some hits')
    pub clear_empties :
        (key : CacheKey) (c : b.Cache) → (b.cache_get key (b.cache_clear c)).0 ≡ none

  -- The key of a query holds its hash only: the hits are what the index answers to a query with the
  -- same hash.
  abbrev pub IsAnswer : Vector → ℕ → Option Text → List Hit → Collection b → Type 0
  IsAnswer query k field hits c =
      (q : Vector) × (b.query_hash q ≡ b.query_hash query)
      × (search_index b q k none field c ≡ ok hits)

  -- Every answer of the cache is one of the index.
  abbrev pub IsCoherent : Collection b → Type 0
  IsCoherent c =
      (cache : b.Cache) (query : Vector) (k : ℕ) (field : Option Text) (hits : List Hit)
      → c.search_cache ≡ some cache
      → (b.cache_get (b.query_hash query, k, field) cache).0 ≡ some hits
      → IsAnswer query k field hits c

  -- Every mutation ends with a cache that answers nothing.
  pub touched-IsCoherent : IsCache → (c : Collection b) → IsCoherent (touched b c)
  unfolding touched
  touched-IsCoherent law c cache query k field hits is answer = elim (Option-cases c.search_cache) [
    | inl no_cache ↦ absurd (ground arith)
    | inr (old, has) ↦ absurd (ground (arith, law.clear_empties (b.query_hash query, k, field) old))
  ]

  -- The same state but for the cache and its counters.
  abbrev with_cache : b.Cache → ℕ → ℕ → Collection b → Collection b
  with_cache cache hits misses c = record c {
    search_cache = some cache;
    search_cache_hits = hits;
    search_cache_misses = misses;
  }

  search_index-same :
      (query : Vector) (k : ℕ) (field : Option Text) (c d : Collection b)
      → d.index ≡ c.index
      → d.vector_indices ≡ c.vector_indices
      → search_index b query k none field d ≡ search_index b query k none field c
  unfolding search_index index_of
  search_index-same query k none c d h v = rw h refl
  search_index-same query k (some f) c d h v = rw v refl

  IsCoherent-get :
      (key : CacheKey) (old : b.Cache) (h m : ℕ) (c : Collection b)
      → IsCache
      → IsCoherent c
      → c.search_cache ≡ some old
      → IsCoherent (with_cache (b.cache_get key old).1 h m c)
  IsCoherent-get key old h m c law coherent has cache query k field hits is answer =
      let same : (b.cache_get key old).1 ≡ cache = cc in
      let (q, alike, finds) = coherent old query k field hits has (
        sym (law.get_keeps key (b.query_hash query, k, field) old)
        ∙ ap (λ x. (b.cache_get (b.query_hash query, k, field) x).0) same
        ∙ answer) in
      (
        q,
        alike,
        search_index-same q k field c (with_cache (b.cache_get key old).1 h m c) refl refl ∙ finds,
      )

  IsCoherent-put :
      (query : Vector) (k : ℕ) (field : Option Text) (hits : List Hit) (old : b.Cache) (h m : ℕ)
      (c : Collection b)
      → IsCache
      → IsCoherent (with_cache old h m c)
      → search_index b query k none field c ≡ ok hits
      → IsCoherent (with_cache (b.cache_put (b.query_hash query, k, field) hits old) h m c)
  IsCoherent-put query k field hits old h m c law coherent fresh cache query' k' field' hits' is
        answer =
      let same : b.cache_put (b.query_hash query, k, field) hits old ≡ cache = cc in
      elim (law.put_answers (b.query_hash query, k, field) (b.query_hash query', k', field') hits
        hits' old (ap (λ x. (b.cache_get (b.query_hash query', k', field') x).0) same ∙ answer)) [
          | inr before ↦
              let (q, alike, finds) = coherent old query' k' field' hits' refl before in
              (
                q,
                alike,
                search_index-same q k' field' (with_cache old h m c)
                      (with_cache (b.cache_put (b.query_hash query, k, field) hits old) h m c) refl
                      refl
                    ∙ finds,
              )
          | inl (keys, answers) ↦
              let k_same : k' ≡ k = ap (λ (key : CacheKey). key.1) keys in
              let f_same : field' ≡ field = ap (λ (key : CacheKey). key.2) keys in
              (
                query,
                sym (ap (λ (key : CacheKey). key.0) keys),
                search_index-same query k' field' c
                      (with_cache (b.cache_put (b.query_hash query, k, field) hits old) h m c) refl
                      refl
                    ∙ rw (k_same, f_same, answers) fresh,
              )
        ]

  -- What a look-up through the cache returns, for a query with the same hash, and leaves.
  abbrev Sound : Vector → (Vector → Result (List Hit)) → Result (List Hit) × Collection b → Type 0
  Sound query fresh r =
      (q : Vector) × (b.query_hash q ≡ b.query_hash query) × (r.0 ≡ fresh q) × IsCoherent r.1

  with_answer-Sound :
      (query : Vector) (k : ℕ) (field : Option Text) (old : b.Cache) (answer : Option (List Hit))
      (c : Collection b)
      → IsCache
      → IsCoherent c
      → c.search_cache ≡ some old
      → (b.cache_get (b.query_hash query, k, field) old).0 ≡ answer
      → Sound query
          (λ q. search_index b q k none field c)
          (with_answer b
            (b.query_hash query, k, field)
            answer
            (b.cache_get (b.query_hash query, k, field) old).1
            (search_index b query k none field c)
            c)
  with_answer-Sound query k field old (some hits) c law coherent has got =
      let (q, alike, finds) = coherent old query k field hits has got in
      (
        q,
        alike,
        sym finds,
        IsCoherent-get (b.query_hash query, k, field) old (c.search_cache_hits + 1)
            c.search_cache_misses c law coherent has,
      )
  with_answer-Sound query k field old none c law coherent has got =
      elim (Result-cases (search_index b query k none field c)) [
        | inr (e, fails) ↦ (query, refl, rw fails refl, rw fails kept)
        | inl (hits, found) ↦ (
          query,
          refl,
          rw found refl,
          rw found (
              IsCoherent-put query k field hits (b.cache_get (b.query_hash query, k, field) old).1
                c.search_cache_hits (c.search_cache_misses + 1) c law kept found),
        )
      ]
    where
      kept : IsCoherent (
          with_cache
            (b.cache_get (b.query_hash query, k, field) old).1
            c.search_cache_hits
            (c.search_cache_misses + 1)
            c)
      kept =
          IsCoherent-get (b.query_hash query, k, field) old c.search_cache_hits
            (c.search_cache_misses + 1) c law coherent has

  through_cache-Sound :
      (query : Vector) (k : ℕ) (field : Option Text) (o : Option b.Cache) (c : Collection b)
      → IsCache
      → IsCoherent c
      → c.search_cache ≡ o
      → Sound query
          (λ q. search_index b q k none field c)
          (through_cache b (b.query_hash query, k, field) o (search_index b query k none field c) c)
  through_cache-Sound query k field none c law coherent has = (query, refl, refl, coherent)
  through_cache-Sound query k field (some old) c law coherent has =
      with_answer-Sound query k field old (b.cache_get (b.query_hash query, k, field) old).0 c law
        coherent has refl

  abbrev pub unless_err : {A : Type 0} → Result A → Result (List Hit) → Result (List Hit)
  unless_err (err e) hits = err e
  unless_err (ok u) hits = hits

  guarded-Sound :
      {A : Type 0} (query : Vector) (r : Result A) (fresh : Vector → Result (List Hit))
      (go : Result (List Hit) × Collection b) (c : Collection b)
      → IsCoherent c
      → Sound query fresh go
      → Sound query (λ q. unless_err r (fresh q)) (guarded b r go c)
  guarded-Sound query (err e) fresh go c coherent sound = (query, refl, refl, coherent)
  guarded-Sound query (ok u) fresh go c coherent sound = sound

  -- The result of a search without a cache, where the index is asked for `q`.
  abbrev pub uncached :
      Vector → Vector → ℕ → Option (Text → Bool) → Option Text → Collection b → Result (List Hit)
  uncached query q k predicate field c = unless_err (validate_dimension c.config query) (
      if scans b predicate field c
      then ok (scan b query k c)
      else search_index b q k predicate (named_field field) c)

  index_err :
      (query : Vector) (k : ℕ) (field : Option Text) (c : Collection b)
      → unless_err (index_of b field c) (search_index b query k none field c)
        ≡ search_index b query k none field c
  unfolding search_index
  index_err query k field c = elim (Result-cases (index_of b field c)) [
    | inr (e, unknown) ↦ rw (unknown, search_index) refl
    | inl (index, known) ↦ rw (known, search_index) refl
  ]

  search_cached-Sound :
      (query : Vector) (k : ℕ) (p : Option (Text → Bool)) (field : Option Text) (c : Collection b)
      → IsCache
      → IsCoherent c
      → Sound query (λ q. search_index b q k p field c) (search_cached b query k p field c)
  search_cached-Sound query k (some f) field c law coherent = (query, refl, refl, coherent)
  search_cached-Sound query k none field c law coherent =
      let (q, alike, same, kept) =
        guarded-Sound query (index_of b field c) (λ q. search_index b q k none field c)
          (through_cache b (b.query_hash query, k, field) c.search_cache
            (search_index b query k none field c) c)
          c coherent (through_cache-Sound query k field c.search_cache c law coherent refl) in
      (q, alike, same ∙ index_err q k field c, kept)

  chosen-Sound :
      (query : Vector) (t : Bool) (x y : Vector → Result (List Hit))
      (r s : Result (List Hit) × Collection b)
      → Sound query x r
      → Sound query y s
      → Sound query (λ q. if t then x q else y q) (if t then r else s)
  chosen-Sound query true x y r s h k = h
  chosen-Sound query false x y r s h k = k

  -- With a coherent cache a search returns what it would return without one, where the index may
  -- have been asked for another query of the same hash, and leaves the cache coherent.
  pub search-IsCoherent :
      (query : Vector) (k : ℕ) (predicate : Option (Text → Bool)) (field : Option Text)
      (c : Collection b)
      → IsCache
      → IsCoherent c
      → (q : Vector) × (b.query_hash q ≡ b.query_hash query)
        × ((search b query k predicate field c).0 ≡ uncached query q k predicate field c)
        × IsCoherent (search b query k predicate field c).1
  unfolding search
  search-IsCoherent query k predicate field c law coherent =
      guarded-Sound query (validate_dimension c.config query)
        (λ q.
          if scans b predicate field c
          then ok (scan b query k c)
          else search_index b q k predicate (named_field field) c)
        (if scans b predicate field c
          then (ok (scan b query k c), c)
          else search_cached b query k predicate (named_field field) c)
        c coherent
        (chosen-Sound query (scans b predicate field c) (λ q. ok (scan b query k c))
          (λ q. search_index b q k predicate (named_field field) c) (ok (scan b query k c), c)
          (search_cached b query k predicate (named_field field) c) (query, refl, refl, coherent)
          (search_cached-Sound query k predicate (named_field field) c law coherent))
