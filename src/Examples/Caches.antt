-- ===== src/Examples/Caches.antt =====
-- The search, with a cache of one entry.
use ferres_db.Base.{
  ◌≡◌, refl, ap, ◌∙◌, Bool, true, false, ◌&&◌, Option, none, some, List, [], ◌∷◌, arith, ◌==◌,
  if◌then◌else◌, inl, inr, Bool-cases,
}
use ferres_db.Base.Text.{Text, text_eq, text_eq_iff}
use ferres_db.Point.{Vector}
use ferres_db.Backend.{Backend, CacheKey, Hit}
use ferres_db.Collection
use ferres_db.Collection.{Collection}
use ferres_db.Collection.Search
use ferres_db.Collection.Search.{search}
use ferres_db.Collection.Cache.{IsCache, IsCoherent, uncached, search-IsCoherent}
use ferres_db.Examples.Instances.{toy, config, some_injective}

abbrev field_eq : Option Text → Option Text → Bool
field_eq none none = true
field_eq (some f) (some g) = text_eq f g
field_eq _ _ = false

field_eq_sound : (f g : Option Text) → field_eq f g ≡ true → f ≡ g
field_eq_sound none none h = refl
field_eq_sound none (some g) h = cc
field_eq_sound (some f) none h = cc
field_eq_sound (some f) (some g) h = ap some ((text_eq_iff f g).0 h)

abbrev key_eq : CacheKey → CacheKey → Bool
key_eq (h, k, f) (h', k', f') = h == h' && k == k' && field_eq f f'

key_eq_sound : (a b : CacheKey) → key_eq a b ≡ true → a ≡ b
key_eq_sound (h, k, f) (h', k', f') e =
    let hs : h ≡ h' = ground arith in
    let ks : k ≡ k' = ground arith in
    let fs : f ≡ f' = field_eq_sound f f' (ground arith) in rw (hs, ks, fs) refl

abbrev answer : CacheKey → Option (CacheKey × List Hit) → Option (List Hit)
answer key none = none
answer key (some (held, hits)) = if key_eq key held then some hits else none

abbrev caching : Backend
caching = record toy {
  Cache = Option (CacheKey × List Hit);
  cache_new = λ n. none;
  cache_clear = λ c. none;
  cache_get = λ key c. (answer key c, c);
  cache_put = λ key hits c. some (key, hits);
  query_hash = λ v. 7;
}

put_lem :
    (key key' : CacheKey) (hits hits' : List Hit)
    → answer key' (some (key, hits)) ≡ some hits'
    → (key' ≡ key) × (hits' ≡ hits)
put_lem key key' hits hits' h = elim (Bool-cases (key_eq key' key)) [
  | inl same ↦ (key_eq_sound key' key same, ground arith)
  | inr other ↦ absurd (ground arith)
]

caching-IsCache : IsCache caching
caching-IsCache = record {
  get_keeps = λ key key' c. refl;
  put_answers = λ key key' hits hits' c h. inl (put_lem key key' hits hits' h);
  clear_empties = λ key c. refl;
}

-- A collection with more rows in the index than points, so that the index is asked, and a cache that
-- holds the answer.
abbrev docs : Collection caching
unfolding Collection.new Collection.with_index
docs = record (Collection.new caching config) {
  index = 3;
  search_cache = some (some ((7, 2, none), []));
}

docs-IsCoherent : IsCoherent caching docs
unfolding docs Search.search_index Search.index_of
docs-IsCoherent cache query k field hits is found =
    let held : some ((7, 2, none), []) ≡ cache = some_injective is in
    let (keys, nothing) =
      put_lem (7, 2, none) (7, k, field) [] hits (ap (answer (7, k, field)) held ∙ found) in
    let main : field ≡ none = ap (λ (key : CacheKey). key.2) keys in
    ([], refl, rw (main, nothing) refl)

search-IsCoherent_example :
    (q : Vector) × (caching.query_hash q ≡ caching.query_hash (1 ∷ 2 ∷ []))
    × ((search caching (1 ∷ 2 ∷ []) 2 none none docs).0
        ≡ uncached caching (1 ∷ 2 ∷ []) q 2 none none docs)
    × IsCoherent caching (search caching (1 ∷ 2 ∷ []) 2 none none docs).1
search-IsCoherent_example =
    search-IsCoherent caching (1 ∷ 2 ∷ []) 2 none none docs caching-IsCache docs-IsCoherent
