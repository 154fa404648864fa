-- ===== src/Examples/Tiers.antt =====
-- The storages, the indices, the circuit breaker and the permissions, at small inputs.
use ferres_db.Base.{◌*◌, ◌≡◌, refl, true, false, not, none, some, [], ◌∷◌, arith, length, is_empty}
use ferres_db.Base.Text.{text, text_eq, trim}
use ferres_db.Base.Dict
use ferres_db.Base.Dict.{Dict, contains_key, values}
use ferres_db.Error.{ok}
use ferres_db.Bm25
use ferres_db.Bm25.{Bm25Index, index_document, remove_document, tokenize}
use ferres_db.Bm25.Counts.{
  IsCounted, new-IsCounted, index_document-IsCounted, remove_document-IsCounted,
}
use ferres_db.Tiered.{
  hot, cold, TieredStorageConfig, AccessTracker, get_tier_at, points_to_demote_at,
}
use ferres_db.Tiered.Cooling.{demotion, get-points_to_demote_at}
use ferres_db.Tiered.Warm.{WarmStorage, add_vector, read_vector, remove_vector}
use ferres_db.Tiered.WarmReads.{IsPacked, read-add_vector}

-- A warm storage of dimension 1 with the vectors of "a" and "b".
abbrev pair : WarmStorage
pair = record {
  vectors_file = some (1 ∷ 0 ∷ 0 ∷ 0 ∷ 2 ∷ 0 ∷ 0 ∷ 0 ∷ []);
  index_file = none;
  mmap = some (1 ∷ 0 ∷ 0 ∷ 0 ∷ 2 ∷ 0 ∷ 0 ∷ 0 ∷ []);
  offsets = (text "a", 0) ∷ (text "b", 4) ∷ [];
  dimension = 1;
}

pair-IsPacked : IsPacked pair
pair-IsPacked = record {
  file = 1 ∷ 0 ∷ 0 ∷ 0 ∷ 2 ∷ 0 ∷ 0 ∷ 0 ∷ [];
  file_is = refl;
  packed = refl;
  bounded = (omega arith, (omega arith, tt));
  map_is = refl;
}

no_c : Dict.get (text "c") pair.offsets ≡ none
unfolding Dict.get text_eq
no_c = refl

c_is_not_a : text_eq (text "c") (text "a") ≡ false
unfolding text_eq
c_is_not_a = refl

read-add_vector_example :
    (read_vector (text "c") (add_vector (text "c") (7 ∷ []) pair) ≡ ok (7 ∷ []))
    × (read_vector (text "a") (add_vector (text "c") (7 ∷ []) pair) ≡ read_vector (text "a") pair)
read-add_vector_example =
    read-add_vector (text "c") (text "a") (7 ∷ []) pair pair-IsPacked no_c refl (omega arith)
      (omega arith, tt) c_is_not_a

-- The storage after the removal of "a": the next vector gets the offset of "b".
abbrev holed : WarmStorage
unfolding remove_vector Dict.remove text_eq
holed = remove_vector (text "a") pair

holed-IsDistinct : Dict.IsDistinct holed.offsets
unfolding holed Dict.get
holed-IsDistinct = (refl, tt)

b_stays : Dict.get (text "b") holed.offsets ≡ some (length holed.offsets * holed.dimension * 4)
unfolding holed Dict.get text_eq
b_stays = refl

c_is_not_b : text_eq (text "c") (text "b") ≡ false
unfolding text_eq
c_is_not_b = refl

abbrev tiers : TieredStorageConfig
tiers = record { enabled = true; hot_threshold_hours = 24; warm_threshold_hours = 168 }

abbrev tracker : AccessTracker
tracker = record { last_access = (text "a", 100) ∷ []; access_count = (text "a", 1) ∷ [] }

tiers-IsDistinct : Dict.IsDistinct ((text "a", hot) ∷ (text "b", cold) ∷ [])
unfolding Dict.get text_eq
tiers-IsDistinct = (refl, (refl, tt))

get-points_to_demote_at_example :
    Dict.get
      (text "a")
      (points_to_demote_at tiers ((text "a", hot) ∷ (text "b", cold) ∷ []) 900_000 tracker)
    ≡ elim (Dict.get (text "a") ((text "a", hot) ∷ (text "b", cold) ∷ [])) [
      | none ↦ none
      | some current ↦ demotion current (get_tier_at (text "a") tiers 900_000 tracker)
    ]
get-points_to_demote_at_example =
    get-points_to_demote_at (text "a") tiers ((text "a", hot) ∷ (text "b", cold) ∷ []) 900_000
      tracker tiers-IsDistinct

index_document-IsCounted_example :
    IsCounted (index_document (λ t. t) (text "d") (text "red fox") Bm25.new)
    × (contains_key (text "d") (index_document (λ t. t) (text "d") (text "red fox") Bm25.new).docs
        ≡ not (is_empty (tokenize (λ t. t) (trim (text "red fox")))))
index_document-IsCounted_example =
    index_document-IsCounted (λ t. t) (text "d") (text "red fox") Bm25.new new-IsCounted

remove_document-IsCounted_example :
    IsCounted
      (remove_document (text "d") (index_document (λ t. t) (text "d") (text "red fox") Bm25.new))
    × (Dict.get
          (text "d")
          (remove_document
            (text "d")
            (index_document (λ t. t) (text "d") (text "red fox") Bm25.new)).docs
        ≡ none)
remove_document-IsCounted_example =
    remove_document-IsCounted (text "d")
      (index_document (λ t. t) (text "d") (text "red fox") Bm25.new)
      ((index_document-IsCounted (λ t. t) (text "d") (text "red fox") Bm25.new new-IsCounted).0)
