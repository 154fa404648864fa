-- ===== src/Point/StorageId.antt =====
-- The key of a point determines its namespace and its id.
use ferres_db.Base.{ℕ, ◌≡◌, refl, sym, ap, ◌∙◌, Option, none, some, [], ◌∷◌, ◌++◌, arith, All, ◌≢◌}
use ferres_db.Base.Text.{Text}
use ferres_db.Point.{Point, storage_id, storage_id_from_parts, split_nul, parse_storage_id}

-- No NUL in a text.
abbrev pub IsNulFree : Text → Type 0
IsNulFree = All (λ c. c ≢ 0)

-- A namespace without NUL, or an id without NUL that stands alone.
abbrev pub IsPlain : Option Text → Text → Type 0
IsPlain none id = IsNulFree id
IsPlain (some n) id = IsNulFree n

split_nul_free : (s : Text) → IsNulFree s → split_nul s ≡ none
unfolding split_nul
split_nul_free [] h = refl
split_nul_free (c ∷ s) h = ground (arith, split_nul_free s)

split_nul-append : (n id : Text) → IsNulFree n → split_nul (n ++ 0 ∷ id) ≡ some (n, id)
unfolding split_nul
split_nul-append [] id h = refl
split_nul-append (c ∷ n) id h = ground (arith, split_nul-append n id)

-- Parsing the key gives back the parts.
pub parse_storage_id-storage_id_from_parts :
    (ns : Option Text) (id : Text)
    → IsPlain ns id
    → parse_storage_id (storage_id_from_parts ns id) ≡ (ns, id)
unfolding parse_storage_id storage_id_from_parts
parse_storage_id-storage_id_from_parts none id h = ground (arith, split_nul_free id)
parse_storage_id-storage_id_from_parts (some n) id h = ground (arith, split_nul-append n id)

-- Points with plain parts share a key only if they share namespace and id.
pub storage_id_injective :
    (p q : Point)
    → IsPlain p.namespace p.id
    → IsPlain q.namespace q.id
    → storage_id p ≡ storage_id q
    → (p.namespace ≡ q.namespace) × (p.id ≡ q.id)
unfolding storage_id
storage_id_injective p q hp hq e =
    let same =
      sym (parse_storage_id-storage_id_from_parts p.namespace p.id hp)
      ∙ ap parse_storage_id e
      ∙ parse_storage_id-storage_id_from_parts q.namespace q.id hq in
    (ap (λ (k : Option Text × Text). k.0) same, ap (λ (k : Option Text × Text). k.1) same)

rejoin : Text → Option (Text × Text) → Text
rejoin key none = key
rejoin key (some (n, id)) = n ++ 0 ∷ id

rejoin-cons :
    (c : ℕ) (s : Text) (r : Option (Text × Text))
    → rejoin s r ≡ s
    → rejoin (c ∷ s) (elim r [ none ↦ none | some (n, id) ↦ some (c ∷ n, id) ]) ≡ c ∷ s
unfolding rejoin
rejoin-cons c s none h = refl
rejoin-cons c s (some (n, id)) h = ap (◌∷◌ c) h

rejoin-split_nul : (key : Text) → rejoin key (split_nul key) ≡ key
unfolding split_nul rejoin
rejoin-split_nul [] = refl
rejoin-split_nul (c ∷ s) = ground (arith, rejoin-cons c s (split_nul s) (rejoin-split_nul s))

-- Every key is the key of the parts that it is parsed into.
pub storage_id_from_parts-parse_storage_id :
    (key : Text) → storage_id_from_parts (parse_storage_id key).0 (parse_storage_id key).1 ≡ key
unfolding parse_storage_id storage_id_from_parts rejoin
storage_id_from_parts-parse_storage_id key = ground (arith, rejoin-split_nul key)

-- Without the condition the claim fails: an id with a NUL passes for a namespace and an id.
pub storage_id_collides :
    (n id : Text) → storage_id_from_parts none (n ++ 0 ∷ id) ≡ storage_id_from_parts (some n) id
unfolding storage_id_from_parts
storage_id_collides n id = refl
