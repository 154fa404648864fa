-- ===== src/Examples/Instances.antt =====
-- Small instances of the parameters: a codec that knows the deletions of the empty id in the seconds
-- 0 to 9, and an index that accepts every point.
use ferres_db.Base.{
  ℕ, zero, suc, ◌+◌, ◌-◌, ◌<◌, ◌≡◌, refl, sym, ap, ◌∙◌, Bool, true, false, ◌&&◌, Option, none, some,
  [], ◌∷◌, arith, ltb, leb, ◌==◌, if◌then◌else◌, length, take, All, inl, inr, Bool-cases,
}
use ferres_db.Base.Text.{Text, Bytes, text}
use ferres_db.Base.Utf8.{IsScalar, as_bytes, encode_char, from_utf8, from_utf8-as_bytes}
use ferres_db.Error.{ok}
use ferres_db.Point.{Point, Vector}
use ferres_db.Backend.{Backend, CollectionConfig, euclidean}
use ferres_db.Wal.Entry.{WalEntry, WalOperation, upsert, delete, link, Codec, IsLawful, Returns}

abbrev pub point : Text → Option ℕ → Point
point id expires = record {
  id = id;
  vector = 1 ∷ 2 ∷ [];
  metadata = text "null";
  created_at = 5;
  namespace = none;
  expires_at = expires;
  vectors = none;
  relations = none;
}

abbrev pub a : Point
a = point (text "a") none

abbrev pub second : ℕ → WalEntry
second n = record { timestamp = n; operation = delete (text "a") }

abbrev pub stored : ℕ → WalEntry
stored n = record { timestamp = n; operation = upsert a }

-- The entry of the `k`-th line.
abbrev pub entry_of : ℕ → WalEntry
entry_of k = if ltb k 10 then second k else stored (k - 10)

abbrev pub line_of : ℕ → Text
line_of n = b'{' ∷ (48 + n) ∷ b'}' ∷ []

abbrev pub is_letter_a : Text → Bool
is_letter_a [] = false
is_letter_a (c ∷ []) = c == b'a'
is_letter_a (c ∷ d ∷ s) = false

abbrev is_null : Text → Bool
is_null (a ∷ b ∷ c ∷ d ∷ []) = a == b'n' && b == b'u' && c == b'l' && d == b'l'
is_null _ = false

abbrev is_one_two : Text → Bool
is_one_two (m ∷ n ∷ []) = m == 1 && n == 2
is_one_two _ = false

abbrev is_none {ℓ} : {A : Type ℓ} → Option A → Bool
is_none none = true
is_none (some x) = false

abbrev pub is_point_a : Point → Bool
is_point_a p =
    is_letter_a p.id
    && is_one_two p.vector
    && is_null p.metadata
    && p.created_at == 5
    && is_none p.namespace
    && is_none p.expires_at
    && is_none p.vectors
    && is_none p.relations

abbrev pub to_json : WalEntry → Option Text
to_json e = elim e.operation [
  | delete id ↦ if ltb e.timestamp 10 && is_letter_a id then some (line_of e.timestamp) else none
  | upsert p ↦
      if ltb e.timestamp 10 && is_point_a p then some (line_of (e.timestamp + 10)) else none
  | link f o ↦ none
]

abbrev pub from_json : Text → Option WalEntry
from_json (a ∷ n ∷ c ∷ []) =
    if a == b'{' && c == b'}' && leb 48 n && ltb n 68 then some (entry_of (n - 48)) else none
from_json _ = none

abbrev pub unpack : Bytes → Option Bytes
unpack [] = none
unpack (b ∷ s) = some s

abbrev pub codec : Codec
codec = record {
  to_json = to_json;
  from_json = from_json;
  zstd_encode = λ s. some (0 ∷ s);
  zstd_decode = unpack;
}

letter_a : (t : Text) → is_letter_a t ≡ true → t ≡ text "a"
letter_a [] h = cc
letter_a (c ∷ []) h = ground arith
letter_a (c ∷ d ∷ s) h = cc

null_a : (t : Text) → is_null t ≡ true → t ≡ text "null"
null_a [] h = cc
null_a (x ∷ []) h = cc
null_a (x ∷ y ∷ []) h = cc
null_a (x ∷ y ∷ z ∷ []) h = cc
null_a (x ∷ y ∷ z ∷ w ∷ []) h = ground arith
null_a (x ∷ y ∷ z ∷ w ∷ v ∷ t) h = cc

one_two_a : (v : Vector) → is_one_two v ≡ true → v ≡ 1 ∷ 2 ∷ []
one_two_a [] h = cc
one_two_a (x ∷ []) h = cc
one_two_a (x ∷ y ∷ []) h = ground arith
one_two_a (x ∷ y ∷ z ∷ v) h = cc

none_a {ℓ} : {A : Type ℓ} (o : Option A) → is_none o ≡ true → o ≡ none
none_a none h = refl
none_a (some x) h = cc

both_true : (x y : Bool) → (x && y) ≡ true → (x ≡ true) × (y ≡ true)
both_true true y h = (refl, h)
both_true false y h = cc

point_a : (p : Point) → is_point_a p ≡ true → p ≡ a
point_a p h =
    let (r7, h8) = both_true _ (is_none p.relations) h in
    let (r6, h7) = both_true _ (is_none p.vectors) r7 in
    let (r5, h6) = both_true _ (is_none p.expires_at) r6 in
    let (r4, h5) = both_true _ (is_none p.namespace) r5 in
    let (r3, h4) = both_true _ (p.created_at == 5) r4 in
    let (r2, h3) = both_true _ (is_null p.metadata) r3 in
    let (h1, h2) = both_true (is_letter_a p.id) (is_one_two p.vector) r2 in
    let e1 : p.id ≡ text "a" = letter_a p.id h1 in
    let e2 : p.vector ≡ 1 ∷ 2 ∷ [] = one_two_a p.vector h2 in
    let e3 : p.metadata ≡ text "null" = null_a p.metadata h3 in
    let e4 : p.created_at ≡ 5 = ground arith in
    let e5 : p.namespace ≡ none = none_a p.namespace h5 in
    let e6 : p.expires_at ≡ none = none_a p.expires_at h6 in
    let e7 : p.vectors ≡ none = none_a p.vectors h7 in
    let e8 : p.relations ≡ none = none_a p.relations h8 in
    λ i. record {
      id = e1 i;
      vector = e2 i;
      metadata = e3 i;
      created_at = e4 i;
      namespace = e5 i;
      expires_at = e6 i;
      vectors = e7 i;
      relations = e8 i;
    }

-- The lines of this codec.
record Line (e : WalEntry) (t : Text) : Type 0 where
  k : ℕ
  small : k < 20
  line : t ≡ line_of k
  back : e ≡ entry_of k

known_entry :
    (ts : ℕ) (op : WalOperation) (t : Text)
    → to_json (record { timestamp = ts; operation = op }) ≡ some t
    → Line (record { timestamp = ts; operation = op }) t
known_entry ts (delete id) t h = elim (Bool-cases (ltb ts 10 && is_letter_a id)) [
  | inl fits ↦
      let (small, letter) = both_true (ltb ts 10) (is_letter_a id) fits in
      let same : id ≡ text "a" = letter_a id letter in
      let line : t ≡ line_of ts = cc in
      let back : record { timestamp = ts; operation = delete id } ≡ entry_of ts = ground arith in
      record { k = ts; small = ground arith; line = line; back = back }
  | inr other ↦ absurd (ground arith)
]
known_entry ts (upsert p) t h = elim (Bool-cases (ltb ts 10 && is_point_a p)) [
  | inl fits ↦
      let (small, point) = both_true (ltb ts 10) (is_point_a p) fits in
      let same : p ≡ a = point_a p point in
      let line : t ≡ line_of (ts + 10) = cc in
      let later : ltb (ts + 10) 10 ≡ false = ground arith in
      let again : (ts + 10) - 10 ≡ ts = omega arith in
      let back : entry_of (ts + 10) ≡ stored ts = rw later (ap stored again) in
      let held : record { timestamp = ts; operation = upsert p } ≡ stored ts =
        ap (λ x. record { timestamp = ts; operation = upsert x }) same in
      record { k = ts + 10; small = ground arith; line = line; back = held ∙ sym back }
  | inr other ↦ absurd (ground arith)
]
known_entry ts (link f o) t h = cc

ascii_bytes : (t : Text) → All (λ c. c < 128) t → as_bytes t ≡ t
unfolding as_bytes encode_char
ascii_bytes [] h = refl
ascii_bytes (c ∷ t) (h, hs) = ground (arith, ascii_bytes t hs)

pub some_injective {ℓ} : {A : Type ℓ} {x y : A} → some x ≡ some y → x ≡ y
some_injective h = cc

line_ascii : (n : ℕ) → n < 20 → All (λ c. c < 128) (line_of n)
line_ascii n h = (omega arith, (omega arith, (omega arith, tt)))

line_back : (n : ℕ) → n < 20 → from_json (line_of n) ≡ some (entry_of n)
line_back n h = ground arith

-- A proper prefix of a line is no line.
short_prefix :
    (m n : ℕ) (u : Text)
    → m < 20
    → n < length (as_bytes (line_of m))
    → from_utf8 (take n (as_bytes (line_of m))) ≡ some u
    → from_json u ≡ none
short_prefix m n u h k e =
    cut n (rw (ascii_bytes (line_of m) (line_ascii m h)) at k)
      (rw (ascii_bytes (line_of m) (line_ascii m h)) at e)
  where
    read_ascii : (t : Text) → All (λ c. c < 128) t → All IsScalar t → from_utf8 t ≡ some u → t ≡ u
    read_ascii t a sc q =
        let back : from_utf8 t ≡ some t =
          ap from_utf8 (sym (ascii_bytes t a)) ∙ from_utf8-as_bytes t sc in
        some_injective (sym back ∙ q)

    cut : (i : ℕ) → i < 3 → from_utf8 (take i (line_of m)) ≡ some u → from_json u ≡ none
    cut zero l q = ap from_json (sym (read_ascii [] tt tt q))
    cut (suc zero) l q =
        ap from_json (sym (read_ascii (b'{' ∷ []) (omega arith, tt) (inl (omega arith), tt) q))
    cut (suc (suc zero)) l q = ap from_json (
        sym (
          read_ascii (b'{' ∷ (48 + m) ∷ []) (omega arith, (omega arith, tt))
            (inl (omega arith), (inl (omega arith), tt)) q))
    cut (suc (suc (suc i))) l q = absurd (omega arith)

pub codec-IsLawful : IsLawful codec
codec-IsLawful = record {
  json_object = λ e t h.
      let known : Line e t = known_entry e.timestamp e.operation t h in
      rw known.line (record {
        rest = (48 + known.k) ∷ b'}' ∷ [];
        braced = refl;
        scalar = (inl (omega arith), (inl (omega (arith, known.small)), (inl (omega arith), tt)));
        printable = (omega arith, (omega (arith, known.small), (omega arith, tt)));
      });
  json_prefix = λ e t u n h k q.
      let known : Line e t = known_entry e.timestamp e.operation t h in
      short_prefix known.k n u known.small (rw known.line at k) (rw known.line at q);
  zstd_back = λ b z h. let same : 0 ∷ b ≡ z = cc in rw (← same) refl;
  zstd_full = λ b z h. let same : 0 ∷ b ≡ z = cc in omega (arith, ap length same);
}

pub codec-Returns : (e : WalEntry) → Returns codec e
codec-Returns e t h =
    let known : Line e t = known_entry e.timestamp e.operation t h in
    rw known.line (line_back known.k known.small ∙ ap (λ x. some x) (sym known.back))

-- An index that counts the points that it is given, and a cache that remembers nothing.
abbrev pub toy : Backend
toy = record {
  Index = ℕ;
  create_ann_index = λ config. 0;
  build = λ ps i. (ok tt, length ps);
  add_point = λ p i. (ok tt, i + 1);
  remove_point = λ id i. i;
  search = λ q k f i. ok [];
  tombstone_count = λ i. 0;
  index_id_count = λ i. i;
  current_ef_search = λ i. 50;
  set_ef_search = λ v i. i;
  Cache = Unit;
  cache_new = λ n. tt;
  cache_clear = λ c. c;
  cache_get = λ key c. (none, c);
  cache_put = λ key hits c. c;
  query_hash = λ v. 0;
  metadata_text = λ m field. m;
  lower = λ t. t;
  distance_between = λ m v w. 0;
  not_greater = leb;
}

abbrev pub config : CollectionConfig
config = record {
  name = text "docs";
  dimension = 2;
  distance = euclidean;
  ef_search = 50;
  search_cache_size = 0;
  enable_bm25 = true;
  bm25_text_field = text "text";
  tiered_storage = record { enabled = true; hot_threshold_hours = 1; warm_threshold_hours = 2 };
  retention_days = none;
}
