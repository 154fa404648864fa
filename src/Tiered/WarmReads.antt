-- ===== src/Tiered/WarmReads.antt =====
-- What a read of the warm storage finds behind an addition.
use ferres_db.Base.{
  ℕ, zero, suc, ◌+◌, ◌*◌, ◌^◌, ◌≤◌, ◌<◌, ◌≡◌, refl, sym, ap, ap₂, ◌∙◌, false, Option, none, some,
  [], ◌∷◌, ◌++◌, length, take, drop, ltb, leb, arith, if◌then◌else◌, unwrap_or, All, Bool-cases,
  inl, inr, length-append, drop-length-append,
}
use ferres_db.Base.Text.{Text, Bytes, text_eq, text_eq_refl, text_eq_iff}
use ferres_db.Base.Dict
use ferres_db.Base.Dict.{Dict, IsDistinct, get-insert, insert-IsDistinct}
use ferres_db.Error.{ok}
use ferres_db.Point.{Vector}
use ferres_db.Wal.Entry.{to_le_bytes}
use ferres_db.Wal.Frames.{le_bytes_back}
use ferres_db.Tiered.Warm.{
  WarmStorage, vector_bytes, bytes_vector, retain, max_end, save_index, mapped, reload_mmap,
  add_vector, read_at, read_slot, read_vector,
}

vector_bytes_back : (v : Vector) → All (λ x. x < 2 ^ 32) v → bytes_vector (vector_bytes v) ≡ v
unfolding vector_bytes bytes_vector to_le_bytes
vector_bytes_back [] h = refl
vector_bytes_back (x ∷ v) (h, hs) = ap₂ (◌∷◌) (le_bytes_back x h) (vector_bytes_back v hs)

pub length-vector_bytes : (v : Vector) → length (vector_bytes v) ≡ length v * 4
unfolding vector_bytes to_le_bytes
length-vector_bytes [] = refl
length-vector_bytes (x ∷ v) = omega (arith, length-vector_bytes v)

-- Every entry lies in the first `n` bytes.
abbrev pub InBounds : ℕ → ℕ → Dict ℕ → Type 0
InBounds width n offsets = All (λ e. e.1 + width ≤ n) offsets

widen-InBounds : (width n m : ℕ) (d : Dict ℕ) → InBounds width n d → n ≤ m → InBounds width m d
widen-InBounds width n m [] h le = tt
widen-InBounds width n m ((j, p) ∷ d) (h, hs) le = (omega arith, widen-InBounds width n m d hs le)

pub insert-InBounds :
    (width n m : ℕ) (id : Text) (o : ℕ) (d : Dict ℕ)
    → InBounds width n d
    → n ≤ m
    → o + width ≤ m
    → InBounds width m (Dict.insert id o d)
unfolding Dict.insert
insert-InBounds width n m id o [] h le fits = (fits, tt)
insert-InBounds width n m id o ((j, p) ∷ d) (h, hs) le fits = elim (Bool-cases (text_eq j id)) [
  | inl same ↦ rw same (fits, widen-InBounds width n m d hs le)
  | inr other ↦ rw other (omega arith, insert-InBounds width n m id o d hs le fits)
]

pub retain_all : (width n : ℕ) (d : Dict ℕ) → InBounds width n d → retain width n d ≡ d
unfolding retain
retain_all width n [] h = refl
retain_all width n ((j, o) ∷ d) (h, hs) = ground (arith, retain_all width n d hs)

pub get-max_end :
    (width : ℕ) (k : Text) (d : Dict ℕ) (o : ℕ)
    → Dict.get k d ≡ some o
    → o + width ≤ max_end width d
unfolding Dict.get max_end
get-max_end width k [] o h = cc
get-max_end width k ((j, p) ∷ d) o h = ground (arith, get-max_end width k d o)

take-drop-append :
    (o width : ℕ) (xs ys : Bytes)
    → o + width ≤ length xs
    → take width (drop o (xs ++ ys)) ≡ take width (drop o xs)
take-drop-append zero zero xs ys h = refl
take-drop-append zero (suc w) [] ys h = absurd (omega arith)
take-drop-append zero (suc w) (x ∷ xs) ys h =
    ap (◌∷◌ x) (take-drop-append zero w xs ys (omega arith))
take-drop-append (suc o) w [] ys h = absurd (omega arith)
take-drop-append (suc o) w (x ∷ xs) ys h = take-drop-append o w xs ys (omega arith)

-- As many vectors in the file as in the index, and the map is of the whole file.
pub record IsPacked (w : WarmStorage) : Type 0 where
  pub file : Bytes
  pub file_is : unwrap_or w.vectors_file [] ≡ file
  pub packed : length file ≡ length w.offsets * w.dimension * 4
  pub bounded : InBounds (w.dimension * 4) (length file) w.offsets
  pub map_is : w.mmap ≡ mapped file

reload-grown :
    (w : WarmStorage) (file : Bytes) (id : Text) (o : ℕ)
    → w.vectors_file ≡ some file
    → InBounds (w.dimension * 4) (length file) w.offsets
    → Dict.get id w.offsets ≡ some o
    → length file ≤ o + w.dimension * 4
    → reload_mmap w ≡ record w { mmap = mapped file }
unfolding reload_mmap
reload-grown w file id o is bounded at last =
    let far : length file ≤ max_end (w.dimension * 4) w.offsets =
      omega (arith, get-max_end (w.dimension * 4) id w.offsets o at) in
    let uncut : ltb (max_end (w.dimension * 4) w.offsets) (length file) ≡ false = ground arith in
    let unlost : ltb (length w.offsets) (length w.offsets) ≡ false = ground arith in
    rw (is, retain_all (w.dimension * 4) (length file) w.offsets bounded, uncut, unlost) refl

pub get-insert_new : (id : Text) (o : ℕ) (d : Dict ℕ) → Dict.get id (Dict.insert id o d) ≡ some o
get-insert_new id o d = get-insert id id o d ∙ rw (text_eq_refl id) refl

length-insert_new :
    (id : Text) (o : ℕ) (d : Dict ℕ)
    → Dict.get id d ≡ none
    → length (Dict.insert id o d) ≡ length d + 1
unfolding Dict.get Dict.insert
length-insert_new id o [] h = refl
length-insert_new id o ((j, p) ∷ d) h = ground (arith, length-insert_new id o d)

-- The storage after an addition to one without holes.
abbrev grown : Text → Vector → Bytes → WarmStorage → WarmStorage
grown id v file w =
    let offsets : Dict ℕ = Dict.insert id (length w.offsets * w.dimension * 4) w.offsets in
    record w {
      vectors_file = some (file ++ vector_bytes v);
      index_file = some offsets;
      offsets = offsets;
      mmap = mapped (file ++ vector_bytes v);
    }

add_vector_lem :
    (id : Text) (v : Vector) (w : WarmStorage) (p : IsPacked w)
    → length v ≡ w.dimension
    → add_vector id v w ≡ grown id v p.file w
unfolding add_vector save_index
add_vector_lem id v w p sized =
    let o : ℕ = length w.offsets * w.dimension * 4 in
    let total : length (p.file ++ vector_bytes v) ≡ length p.file + w.dimension * 4 =
      omega (arith, length-append p.file (vector_bytes v), length-vector_bytes v) in
    rw (p.file_is) (
      reload-grown
        (record w {
          vectors_file = some (p.file ++ vector_bytes v);
          index_file = some (Dict.insert id o w.offsets);
          offsets = Dict.insert id o w.offsets;
        })
        (p.file ++ vector_bytes v) id o refl
        (insert-InBounds (w.dimension * 4) (length p.file) (length (p.file ++ vector_bytes v)) id o
          w.offsets p.bounded (omega arith) (omega (arith, p.packed)))
        (get-insert_new id o w.offsets) (omega (arith, p.packed)))

-- Adding a vector under a new id to a storage without holes keeps it so.
pub add_vector-IsPacked :
    (id : Text) (v : Vector) (w : WarmStorage)
    → IsPacked w
    → Dict.get id w.offsets ≡ none
    → length v ≡ w.dimension
    → IsPacked (add_vector id v w)
add_vector-IsPacked id v w p fresh sized =
    let total : length (p.file ++ vector_bytes v) ≡ length p.file + w.dimension * 4 =
      omega (arith, length-append p.file (vector_bytes v), length-vector_bytes v) in
    let o : ℕ = length w.offsets * w.dimension * 4 in
    rw (add_vector_lem id v w p sized) (record {
      file = p.file ++ vector_bytes v;
      file_is = refl;
      packed = rw (length-insert_new id o w.offsets fresh) (omega (arith, p.packed, total));
      bounded =
          insert-InBounds (w.dimension * 4) (length p.file) (length (p.file ++ vector_bytes v)) id o
            w.offsets p.bounded (omega arith) (omega (arith, p.packed));
      map_is = refl;
    })

read_at-append :
    (o width : ℕ) (file more : Bytes)
    → o + width ≤ length file
    → read_at o width (file ++ more) ≡ read_at o width file
read_at-append o width file more h =
    let a : ltb (length (file ++ more)) (o + width) ≡ false =
      ground (arith, length-append file more) in
    let c : ltb (length file) (o + width) ≡ false = ground arith in
    rw (a, c) (ap (λ s. ok (bytes_vector s)) (take-drop-append o width file more h))

read_at_end :
    (v : Vector) (file : Bytes)
    → All (λ x. x < 2 ^ 32) v
    → read_at (length file) (length v * 4) (file ++ vector_bytes v) ≡ ok v
read_at_end v file small =
    let a : ltb (length (file ++ vector_bytes v)) (length file + length v * 4) ≡ false =
      ground (arith, length-append file (vector_bytes v), length-vector_bytes v) in
    rw
      (
        a,
        drop-length-append file (vector_bytes v),
        ← (length-vector_bytes v),
        take_whole (vector_bytes v),
      )
      (ap ok (vector_bytes_back v small))
  where
    take_whole : (xs : Bytes) → take (length xs) xs ≡ xs
    take_whole [] = refl
    take_whole (x ∷ xs) = ap (◌∷◌ x) (take_whole xs)

pub mapped-some : (s : Bytes) → 0 < length s → mapped s ≡ some s
mapped-some [] h = absurd (omega arith)
mapped-some (x ∷ s) h = refl

pub get-InBounds :
    (width n : ℕ) (k : Text) (d : Dict ℕ) (o : ℕ)
    → InBounds width n d
    → Dict.get k d ≡ some o
    → o + width ≤ n
unfolding Dict.get
get-InBounds width n k [] o h e = cc
get-InBounds width n k ((j, p) ∷ d) o (h, hs) e = ground (arith, get-InBounds width n k d o hs)

read_slot_other :
    (slot slot' : Option ℕ) (width : ℕ) (file more : Bytes)
    → slot' ≡ slot
    → 0 < width
    → ((o : ℕ) → slot ≡ some o → o + width ≤ length file)
    → read_slot slot' (mapped (file ++ more)) width ≡ read_slot slot (mapped file) width
read_slot_other none slot' width file more same some_width inside = rw same refl
read_slot_other (some o) slot' width file more same some_width inside =
    let le : o + width ≤ length file = inside o refl in
    rw
      (
        same,
        mapped-some file (omega arith),
        mapped-some (file ++ more) (omega (arith, length-append file more)),
      )
      (read_at-append o width file more le)

-- Behind the addition of a vector of the storage's dimension (not 0) under an id that was not there,
-- to a warm storage without holes (its file has as many vectors as it has ids, each offset lies
-- within it, and it is mapped): the new id reads as its vector, and every other id as before.
pub read-add_vector :
    (id j : Text) (v : Vector) (w : WarmStorage)
    → IsPacked w
    → Dict.get id w.offsets ≡ none
    → length v ≡ w.dimension
    → 0 < w.dimension
    → All (λ x. x < 2 ^ 32) v
    → text_eq id j ≡ false
    → (read_vector id (add_vector id v w) ≡ ok v)
      × (read_vector j (add_vector id v w) ≡ read_vector j w)
unfolding read_vector
read-add_vector id j v w p fresh sized some_dim small other =
    let o : ℕ = length w.offsets * w.dimension * 4 in
    let more : length (p.file ++ vector_bytes v) ≡ length p.file + length v * 4 =
      length-append p.file (vector_bytes v) ∙ ap (λ n. length p.file + n) (length-vector_bytes v) in
    rw (add_vector_lem id v w p sized) (
      ap (λ slot. read_slot slot (mapped (p.file ++ vector_bytes v)) (w.dimension * 4))
            (get-insert_new id o w.offsets)
          ∙ ap (λ mmap. read_slot (some o) mmap (w.dimension * 4))
              (mapped-some (p.file ++ vector_bytes v) (omega arith))
          ∙ ap₂ (λ at width. read_at at width (p.file ++ vector_bytes v)) (sym p.packed)
              (omega arith)
          ∙ read_at_end v p.file small,
      read_slot_other (Dict.get j w.offsets) (Dict.get j (Dict.insert id o w.offsets))
            (w.dimension * 4) p.file (vector_bytes v) (get-insert id j o w.offsets ∙ rw other refl)
            (omega arith)
            (λ q at. get-InBounds (w.dimension * 4) (length p.file) j w.offsets q p.bounded at)
          ∙ ap (λ mmap. read_slot (Dict.get j w.offsets) mmap (w.dimension * 4)) (sym p.map_is),
    )

get-retain :
    (width n : ℕ) (k : Text) (d : Dict ℕ)
    → IsDistinct d
    → Dict.get k (retain width n d)
      ≡ elim (Dict.get k d) [ none ↦ none | some o ↦ if leb (o + width) n then some o else none ]
unfolding Dict.get retain
get-retain width n k [] h = refl
get-retain width n k ((j, o) ∷ d) (h, hs) =
    ground (arith, text_eq_iff j k, get-retain width n k d hs, get-retain width n j d hs)

add_vector-offsets :
    (id : Text) (v : Vector) (w : WarmStorage)
    → (n : ℕ) × ((add_vector id v w).offsets
        ≡ retain
            (w.dimension * 4)
            n
            (Dict.insert id (length w.offsets * w.dimension * 4) w.offsets))
unfolding add_vector reload_mmap save_index
add_vector-offsets id v w = (length (unwrap_or w.vectors_file [] ++ vector_bytes v), refl)

-- Where an id has the offset that the next vector is given, which is so for the last vector of a
-- storage without holes after the removal of another one, that id and the new one read the same.
pub read-add_collides :
    (id other : Text) (v : Vector) (w : WarmStorage)
    → IsDistinct w.offsets
    → Dict.get other w.offsets ≡ some (length w.offsets * w.dimension * 4)
    → text_eq id other ≡ false
    → read_vector id (add_vector id v w) ≡ read_vector other (add_vector id v w)
unfolding read_vector
read-add_collides id other v w distinct at different =
    let o : ℕ = length w.offsets * w.dimension * 4 in
    let d : Dict ℕ = Dict.insert id o w.offsets in
    let (n, is) = add_vector-offsets id v w in
    let mine : Dict.get id d ≡ some o = get-insert_new id o w.offsets in
    let theirs : Dict.get other d ≡ some o = get-insert id other o w.offsets ∙ rw different at in
    let both = insert-IsDistinct id o w.offsets distinct in
    ap (λ slot. read_slot slot (add_vector id v w).mmap ((add_vector id v w).dimension * 4))
      (ap (Dict.get id) is
        ∙ get-retain (w.dimension * 4) n id d both
        ∙ rw (mine, theirs) refl
        ∙ sym (get-retain (w.dimension * 4) n other d both)
        ∙ sym (ap (Dict.get other) is))
