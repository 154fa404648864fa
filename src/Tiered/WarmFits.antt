-- ===== src/Tiered/WarmFits.antt =====
-- Every entry of the warm storage lies in its file, also behind removals, so that it can be read.
use ferres_db.Base.{
  ℕ, ◌+◌, ◌*◌, ◌≤◌, ◌<◌, ◌≡◌, refl, ◌∙◌, false, some, [], ◌∷◌, ◌++◌, length, take, drop, ltb, arith,
  unwrap_or, Bool-cases, inl, inr, length-append, length-take,
}
use ferres_db.Base.Text.{Text, Bytes, text_eq}
use ferres_db.Base.Dict
use ferres_db.Base.Dict.{Dict}
use ferres_db.Error.{ok}
use ferres_db.Point.{Vector}
use ferres_db.Tiered.Warm.{
  WarmStorage, vector_bytes, bytes_vector, max_end, save_index, mapped, reload_mmap, add_vector,
  read_vector, remove_vector,
}
use ferres_db.Tiered.WarmReads.{
  InBounds, insert-InBounds, retain_all, get-max_end, get-InBounds, mapped-some, get-insert_new,
  length-vector_bytes,
}

pub record Fits (w : WarmStorage) : Type 0 where
  pub file : Bytes
  pub file_is : unwrap_or w.vectors_file [] ≡ file
  pub map_is : w.mmap ≡ mapped file
  pub bounded : InBounds (w.dimension * 4) (length file) w.offsets
  pub roomy : length w.offsets * w.dimension * 4 ≤ length file

remove-InBounds :
    (width n : ℕ) (id : Text) (d : Dict ℕ)
    → InBounds width n d
    → InBounds width n (Dict.remove id d)
unfolding Dict.remove
remove-InBounds width n id [] h = tt
remove-InBounds width n id ((j, o) ∷ d) (h, hs) = elim (Bool-cases (text_eq j id)) [
  | inl same ↦ rw same (remove-InBounds width n id d hs)
  | inr other ↦ rw other (h, remove-InBounds width n id d hs)
]

length-remove-le : (id : Text) (d : Dict ℕ) → length (Dict.remove id d) ≤ length d
unfolding Dict.remove
length-remove-le id [] = omega arith
length-remove-le id ((j, o) ∷ d) = ground (arith, length-remove-le id d)

length-insert-le : (id : Text) (o : ℕ) (d : Dict ℕ) → length (Dict.insert id o d) ≤ length d + 1
unfolding Dict.insert
length-insert-le id o [] = omega arith
length-insert-le id o ((j, p) ∷ d) = ground (arith, length-insert-le id o d)

InBounds-max_end : (width n : ℕ) (d : Dict ℕ) → max_end width d ≤ n → InBounds width n d
unfolding max_end
InBounds-max_end width n [] h = tt
InBounds-max_end width n ((j, o) ∷ d) h = (omega arith, InBounds-max_end width n d (omega arith))

times4_mono : (a c k : ℕ) → a ≤ c → a * k * 4 ≤ c * k * 4
times4_mono a c k h = grind arith

suc_times : (c k : ℕ) → (c + 1) * k * 4 ≡ c * k * 4 + k * 4
suc_times c k = grind arith

times4-next : (a c k : ℕ) → a ≤ c + 1 → a * k * 4 ≤ c * k * 4 + k * 4
times4-next a c k h = omega (arith, times4_mono a (c + 1) k h, suc_times c k)

pub remove_vector-Fits : (id : Text) (w : WarmStorage) → Fits w → Fits (remove_vector id w)
unfolding remove_vector
remove_vector-Fits id w f = record {
  file = f.file;
  file_is = f.file_is;
  map_is = f.map_is;
  bounded = remove-InBounds (w.dimension * 4) (length f.file) id w.offsets f.bounded;
  roomy = omega (
    arith,
    f.roomy,
    times4_mono (length (Dict.remove id w.offsets)) (length w.offsets) w.dimension
        (length-remove-le id w.offsets),
  );
}

-- A reload of a storage whose entries are in bounds cuts at most what lies behind the last one.
reload-Fits :
    (w : WarmStorage) (file : Bytes)
    → w.vectors_file ≡ some file
    → InBounds (w.dimension * 4) (length file) w.offsets
    → length w.offsets * w.dimension * 4 ≤ length file
    → length w.offsets * w.dimension * 4 ≤ max_end (w.dimension * 4) w.offsets
    → Fits (reload_mmap w)
      × ((reload_mmap w).offsets ≡ w.offsets)
      × ((reload_mmap w).dimension ≡ w.dimension)
unfolding reload_mmap
reload-Fits w file is bounded roomy far =
    let end : ℕ = max_end (w.dimension * 4) w.offsets in
    let kept = retain_all (w.dimension * 4) (length file) w.offsets bounded in
    elim (Bool-cases (ltb end (length file))) [
      | inr whole ↦
          rw (is, kept, whole)
            (
              record {
                file = file;
                file_is = refl;
                map_is = refl;
                bounded = bounded;
                roomy = roomy;
              },
              refl,
              refl,
            )
      | inl longer ↦ elim (Bool-cases (ltb 0 end)) [
        | inr nothing ↦
            rw (is, kept, longer, nothing)
              (
                record {
                  file = file;
                  file_is = refl;
                  map_is = refl;
                  bounded = bounded;
                  roomy = roomy;
                },
                refl,
                refl,
              )
        | inl some_end ↦
            let n : length (take end file) ≡ end = length-take end file ∙ ground arith in
            rw (is, kept, longer, some_end)
              (
                record {
                  file = take end file;
                  file_is = refl;
                  map_is = refl;
                  bounded =
                      InBounds-max_end (w.dimension * 4) (length (take end file)) w.offsets
                        (omega arith);
                  roomy = omega arith;
                },
                refl,
                refl,
              )
      ]
    ]

-- An addition keeps every entry in bounds, and drops none.
pub add_vector-Fits :
    (id : Text) (v : Vector) (w : WarmStorage)
    → Fits w
    → length v ≡ w.dimension
    → Fits (add_vector id v w)
      × ((add_vector id v w).offsets
          ≡ Dict.insert id (length w.offsets * w.dimension * 4) w.offsets)
      × ((add_vector id v w).dimension ≡ w.dimension)
unfolding add_vector save_index
add_vector-Fits id v w f sized =
    let o : ℕ = length w.offsets * w.dimension * 4 in
    let total : length (f.file ++ vector_bytes v) ≡ length f.file + w.dimension * 4 =
      omega (arith, length-append f.file (vector_bytes v), length-vector_bytes v) in
    let offsets : Dict ℕ = Dict.insert id o w.offsets in
    let end = get-max_end (w.dimension * 4) id offsets o (get-insert_new id o w.offsets) in
    let more : length offsets * w.dimension * 4 ≤ o + w.dimension * 4 =
      times4-next (length offsets) (length w.offsets) w.dimension
        (length-insert-le id o w.offsets) in
    rw (f.file_is) (
      reload-Fits
        (record w {
          vectors_file = some (f.file ++ vector_bytes v);
          index_file = some offsets;
          offsets = offsets;
        })
        (f.file ++ vector_bytes v) refl
        (insert-InBounds (w.dimension * 4) (length f.file) (length (f.file ++ vector_bytes v)) id o
          w.offsets f.bounded (omega arith) (omega (arith, f.roomy)))
        (omega (arith, f.roomy)) (omega arith))

-- An entry of the index can be read.
pub read_vector-Fits :
    (id : Text) (w : WarmStorage) (o : ℕ)
    → Fits w
    → 0 < w.dimension
    → Dict.get id w.offsets ≡ some o
    → (v : Vector) × (read_vector id w ≡ ok v)
unfolding read_vector
read_vector-Fits id w o f pos at =
    let le = get-InBounds (w.dimension * 4) (length f.file) id w.offsets o f.bounded at in
    let fine : ltb (length f.file) (o + w.dimension * 4) ≡ false = ground arith in
    (
      bytes_vector (take (w.dimension * 4) (drop o f.file)),
      rw (at, f.map_is, mapped-some f.file (omega arith), fine) refl,
    )
