-- ===== src/Error.antt =====
-- The errors of the core (crates/core/src/error.rs), and computations that may fail with one.
use ferres_db.Base.{ℕ, Bool, true, false, Option, none, some, ◌≡◌, refl, ◌⊎◌, inl, inr}
use ferres_db.Base.Text.{Text}

-- The messages of `FerresError::Storage` and `InvalidVector`, without the texts that are formatted
-- into them.
pub data Message : Type 0 where
  wal_too_large wal_writer_closed wal_serialize wal_compress wal_write wal_fsync wal_read : Message
  wal_frame_cut wal_not_utf8 circuit_open bm25_disabled no_offset no_mmap out_of_bounds : Message
  cold_missing cold_write cold_parse not_finite zero_dimension named_empty index_failed
        filter_not_object filter_namespace filter_operand filter_operator snapshot_failed :
      Message

pub data FerresError : Type 0 where
  dimension_mismatch : ℕ → ℕ → FerresError
  invalid_point_id : Text → FerresError
  empty_vector : FerresError
  invalid_vector : Message → FerresError
  collection_not_found collection_already_exists point_not_found : Text → FerresError
  index_not_built : FerresError
  unknown_vector_field : Text → FerresError
  storage : Message → FerresError

pub data Result {ℓ} (A : Type ℓ) : Type ℓ where
  ok : A → Result A
  err : FerresError → Result A

module _ {ℓ κ} {A : Type ℓ} {B : Type κ} where
  -- `Result::and_then`, the method first.
  abbrev pub then_call : (A → Result B) → Result A → Result B
  then_call method (err failure) = err failure
  then_call method (ok value) = method value

infixl 5 ◌>>=◌ ◌>>◌
abbrev pub ◌>>=◌ {ℓ κ} : {A : Type ℓ} {B : Type κ} → Result A → (A → Result B) → Result B
r >>= method = then_call method r

abbrev pub ◌>>◌ {κ} : {B : Type κ} → Result (Unit {0}) → Result B → Result B
first >> second = then_call (λ done. second) first

-- `ok_or`.
abbrev pub ok_or {ℓ} : {A : Type ℓ} → Option A → FerresError → Result A
ok_or none e = err e
ok_or (some a) e = ok a

-- `let _ = r` on a state: an error leaves the old one.
abbrev pub or_keep {ℓ} : {A : Type ℓ} → Result A → A → A
or_keep (ok a) old = a
or_keep (err e) old = old

abbrev pub is_ok {ℓ} : {A : Type ℓ} → Result A → Bool
is_ok (ok a) = true
is_ok (err e) = false

pub Result-cases {ℓ} :
    {A : Type ℓ} (r : Result A) → ((a : A) × (r ≡ ok a)) ⊎ ((e : FerresError) × (r ≡ err e))
Result-cases (ok a) = inl (a, refl)
Result-cases (err e) = inr (e, refl)

-- A chain that ends well has begun well.
module _ {ℓ κ} {A : Type ℓ} {B : Type κ} (method : A → Result B) (result : B) where
  pub then_call-ok :
      (r : Result A)
      → then_call method r ≡ ok result
      → (value : A) × (r ≡ ok value) × (method value ≡ ok result)
  then_call-ok (err failure) ends = cc
  then_call-ok (ok value) ends = (value, refl, ends)
