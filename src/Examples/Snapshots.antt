-- ===== src/Examples/Snapshots.antt =====
-- Snapshots, at a collection of one point.
use ferres_db.Base.{
  ℕ, ◌<◌, ◌≡◌, ◌≢◌, refl, sym, ap, true, false, none, some, [], ◌∷◌, ◌++◌, arith, inl,
}
use ferres_db.Base.Text.{
  Text, Bytes, text, text_eq, text_eq_iff, trim, trim_start, trim_end, is_whitespace,
}
use ferres_db.Base.Utf8.{as_bytes, encode_char}
use ferres_db.Base.Dict
use ferres_db.Base.Dict.{Dict}
use ferres_db.Error.{ok, or_keep}
use ferres_db.Point
use ferres_db.Point.{Point, is_finite, storage_id, storage_id_from_parts}
use ferres_db.Collection
use ferres_db.Collection.{Collection}
use ferres_db.Collection.Keyed.{IsKeyed}
use ferres_db.Snapshot.{
  PointsDir, CollectionDir, Formats, empty_dir, points_bytes, jsonl_text, load_points_from_dir,
  load_namespaces, load_collection, from_points, insert_all, build_fields, into_points, into_point,
}
use ferres_db.Snapshot.Save.{
  write_points, write_checksum, write_points_and_index, save_points, save_collection,
}
use ferres_db.Snapshot.RoundTrip.{IsLawful, IsValid}
use ferres_db.Snapshot.Whole.{get-load_save}
use ferres_db.Examples.Instances.{toy, config, a, some_injective}

-- Formats that know this point.
abbrev digest : Bytes → Text
digest [] = text "0b"
digest (x ∷ []) = text "0a"
digest (x ∷ y ∷ s) = text "0b"

abbrev pub formats : Formats
formats = record {
  config_json = λ c. some (text "{}");
  config_of_json = λ t. some config;
  point_json = λ p. some (text "{}");
  point_of_json = λ t. some a;
  bincode = λ ps. some (7 ∷ []);
  bincode_back = λ s. some (a ∷ []);
  json_or_null = λ m. m;
  md5 = digest;
}

digest_trimmed : (s : Bytes) → trim (digest s) ≡ digest s
unfolding trim trim_start trim_end is_whitespace
digest_trimmed [] = refl
digest_trimmed (x ∷ []) = refl
digest_trimmed (x ∷ y ∷ s) = refl

pub formats-IsLawful : IsLawful formats (a ∷ [])
formats-IsLawful = record { bincode_again = λ s h. refl; md5_trimmed = digest_trimmed }

pub a-IsValid : IsValid formats a
unfolding is_finite
a-IsValid = record {
  has_id = refl;
  has_vector = refl;
  finite = refl;
  json = refl;
  object = λ t h. rw (sym (some_injective h)) (record {
    rest = b'}' ∷ [];
    braced = refl;
    scalar = (inl (omega arith), (inl (omega arith), tt));
    printable = (omega arith, (omega arith, tt));
  });
  back = λ t h. refl;
}

abbrev last_char : Text → ℕ
last_char [] = 0
last_char (x ∷ []) = x
last_char (x ∷ y ∷ s) = last_char (y ∷ s)

abbrev old_dir : PointsDir
old_dir = record { points_bin = some (7 ∷ []); points_jsonl = none; checksum = some (text "0a") }

differ : (m n : ℕ) → m < n → m ≢ n
differ m n h e = omega arith

digests_differ : trim (text "0a") ≢ digest (8 ∷ 8 ∷ [])
unfolding trim trim_start trim_end is_whitespace
digests_differ e = differ 97 98 (omega arith) (ap last_char e)

abbrev json_bytes : Bytes
json_bytes = text "{}" ++ b'\n' ∷ []

wrote_json : points_bytes formats false (a ∷ []) ≡ ok json_bytes
unfolding points_bytes jsonl_text as_bytes encode_char
wrote_json = refl

abbrev mixed_dir : PointsDir
mixed_dir = record {
  points_bin = some (7 ∷ []);
  points_jsonl = some json_bytes;
  checksum = some (text "0b");
}

mixed_written : write_points_and_index formats false (a ∷ []) old_dir ≡ (ok tt, mixed_dir)
unfolding write_points_and_index points_bytes jsonl_text as_bytes encode_char write_points
    write_checksum
mixed_written = refl

abbrev pub docs : Collection toy
unfolding Collection.new Collection.with_index
docs = record (Collection.new toy config) { points = (text "a", a) ∷ [] }

pub docs-IsKeyed : IsKeyed toy docs
unfolding docs Dict.get text_eq storage_id storage_id_from_parts
docs-IsKeyed = record {
  distinct = (refl, tt);
  keyed = λ k p h. ground (arith, text_eq_iff (text "a") k);
  sized = λ k p h. ground arith;
}

abbrev pub fresh_dir : CollectionDir
fresh_dir = record { config = none; last_snapshot = none; root = empty_dir; namespaces = [] }

abbrev pub saved_dir : CollectionDir
saved_dir = record {
  config = some (text "{}");
  last_snapshot = some 9;
  root = record { points_bin = some (7 ∷ []); points_jsonl = none; checksum = some (text "0a") };
  namespaces = [];
}

saved : save_collection toy formats 9 docs true false fresh_dir ≡ (ok tt, saved_dir)
unfolding save_collection save_points write_points_and_index points_bytes write_points
    write_checksum
saved = refl

-- What the saved directory loads as.
unfoldable pub loaded : Collection toy
unfolding load_collection load_points_from_dir load_namespaces from_points build_fields insert_all
    into_points into_point trim trim_start trim_end is_whitespace text_eq Point.new is_finite
loaded = or_keep (load_collection toy formats saved_dir) docs

pub loads : load_collection toy formats saved_dir ≡ ok loaded
unfolding loaded
loads = refl

get-load_save_example : Dict.get (text "a") loaded.points ≡ Dict.get (text "a") docs.points
unfolding docs
get-load_save_example =
    get-load_save toy formats 9 true docs loaded fresh_dir saved_dir (text "a") formats-IsLawful
      (λ t h. refl) docs-IsKeyed (a-IsValid, tt) (λ e. refl) refl saved loads
