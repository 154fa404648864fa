-- ===== src/Tiered/Cold.antt =====
-- `ColdStorage` (crates/core/src/tiered.rs): one JSON file for each point, named by its id with
-- percent encoding. The file system may refuse a write; the temporary file and its rename are one
-- write.
use ferres_db.Base.{
  ℕ, ◌+◌, ◌/◌, ◌%◌, Bool, true, false, ◌&&◌, ◌||◌, [], ◌∷◌, ◌++◌, ◌==◌, leb, ltb, if◌then◌else◌,
}
use ferres_db.Base.Text.{Text, Bytes, text}
use ferres_db.Base.Utf8.{encode_char}
use ferres_db.Base.Dict
use ferres_db.Base.Dict.{Dict, contains_key}
use ferres_db.Error.{
  Result, ok, err, ok_or, ◌>>=◌, storage, wal_serialize, cold_missing, cold_write, cold_parse,
}
use ferres_db.Point.{Point}
use ferres_db.Snapshot.{Formats}

-- The characters that stay: ASCII letters and digits, and three signs.
unfoldable pub is_safe : ℕ → Bool
is_safe c =
    leb b'a' c && leb c b'z'
    || leb b'A' c && leb c b'Z'
    || leb b'0' c && leb c b'9'
    || c == b'-'
    || c == b'_'
    || c == b'.'

-- A digit of `{byte:02X}`.
unfoldable pub hex : ℕ → ℕ
hex d = if ltb d 10 then 48 + d else 55 + d

unfoldable pub percent : Bytes → Text
unfolding hex
percent [] = []
percent (x ∷ s) = b'%' ∷ hex (x / 16) ∷ hex (x % 16) ∷ percent s

unfoldable pub escape : Text → Text
unfolding is_safe percent
escape [] = []
escape (c ∷ s) = if is_safe c then c ∷ escape s else percent (encode_char c) ++ escape s

-- `point_path`, in the directory of the storage.
unfoldable pub point_path : Text → Text
unfolding escape
point_path id = escape id ++ text ".json"

-- The files of the directory and their content.
pub record ColdStorage : Type 0 where
  pub files : Dict Text

-- `fs::write` and `fs::rename`.
abbrev pub write_file : Bool → Text → Text → ColdStorage → Result ColdStorage
write_file true path json cold = ok (record { files = Dict.insert path json cold.files })
write_file false path json cold = err (storage cold_write)

-- `writable` says of a file whether the file system takes it.
unfoldable pub save_point : Formats → (Text → Bool) → Point → ColdStorage → Result ColdStorage
save_point fmt writable p cold = do
  json ← ok_or (fmt.point_json p) (storage wal_serialize)
  write_file (writable (point_path p.id)) (point_path p.id) json cold

unfoldable pub load_point : Formats → Text → ColdStorage → Result Point
load_point fmt id cold = do
  json ← ok_or (Dict.get (point_path id) cold.files) (storage cold_missing)
  ok_or (fmt.point_of_json json) (storage cold_parse)

unfoldable pub remove_point : Text → ColdStorage → ColdStorage
remove_point id cold = record { files = Dict.remove (point_path id) cold.files }

unfoldable pub contains : Text → ColdStorage → Bool
contains id cold = contains_key (point_path id) cold.files
