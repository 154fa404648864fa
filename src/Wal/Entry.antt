-- ===== src/Wal/Entry.antt =====
-- `WalEntry`, `WalOperation`, `WalConfig`, and the bytes of an entry in the two formats. Serde_json
-- and zstd are the functions of a `Codec`.
use ferres_db.Base.{
  ℕ, ◌+◌, ◌*◌, ◌/◌, ◌%◌, ◌^◌, ◌≤◌, ◌<◌, ◌≡◌, Bool, true, false, Option, none, some, [], ◌∷◌, ◌++◌,
  length, take, All,
}
use ferres_db.Base.Text.{Text, Bytes}
use ferres_db.Base.Utf8.{IsScalar, as_bytes, from_utf8}
use ferres_db.Error.{Result, ok, ok_or, ◌>>=◌, storage, wal_serialize, wal_compress}
use ferres_db.Point.{Point}

pub data WalOperation : Type 0 where
  upsert : Point → WalOperation
  delete : Text → WalOperation
  link : Text → Text → WalOperation

pub record WalEntry : Type 0 where
  pub timestamp : ℕ
  pub operation : WalOperation

pub record WalConfig : Type 0 where
  pub snapshot_threshold : ℕ
  pub compress : Bool
  pub fsync_per_write : Bool
  pub fsync_interval : ℕ
  pub fsync_every_n_ops : ℕ

abbrev pub default_config : WalConfig
default_config = record {
  snapshot_threshold = 1000;
  compress = false;
  fsync_per_write = false;
  fsync_interval = 1;
  fsync_every_n_ops = 1000;
}

-- `serde_json::to_string`, `from_str`, `zstd::encode_all` and `decode_all`.
pub record Codec : Type 0 where
  pub to_json : WalEntry → Option Text
  pub from_json : Text → Option WalEntry
  pub zstd_encode : Bytes → Option Bytes
  pub zstd_decode : Bytes → Option Bytes

-- One line of JSON: it begins with a brace, and control characters are escaped in it.
pub record IsJsonObject (t : Text) : Type 0 where
  pub rest : Text
  pub braced : t ≡ b'{' ∷ rest
  pub scalar : All IsScalar t
  pub printable : All (λ c. 32 ≤ c) t

-- The JSON of an entry is read back as the entry. Serde_json writes an f32 that is not finite as
-- null, so that this is asked of the entries that a theorem is about, and not of the library.
abbrev pub Returns : Codec → WalEntry → Type 0
Returns c e = (t : Text) → c.to_json e ≡ some t → c.from_json t ≡ some e

-- What the log relies on of the two libraries.
pub record IsLawful (c : Codec) : Type 0 where
  pub json_object : (e : WalEntry) (t : Text) → c.to_json e ≡ some t → IsJsonObject t
  pub json_prefix :
      (e : WalEntry) (t u : Text) (n : ℕ)
      → c.to_json e ≡ some t
      → n < length (as_bytes t)
      → from_utf8 (take n (as_bytes t)) ≡ some u
      → c.from_json u ≡ none
  pub zstd_back : (b z : Bytes) → c.zstd_encode b ≡ some z → c.zstd_decode z ≡ some b
  pub zstd_full : (b z : Bytes) → c.zstd_encode b ≡ some z → 0 < length z

-- `u32::to_le_bytes` and `from_le_bytes`.
unfoldable pub to_le_bytes : ℕ → Bytes
to_le_bytes n = n % 2 ^ 8 ∷ n / 2 ^ 8 % 2 ^ 8 ∷ n / 2 ^ 16 % 2 ^ 8 ∷ n / 2 ^ 24 % 2 ^ 8 ∷ []

unfoldable pub from_le_bytes : ℕ → ℕ → ℕ → ℕ → ℕ
from_le_bytes a b c d = a + b * 2 ^ 8 + c * 2 ^ 16 + d * 2 ^ 24

-- `WALz`.
abbrev pub wal_zstd_magic : Bytes
wal_zstd_magic = 0x57 ∷ 0x41 ∷ 0x4c ∷ 0x7a ∷ []

-- A frame: the length cast to `u32`, then the payload.
unfoldable pub zstd_frame : Bytes → Bytes
zstd_frame z = to_le_bytes (length z % 2 ^ 32) ++ z

unfoldable pub json_line : Text → Bytes
json_line t = as_bytes t ++ b'\n' ∷ []

-- The bytes that `append_entry` and the compaction write for an entry.
unfoldable pub entry_bytes : Codec → Bool → WalEntry → Result Bytes
entry_bytes c true e = do
  json ← ok_or (c.to_json e) (storage wal_serialize)
  z ← ok_or (c.zstd_encode (as_bytes json)) (storage wal_compress)
  ok (zstd_frame z)
entry_bytes c false e = do json ← ok_or (c.to_json e) (storage wal_serialize); ok (json_line json)
