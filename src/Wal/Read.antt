-- ===== src/Wal/Read.antt =====
-- `Wal::read_entries`, `stream_from` and `count_entries`. Reads of the file do not fail; a read
-- returns all the bytes that are there, up to the number that was asked for.
use ferres_db.Base.{
  ℕ, zero, suc, ◌+◌, ◌*◌, Bool, false, Option, none, some, List, [], ◌∷◌, ◌==◌, ltb, leb, ◌||◌,
  ◌&&◌, length, take, drop, is_empty, if◌then◌else◌,
}
use mathlib.Core.List.{reverse}
use ferres_db.Base.Text.{Bytes, trim}
use ferres_db.Base.Utf8.{from_utf8}
use ferres_db.Error.{Result, ok, err, ◌>>=◌, storage, wal_frame_cut, wal_not_utf8}
use ferres_db.Wal.Entry.{WalEntry, Codec, from_le_bytes}

-- `BufRead::lines`: without its end `\n` or `\r\n`; a last line without an end stands as it is.
-- The line that is being read is held reversed.
abbrev pub chomp : Bytes → Bytes
chomp [] = []
chomp (b ∷ line) = if b == b'\r' then reverse line else reverse (b ∷ line)

unfoldable pub lines_from : Bytes → Bytes → List Bytes
lines_from line [] = if is_empty line then [] else reverse line ∷ []
lines_from line (b ∷ s) =
    let next = lines_from [] s in
    let more = lines_from (b ∷ line) s in if b == b'\n' then chomp line ∷ next else more

unfoldable pub lines : Bytes → List Bytes
lines s = lines_from [] s

abbrev pub push : Option WalEntry → List WalEntry → List WalEntry
push none rest = rest
push (some e) rest = e ∷ rest

-- The payload of a frame: an error, the end of the loop, or an entry or nothing.
pub data Payload : Type 0 where
  failed stops : Payload
  entry : Option WalEntry → Payload

abbrev pub max_frame : ℕ
max_frame = 10 * 1024 * 1024

abbrev pub with_payload : Payload → Result (List WalEntry) → Result (List WalEntry)
with_payload failed rest = err (storage wal_not_utf8)
with_payload stops rest = ok []
with_payload (entry e) rest = rest >>= λ es. ok (push e es)

-- The file begins with the magic.
abbrev pub has_magic : Bytes → Bool
has_magic (a ∷ b ∷ d ∷ e ∷ s) = a == 0x57 && b == 0x41 && d == 0x4c && e == 0x7a
has_magic _ = false

-- Lines that are not blank, up to the first that is no UTF-8.
unfoldable pub count_lines : List Bytes → ℕ
count_lines [] = 0
count_lines (line ∷ rest) =
    let others : ℕ = count_lines rest in
    elim (from_utf8 line) [ none ↦ 0 | some t ↦ if is_empty (trim t) then others else others + 1 ]

module _ (c : Codec) where
  unfoldable pub read_lines : List Bytes → List WalEntry
  read_lines [] = []
  read_lines (line ∷ rest) =
      let others = read_lines rest in
      elim (from_utf8 line) [
        | none ↦ []
        | some t ↦ if is_empty (trim t) then others else push (c.from_json t) others
      ]

  -- `read_entries_jsonl`.
  unfoldable pub read_entries_jsonl : Bytes → List WalEntry
  read_entries_jsonl s = read_lines (lines s)

  unfoldable pub read_payload : Bytes → Payload
  read_payload z = elim (c.zstd_decode z) [
    | none ↦ stops
    | some b ↦ elim (from_utf8 b) [ none ↦ failed | some t ↦ entry (c.from_json t) ]
  ]

  abbrev pub with_frame : ℕ → Bytes → (Bytes → Result (List WalEntry)) → Result (List WalEntry)
  with_frame len s rest =
      if len == 0 || ltb max_frame len
      then ok []
      else if ltb (length s) len
      then err (storage wal_frame_cut)
      else with_payload (read_payload (take len s)) (rest (drop len s))

  -- `read_entries_compressed`, after the magic: a round takes at least the four bytes of a length.
  unfoldable pub read_frames : ℕ → Bytes → Result (List WalEntry)
  unfolding read_payload
  read_frames zero s = ok []
  read_frames (suc fuel) (a ∷ b ∷ d ∷ e ∷ s) =
      with_frame (from_le_bytes a b d e) s (λ r. read_frames fuel r)
  read_frames (suc fuel) s = ok []

  unfoldable pub read_bytes : Bytes → Result (List WalEntry)
  read_bytes s =
      if has_magic s then read_frames (length s) (drop 4 s) else ok (read_entries_jsonl s)

  -- `read_entries`: no file, no entries.
  unfoldable pub read_entries : Option Bytes → Result (List WalEntry)
  read_entries none = ok []
  read_entries (some s) = read_bytes s

  unfoldable pub stream_from : Option Bytes → ℕ → Result (List WalEntry)
  stream_from file position = do
    all ← read_entries file
    ok (if leb (length all) position then [] else drop position all)

  unfoldable pub count_entries : Bytes → Result ℕ
  count_entries s =
      if has_magic s
      then (read_frames (length s) (drop 4 s) >>= λ es. ok (length es))
      else ok (count_lines (lines s))
