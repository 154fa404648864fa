-- ===== src/Wal/Holds.antt =====
-- A log that holds a list of entries: its file reads back as these, and the operations keep it so.
use ferres_db.Base.{
  ℕ, zero, suc, ◌+◌, ◌-◌, ◌≤◌, ◌<◌, ◌≡◌, refl, sym, ap, ap₂, subst, ◌∙◌, Bool, true, false, none,
  some, List, [], ◌∷◌, ◌++◌, append-nil, append_assoc, arith, All, leb, if◌then◌else◌, Bool-cases,
  inl, inr, ◌⊎◌, length, length-append,
}
use ferres_db.Base.Text.{Text, Bytes}
use ferres_db.Base.Utf8.{as_bytes, encode_char}
use ferres_db.Error.{Result, ok, err, Result-cases}
use ferres_db.Wal.Entry.{
  WalEntry, WalConfig, WalOperation, Codec, IsLawful, IsJsonObject, entry_bytes, json_line,
  zstd_frame, to_le_bytes, wal_zstd_magic,
}
use ferres_db.Wal.Read.{
  read_entries, read_bytes, read_frames, read_entries_jsonl, has_magic, lines, lines_from,
  read_lines,
}
use ferres_db.Wal.Log.{
  Wal, AppendIo, written, torn, open_with_config, opened, magic_if_new, WriteOutcome, sync_data,
  append_entry, append_op, count_op, max_wal_ops_before_backpressure, after_flush, magic,
  truncate_after_snapshot, truncated,
}
use ferres_db.Wal.Encodes.{Encodes, Encodes-snoc}
use ferres_db.Wal.Lines.{read_entries_jsonl-Encodes, entry_bytes_json}
use ferres_db.Wal.Frames.{IsReadable, prepend, prepend-ok, read_frames-Encodes, entry_bytes_zstd}

-- The file is the header and the entries, nothing waits in the buffer, and the counter is right.
pub record Holds (c : Codec) (w : Wal) (es : List WalEntry) : Type 0 where
  pub body : Bytes
  pub encodes : Encodes c w.config.compress es body
  pub file_is : w.file ≡ magic w ++ body
  pub flushed : w.writer ≡ some []
  pub counted : w.ops_since_snapshot ≡ length es

-- All entries can be read back in the format.
abbrev pub AllReadable : Codec → Bool → List WalEntry → Type 0
AllReadable c compress es = All (IsReadable c compress) es

pub has_magic_brace : (s : Bytes) → has_magic (b'{' ∷ s) ≡ false
has_magic_brace (a ∷ b ∷ d ∷ s) = refl
has_magic_brace (a ∷ b ∷ []) = refl
has_magic_brace (a ∷ []) = refl
has_magic_brace [] = refl

-- The bytes of a JSON object begin with its brace.
pub as_bytes_braced : (t : Text) → IsJsonObject t → (r : Bytes) × (as_bytes t ≡ b'{' ∷ r)
unfolding as_bytes encode_char
as_bytes_braced t o = (as_bytes o.rest, rw (o.braced) refl)

pub has_magic_json :
    (c : Codec) (e : WalEntry) (f tail : Bytes)
    → IsLawful c
    → entry_bytes c false e ≡ ok f
    → has_magic (f ++ tail) ≡ false
unfolding json_line
has_magic_json c e f tail law p =
    let (t, q, same) = entry_bytes_json c e f p in
    let (r, head) = as_bytes_braced t (law.json_object e t q) in
    rw (same, head) (has_magic_brace ((r ++ b'\n' ∷ []) ++ tail))

has_magic-Encodes :
    (c : Codec) (es : List WalEntry) (s : Bytes)
    → IsLawful c
    → Encodes c false es s
    → has_magic s ≡ false
has_magic-Encodes c [] s law h = rw h
has_magic-Encodes c (e ∷ es) s law (f, r, p, h, k) = rw k (has_magic_json c e f r law p)

pub length-Encodes-le :
    (c : Codec) (es : List WalEntry) (s : Bytes) → Encodes c true es s → length es ≤ length s
unfolding zstd_frame to_le_bytes
length-Encodes-le c [] s h = omega arith
length-Encodes-le c (e ∷ es) s (f, r, p, h, k) =
    let (t, z, q, y, same) = entry_bytes_zstd c e f p in
    omega (arith, length-Encodes-le c es r h, ap length k, length-append f r, ap length same)

read_frames-nil : (c : Codec) (fuel : ℕ) → read_frames c fuel [] ≡ ok []
unfolding read_frames
read_frames-nil c zero = refl
read_frames-nil c (suc fuel) = refl

read_entries_jsonl-nil : (c : Codec) → read_entries_jsonl c [] ≡ []
unfolding read_entries_jsonl read_lines lines lines_from
read_entries_jsonl-nil c = refl

-- Reading the bytes of the two formats.
pub read_bytes-Encodes :
    (c : Codec) (z : Bool) (es : List WalEntry) (s : Bytes)
    → IsLawful c
    → AllReadable c z es
    → Encodes c z es s
    → read_bytes c ((if z then wal_zstd_magic else []) ++ s) ≡ ok es
unfolding read_bytes
read_bytes-Encodes c true es s law fit h =
    let le = length-Encodes-le c es s h in
    let e : suc (suc (suc (suc (length s)))) ≡ length es + (4 + length s - length es) =
      omega arith in
    ap₂ (read_frames c) e (sym (append-nil s))
    ∙ read_frames-Encodes c es s [] (4 + length s - length es) law fit h
    ∙ ap (prepend es) (read_frames-nil c (4 + length s - length es))
    ∙ prepend-ok es []
    ∙ ap ok (append-nil es)
read_bytes-Encodes c false es s law fit h = rw (has_magic-Encodes c es s law h) (
    ap ok (
      ap (read_entries_jsonl c) (sym (append-nil s))
      ∙ read_entries_jsonl-Encodes c es s [] law fit h
      ∙ ap (◌++◌ es) (read_entries_jsonl-nil c)
      ∙ append-nil es))

-- The file of a log that holds `es` reads back as `es`.
pub read_entries-Holds :
    (c : Codec) (w : Wal) (es : List WalEntry)
    → IsLawful c
    → AllReadable c w.config.compress es
    → Holds c w es
    → read_entries c (some w.file) ≡ ok es
unfolding read_entries
read_entries-Holds c w es law fit h =
    rw (h.file_is) (read_bytes-Encodes c w.config.compress es h.body law fit h.encodes)

magic_new : (z : Bool) → magic_if_new z [] ≡ (if z then wal_zstd_magic else []) ++ []
magic_new true = refl
magic_new false = refl

pub write_cases : (o : WriteOutcome) → (o ≡ written) ⊎ ((n kept : ℕ) × (o ≡ torn n kept))
write_cases written = inl refl
write_cases (torn n kept) = inr (n, kept, refl)

-- A new log holds nothing, and so does one after its truncation.
pub open_with_config-Holds :
    (c : Codec) (config : WalConfig) (now : ℕ) (w : Wal)
    → open_with_config c config now none ≡ ok w
    → Holds c w []
unfolding open_with_config
open_with_config-Holds c config now w h =
    let e : opened config now [] 0 ≡ w = cc in
    rw (← e) (record {
      body = [];
      encodes = refl;
      file_is = magic_new config.compress;
      flushed = refl;
      counted = refl;
    })

pub truncate-Holds : (c : Codec) (w : Wal) → Holds c (truncate_after_snapshot truncated w).1 []
unfolding truncate_after_snapshot
truncate-Holds c w = record {
  body = [];
  encodes = refl;
  file_is = sym (append-nil (magic w));
  flushed = refl;
  counted = refl;
}

-- The sync at the end of an append changes neither the file nor what the snapshot counter says.
pub record SameLog (w v : Wal) : Type 0 where
  pub same_file : v.file ≡ w.file
  pub same_writer : v.writer ≡ w.writer
  pub same_config : v.config ≡ w.config
  pub same_ops : v.ops_since_snapshot ≡ w.ops_since_snapshot

after_flush-SameLog : (io : AppendIo) (w : Wal) → SameLog w (after_flush io w).1
unfolding sync_data
after_flush-SameLog io w = record {
  same_file = ground arith;
  same_writer = ground arith;
  same_config = ground arith;
  same_ops = ground arith;
}

pub append_entry-written :
    (c : Codec) (io : AppendIo) (e : WalEntry) (w : Wal)
    → w.writer ≡ some []
    → (append_entry c io e w).0 ≡ ok tt
    → (f : Bytes) × (entry_bytes c w.config.compress e ≡ ok f)
      × SameLog (record w { file = w.file ++ f; writer = some [] }) (append_entry c io e w).1
unfolding append_entry
append_entry-written c io e w h p = elim (Result-cases (entry_bytes c w.config.compress e)) [
  | inr (x, q) ↦ absurd (ground arith)
  | inl (f, q) ↦ elim (write_cases io.write) [
    | inl done ↦ (f, q, rw (h, q, done) (after_flush-SameLog io _))
    | inr (n, kept, fail) ↦ absurd (ground arith)
  ]
]

count_op-ok :
    (r : Result (Unit {0}) × Wal)
    → (count_op r).0 ≡ ok tt
    → (r.0 ≡ ok tt)
      × ((count_op r).1 ≡ record (r.1) { ops_since_snapshot = r.1.ops_since_snapshot + 1 })
count_op-ok (ok tt, w) h = (refl, refl)
count_op-ok (err e, w) h = cc

pub append_op-ok :
    (c : Codec) (io : AppendIo) (op : WalOperation) (w : Wal)
    → (append_op c io op w).0 ≡ ok tt
    → (leb max_wal_ops_before_backpressure w.ops_since_snapshot ≡ false)
      × ((append_entry c io (record { timestamp = io.timestamp; operation = op }) w).0 ≡ ok tt)
      × ((append_op c io op w).1
          ≡ record ((append_entry c io (record { timestamp = io.timestamp; operation = op }) w).1) {
            ops_since_snapshot =
                (append_entry c io
                  (record { timestamp = io.timestamp; operation = op })
                  w).1.ops_since_snapshot
                + 1;
          })
unfolding append_op
append_op-ok c io op w h =
    elim (Bool-cases (leb max_wal_ops_before_backpressure w.ops_since_snapshot)) [
      | inl full ↦ absurd (ground arith)
      | inr room ↦
          (let (a, b) =
              count_op-ok
                (append_entry c io (record { timestamp = io.timestamp; operation = op }) w)
                (rw room at h) in
            (room, a, rw room b))
    ]

-- An append that succeeds adds its entry, and nothing else, to what the log holds.
pub append_op-Holds :
    (c : Codec) (io : AppendIo) (op : WalOperation) (w : Wal) (es : List WalEntry)
    → Holds c w es
    → (append_op c io op w).0 ≡ ok tt
    → Holds c
        (append_op c io op w).1
        (es ++ record { timestamp = io.timestamp; operation = op } ∷ [])
append_op-Holds c io op w es h p =
    let e : WalEntry = record { timestamp = io.timestamp; operation = op } in
    let (room, fine, same) = append_op-ok c io op w p in
    let (f, q, s) = append_entry-written c io e w h.flushed fine in
    rw same (record {
      body = h.body ++ f;
      encodes = rw (s.same_config) (Encodes-snoc c w.config.compress es h.body e f h.encodes q);
      file_is = rw (s.same_file, s.same_config, h.file_is) (append_assoc (magic w) h.body f);
      flushed = s.same_writer;
      counted = omega (arith, s.same_ops, h.counted, length-append es (e ∷ []));
    })

pub append_op-config :
    (c : Codec) (io : AppendIo) (op : WalOperation) (w : Wal) (es : List WalEntry)
    → Holds c w es
    → (append_op c io op w).0 ≡ ok tt
    → (append_op c io op w).1.config ≡ w.config
append_op-config c io op w es h p =
    let e : WalEntry = record { timestamp = io.timestamp; operation = op } in
    let (room, fine, same) = append_op-ok c io op w p in
    let (f, q, s) = append_entry-written c io e w h.flushed fine in
    ap (λ (v : Wal). v.config) same ∙ s.same_config

room_lem :
    (n ops : ℕ)
    → ops ≡ n
    → leb max_wal_ops_before_backpressure ops ≡ false
    → n < max_wal_ops_before_backpressure
room_lem n ops e h = ground arith

-- Where the file of a log holds some entries, and an append succeeds: the next reader of the file
-- finds these entries and behind them the new one, and the log held less than its limit of entries.
-- The condition is that each of these entries, the new one too, is read back from its JSON, and that
-- in the compressed format none has a frame above the 10 MiB that the reader takes.
pub read-append_op :
    (c : Codec) (io : AppendIo) (op : WalOperation) (w : Wal) (es : List WalEntry)
    → IsLawful c
    → Holds c w es
    → (append_op c io op w).0 ≡ ok tt
    → AllReadable c w.config.compress
        (es ++ record { timestamp = io.timestamp; operation = op } ∷ [])
    → (read_entries c (some (append_op c io op w).1.file)
        ≡ ok (es ++ record { timestamp = io.timestamp; operation = op } ∷ []))
      × (length es < max_wal_ops_before_backpressure)
read-append_op c io op w es law h p fit =
    let e : WalEntry = record { timestamp = io.timestamp; operation = op } in
    let (room, fine, same) = append_op-ok c io op w p in
    let kept = append_op-config c io op w es h p in
    let fit' = subst (λ (k : WalConfig). AllReadable c k.compress (es ++ e ∷ [])) (sym kept) fit in
    (
      read_entries-Holds c (append_op c io op w).1 (es ++ e ∷ []) law fit'
          (append_op-Holds c io op w es h p),
      room_lem (length es) w.ops_since_snapshot h.counted room,
    )
