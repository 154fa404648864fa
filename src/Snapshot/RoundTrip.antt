-- ===== src/Snapshot/RoundTrip.antt =====
-- What a save leaves on disk loads back.
use ferres_db.Base.{
  ℕ, ◌≤◌, ◌<◌, ◌≡◌, ◌≢◌, refl, sym, ap, Bool, true, false, none, some, List, [], ◌∷◌, ◌++◌,
  is_empty, any, not, arith, All, inl, inr, Option-cases,
}
use ferres_db.Base.Text.{Text, Bytes, text_eq_refl, trim}
use ferres_db.Base.Utf8.{as_bytes, IsScalar, from_utf8-as_bytes}
use ferres_db.Error.{ok, Result-cases}
use ferres_db.Point
use ferres_db.Point.{Point, storage_id, is_finite}
use ferres_db.Wal.Entry.{IsJsonObject}
use ferres_db.Wal.Read.{lines, lines_from}
use ferres_db.Wal.Lines.{lines_line, All-append}
use ferres_db.Snapshot.{
  PointsDir, Formats, into_point, into_points, jsonl_text, parse_lines, points_bytes, verify,
  load_points_from_dir,
}
use ferres_db.Snapshot.Save.{write_points, write_checksum, write_points_and_index}

-- What the snapshot of the points `ps` relies on of bincode and md5.
pub record IsLawful (fmt : Formats) (ps : List Point) : Type 0 where
  pub bincode_again : (s : Bytes) → fmt.bincode ps ≡ some s → fmt.bincode_back s ≡ some ps
  pub md5_trimmed : (s : Bytes) → trim (fmt.md5 s) ≡ fmt.md5 s

-- A point that `Point::new` accepts, with metadata that is JSON, and whose JSON line reads back.
pub record IsValid (fmt : Formats) (p : Point) : Type 0 where
  pub has_id : is_empty p.id ≡ false
  pub has_vector : is_empty p.vector ≡ false
  pub finite : any (λ v. not (is_finite v)) p.vector ≡ false
  pub json : fmt.json_or_null p.metadata ≡ p.metadata
  pub object : (t : Text) → fmt.point_json p ≡ some t → IsJsonObject t
  pub back : (t : Text) → fmt.point_json p ≡ some t → fmt.point_of_json t ≡ some p

into_point_valid : (fmt : Formats) (p : Point) → IsValid fmt p → into_point fmt p ≡ ok p
unfolding into_point Point.new
into_point_valid fmt p v = rw (v.json, v.has_id, v.has_vector, v.finite) refl

into_points_valid :
    (fmt : Formats) (ps : List Point) → All (IsValid fmt) ps → into_points fmt ps ≡ ok ps
unfolding into_points
into_points_valid fmt [] h = refl
into_points_valid fmt (p ∷ ps) (h, hs) =
    rw (into_point_valid fmt p h, into_points_valid fmt ps hs) refl

printable-ne : (b : ℕ) (t : Text) → b < 32 → All (λ c. 32 ≤ c) t → All (λ c. c ≢ b) t
printable-ne b [] l h = tt
printable-ne b (c ∷ t) l (h, hs) = (λ e. omega arith, printable-ne b t l hs)

not_empty : (t : Text) → IsJsonObject t → is_empty t ≡ false
not_empty t o = rw (o.braced) refl

jsonl_text-lines :
    (fmt : Formats) (ps : List Point) (t : Text)
    → All (IsValid fmt) ps
    → jsonl_text fmt ps ≡ ok t
    → (parse_lines fmt (lines t) ≡ ok ps) × All IsScalar t
unfolding jsonl_text parse_lines
jsonl_text-lines fmt [] t valid h =
    let none_there : t ≡ [] = cc in rw none_there (unfold lines lines_from in refl, tt)
jsonl_text-lines fmt (p ∷ ps) t (v, valid) h = elim (Option-cases (fmt.point_json p)) [
  | inl fails ↦ absurd (ground arith)
  | inr (line, q) ↦ elim (Result-cases (jsonl_text fmt ps)) [
    | inr (e, bad) ↦ absurd (ground arith)
    | inl (rest, r) ↦
        let (loads, scalar) = jsonl_text-lines fmt ps rest valid r in
        let o : IsJsonObject line = v.object line q in
        let whole : line ++ b'\n' ∷ rest ≡ t = ground arith in
        rw (← whole) (
          rw
              (
                lines_line line rest (printable-ne 10 line (omega arith) o.printable)
                    (printable-ne 13 line (omega arith) o.printable),
                parse_lines,
              )
              (rw (not_empty line o, v.back line q, loads) refl),
          All-append IsScalar line (b'\n' ∷ rest) o.scalar (inl (omega arith), scalar),
        )
  ]
]

-- A save that succeeds has written both files.
pub write_points_and_index-ok :
    (fmt : Formats) (binary : Bool) (ps : List Point) (dir dir' : PointsDir)
    → write_points_and_index fmt binary ps dir ≡ (ok tt, dir')
    → (bytes : Bytes) × (points_bytes fmt binary ps ≡ ok bytes)
      × (dir' ≡ write_checksum fmt bytes (write_points binary bytes dir))
unfolding write_points_and_index
write_points_and_index-ok fmt binary ps dir dir' h =
    elim (Result-cases (points_bytes fmt binary ps)) [
      | inr (e, q) ↦ absurd (ground arith)
      | inl (bytes, q) ↦ (bytes, q, sym (ap (λ r. r.1) (rw q at h)))
    ]

verify_own :
    (fmt : Formats) (ps : List Point) (bytes : Bytes)
    → IsLawful fmt ps
    → verify fmt (some (fmt.md5 bytes)) bytes ≡ ok tt
verify_own fmt ps bytes law = rw (law.md5_trimmed bytes, text_eq_refl (fmt.md5 bytes)) refl

load_bin_written :
    (fmt : Formats) (ps : List Point) (bytes : Bytes) (dir : PointsDir)
    → IsLawful fmt ps
    → All (IsValid fmt) ps
    → points_bytes fmt true ps ≡ ok bytes
    → load_points_from_dir fmt (write_checksum fmt bytes (write_points true bytes dir)) ≡ ok ps
unfolding load_points_from_dir points_bytes write_points write_checksum
load_bin_written fmt ps bytes dir law valid h = elim (Option-cases (fmt.bincode ps)) [
  | inl fails ↦ absurd (ground arith)
  | inr (s, q) ↦
      let same : s ≡ bytes = ground arith in
      rw
        (verify_own fmt ps bytes law, ← same, law.bincode_again s q, into_points_valid fmt ps valid)
        refl
]

load_jsonl_written :
    (fmt : Formats) (ps : List Point) (bytes : Bytes) (dir : PointsDir)
    → IsLawful fmt ps
    → All (IsValid fmt) ps
    → dir.points_bin ≡ none
    → points_bytes fmt false ps ≡ ok bytes
    → load_points_from_dir fmt (write_checksum fmt bytes (write_points false bytes dir)) ≡ ok ps
unfolding load_points_from_dir points_bytes write_points write_checksum
load_jsonl_written fmt ps bytes dir law valid fresh h = elim (Result-cases (jsonl_text fmt ps)) [
  | inr (e, q) ↦ absurd (ground arith)
  | inl (t, q) ↦
      let same : as_bytes t ≡ bytes = ground arith in
      let (loads, scalar) = jsonl_text-lines fmt ps t valid q in
      rw (fresh, ← same, from_utf8-as_bytes t scalar, verify_own fmt ps (as_bytes t) law, loads)
        refl
]

-- What one directory holds after a save loads as the points that were saved. In the line format
-- this needs a directory without a file of the binary format.
pub load_points-write :
    (fmt : Formats) (binary : Bool) (ps : List Point) (dir dir' : PointsDir)
    → IsLawful fmt ps
    → All (IsValid fmt) ps
    → (binary ≡ false → dir.points_bin ≡ none)
    → write_points_and_index fmt binary ps dir ≡ (ok tt, dir')
    → load_points_from_dir fmt dir' ≡ ok ps
load_points-write fmt true ps dir dir' law valid fresh h =
    let (bytes, wrote, is) = write_points_and_index-ok fmt true ps dir dir' h in
    rw is (load_bin_written fmt ps bytes dir law valid wrote)
load_points-write fmt false ps dir dir' law valid fresh h =
    let (bytes, wrote, is) = write_points_and_index-ok fmt false ps dir dir' h in
    rw is (load_jsonl_written fmt ps bytes dir law valid (fresh refl) wrote)
