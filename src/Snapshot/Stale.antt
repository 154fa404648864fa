-- ===== src/Snapshot/Stale.antt =====
-- What an earlier save leaves in a directory, and a save that stops between its two files.
use ferres_db.Base.{◌≡◌, ◌≢◌, refl, sym, ◌∙◌, true, false, some, List, arith}
use ferres_db.Base.Text.{Text, Bytes, text_eq_iff, trim}
use ferres_db.Error.{ok, err, storage, snapshot_failed}
use ferres_db.Point.{Point}
use ferres_db.Snapshot.{PointsDir, Formats, points_bytes, verify, load_points_from_dir}
use ferres_db.Snapshot.Save.{write_points, write_checksum, write_points_and_index}
use ferres_db.Snapshot.RoundTrip.{IsLawful, write_points_and_index-ok}

verify_other :
    (fmt : Formats) (bytes : Bytes) (stored : Text)
    → trim stored ≢ fmt.md5 bytes
    → verify fmt (some stored) bytes ≡ err (storage snapshot_failed)
verify_other fmt bytes stored ne = ground (arith, text_eq_iff (trim stored) (fmt.md5 bytes))

-- A crash between the points and their checksum leaves a directory that does not load, when the
-- checksum on disk is that of other bytes.
pub load_points_torn :
    (fmt : Formats) (bytes : Bytes) (stored : Text) (dir : PointsDir)
    → dir.checksum ≡ some stored
    → trim stored ≢ fmt.md5 bytes
    → load_points_from_dir fmt (write_points true bytes dir) ≡ err (storage snapshot_failed)
unfolding load_points_from_dir write_points
load_points_torn fmt bytes stored dir has ne = rw (has, verify_other fmt bytes stored ne) refl

-- A save in the line format over one in the binary format succeeds, and the directory does not
-- load after it, unless the two files have the same digest.
pub load_points_stale :
    (fmt : Formats) (ps : List Point) (dir dir' : PointsDir) (old bytes : Bytes)
    → IsLawful fmt ps
    → dir.points_bin ≡ some old
    → points_bytes fmt false ps ≡ ok bytes
    → fmt.md5 bytes ≢ fmt.md5 old
    → write_points_and_index fmt false ps dir ≡ (ok tt, dir')
    → load_points_from_dir fmt dir' ≡ err (storage snapshot_failed)
unfolding load_points_from_dir write_points write_checksum
load_points_stale fmt ps dir dir' old bytes law has wrote ne h =
    let (written, same, is) = write_points_and_index-ok fmt false ps dir dir' h in
    let equal : written ≡ bytes = ground arith in
    rw (is, has, equal)
      (rw (verify_other fmt old (fmt.md5 bytes) λ e. ne (sym (law.md5_trimmed bytes) ∙ e)) refl)
