-- ===== src/Recovery/PointInTime.antt =====
-- What a recovery finds: after an append, and up to a point in time.
use ferres_db.Base.{
  ℕ, ◌≤◌, ◌<◌, ◌≡◌, ◌≢◌, refl, ap, Option, some, List, [], ◌∷◌, ◌++◌, arith, All, keep,
}
use ferres_db.Base.Text.{Bytes}
use ferres_db.Error.{ok}
use ferres_db.Backend.{Backend}
use ferres_db.Collection.{Collection}
use ferres_db.Wal.Entry.{WalEntry, WalOperation, Codec, IsLawful}
use ferres_db.Wal.Read.{read_entries}
use ferres_db.Wal.Log.{Wal, AppendIo, append_op}
use ferres_db.Wal.Holds.{Holds, AllReadable, read-append_op}
use ferres_db.Recovery.{
  apply, replay, recover_collection, recover_collection_to_timestamp, in_window,
  read_last_snapshot_timestamp,
}

module _ (b : Backend) where
  pub replay-append :
      (es fs : List WalEntry) (c : Collection b)
      → replay b (es ++ fs) c ≡ replay b fs (replay b es c)
  unfolding replay
  replay-append [] fs c = refl
  replay-append (e ∷ es) fs c = replay-append es fs (apply b e.operation c)

  -- After an append that succeeded, a recovery applies the operation on top of what the log and the
  -- snapshot held before, if each entry of the log, the new one too, is read back from its JSON, and
  -- in the compressed format has no frame above the 10 MiB that the reader takes.
  pub recover-append_op :
      (codec : Codec) (io : AppendIo) (op : WalOperation) (w : Wal) (es : List WalEntry)
      (c : Collection b)
      → IsLawful codec
      → Holds codec w es
      → (append_op codec io op w).0 ≡ ok tt
      → AllReadable codec w.config.compress
          (es ++ record { timestamp = io.timestamp; operation = op } ∷ [])
      → recover_collection b codec (some (ok c)) (some (append_op codec io op w).1.file)
        ≡ ok (some (apply b op (replay b es c)))
  unfolding recover_collection replay
  recover-append_op codec io op w es c law h p fit =
      rw ((read-append_op codec io op w es law h p fit).0) (
        ap (λ d. ok (some d))
          (replay-append es (record { timestamp = io.timestamp; operation = op } ∷ []) c))

  keep_none :
      (s t : ℕ) (es : List WalEntry)
      → s ≢ 0
      → All (λ e. e.timestamp ≤ s) es
      → keep (in_window s t) es ≡ []
  keep_none s t [] pos h = refl
  keep_none s t (e ∷ es) pos (h, hs) = ground (arith, keep_none s t es pos hs)

  keep_every :
      (s t : ℕ) (es : List WalEntry)
      → All (λ e. (s < e.timestamp) × (e.timestamp ≤ t)) es
      → keep (in_window s t) es ≡ es
  keep_every s t [] h = refl
  keep_every s t (e ∷ es) (h, hs) = ground (arith, keep_every s t es hs)

  -- With every entry behind the snapshot and none behind the target, the recovery to a point in
  -- time is the full recovery.
  pub recover_to-full :
      (codec : Codec) (t s : ℕ) (c : Collection b) (wal : Option Bytes) (es : List WalEntry)
      → read_entries codec wal ≡ ok es
      → All (λ e. (s < e.timestamp) × (e.timestamp ≤ t)) es
      → recover_collection_to_timestamp b codec t (some s) (some (ok c)) wal
        ≡ recover_collection b codec (some (ok c)) wal
  unfolding recover_collection recover_collection_to_timestamp read_last_snapshot_timestamp
  recover_to-full codec t s c wal es h window = rw (h, keep_every s t es window) refl

  -- Entries of the second of the snapshot, or of an earlier one, are not in any recovery to a point
  -- in time, those written behind the snapshot included.
  pub recover_to-same_second :
      (codec : Codec) (t s : ℕ) (c : Collection b) (wal : Option Bytes) (es : List WalEntry)
      → read_entries codec wal ≡ ok es
      → s ≢ 0
      → All (λ e. e.timestamp ≤ s) es
      → recover_collection_to_timestamp b codec t (some s) (some (ok c)) wal ≡ ok (some c)
  unfolding recover_collection_to_timestamp read_last_snapshot_timestamp replay
  recover_to-same_second codec t s c wal es h pos old = rw (h, keep_none s t es pos old) refl
