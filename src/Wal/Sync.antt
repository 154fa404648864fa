-- ===== src/Wal/Sync.antt =====
-- When the bytes of the log are on the disk.
use ferres_db.Base.{
  ◌+◌, ◌-◌, ◌<◌, ◌≡◌, ◌⊎◌, inl, inr, true, false, arith, some, [], ◌++◌, Option-cases,
}
use ferres_db.Base.Text.{Bytes}
use ferres_db.Error.{ok, Result-cases}
use ferres_db.Wal.Entry.{WalEntry, WalOperation, Codec, entry_bytes}
use ferres_db.Wal.Log.{Wal, AppendIo, append_entry, append_op, after_flush, sync_data}
use ferres_db.Wal.Holds.{write_cases, append_op-ok}

-- What a step from `w` to `v` says of the syncs: with `fsync_per_write` no byte of the file is left
-- unsynced; a sync is left out only within the interval, and it is counted; and without
-- `fsync_per_write` fewer than `fsync_every_n_ops` appends go by between two syncs.
pub record Syncs (io : AppendIo) (w v : Wal) : Type 0 where
  pub per_write : w.config.fsync_per_write ≡ true → v.synced ≡ v.file
  pub synced_or_counted :
      (v.synced ≡ v.file)
      ⊎ ((v.synced ≡ w.synced)
          × (v.ops_since_fsync ≡ w.ops_since_fsync + 1)
          × (io.now - w.last_fsync < w.config.fsync_interval))
  pub bounded : w.config.fsync_per_write ≡ false → v.ops_since_fsync < w.config.fsync_every_n_ops

after_flush-Syncs :
    (io : AppendIo) (w : Wal)
    → (after_flush io w).0 ≡ ok tt
    → 0 < w.config.fsync_every_n_ops
    → Syncs io w (after_flush io w).1
unfolding sync_data
after_flush-Syncs io w h pos = record {
  per_write = ground arith;
  synced_or_counted = ground arith;
  bounded = ground arith;
}

append_entry-flush :
    (c : Codec) (io : AppendIo) (e : WalEntry) (w : Wal)
    → (append_entry c io e w).0 ≡ ok tt
    → (s : Bytes) × (append_entry c io e w
        ≡ after_flush io (record w { file = s; writer = some [] }))
unfolding append_entry
append_entry-flush c io e w h = elim (Option-cases w.writer) [
  | inl closed ↦ absurd (ground arith)
  | inr (buffer, open_) ↦ elim (Result-cases (entry_bytes c w.config.compress e)) [
    | inr (x, q) ↦ absurd (ground arith)
    | inl (f, q) ↦ elim (write_cases io.write) [
      | inl done ↦ (w.file ++ (buffer ++ f), rw (open_, q, done))
      | inr (n, kept, fail) ↦ absurd (ground arith)
    ]
  ]
]

-- Every append that succeeds leaves the log synced as its configuration promises.
pub append_op-Syncs :
    (c : Codec) (io : AppendIo) (op : WalOperation) (w : Wal)
    → 0 < w.config.fsync_every_n_ops
    → (append_op c io op w).0 ≡ ok tt
    → Syncs io w (append_op c io op w).1
append_op-Syncs c io op w pos h =
    let e : WalEntry = record { timestamp = io.timestamp; operation = op } in
    let (room, fine, same) = append_op-ok c io op w h in
    let (s, flush) = append_entry-flush c io e w fine in
    let fine' = rw flush at fine in
    let r = after_flush-Syncs io (record w { file = s; writer = some [] }) fine' pos in
    rw (same, flush)
      (record {
        per_write = r.per_write;
        synced_or_counted = r.synced_or_counted;
        bounded = r.bounded;
      })
