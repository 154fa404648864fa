-- ===== src/Recovery/Retention.antt =====
-- The compaction of the log by the retention, and the restore points.
use ferres_db.Base.{
  ℕ, ◌+◌, ◌-◌, ◌≡◌, refl, sym, ap, ◌∙◌, Bool, some, List, [], ◌∷◌, ◌++◌, arith, length, keep, ◌==◌,
  if◌then◌else◌, Bool-cases, inl, inr, length-keep-le,
}
use ferres_db.Base.Text.{Bytes}
use ferres_db.Error.{Result, ok, err, Result-cases}
use ferres_db.Wal.Entry.{WalEntry, Codec, IsLawful, entry_bytes, wal_zstd_magic}
use ferres_db.Wal.Read.{read_entries}
use ferres_db.Wal.Encodes.{Encodes}
use ferres_db.Wal.Holds.{AllReadable, read_bytes-Encodes}
use ferres_db.Recovery.{
  write_entries, not_older, ended, rewrite_kept, compact_wal_entries_older_than,
}

write_entries-Encodes :
    (c : Codec) (z : Bool) (es : List WalEntry)
    → (write_entries c z es).0 ≡ ok tt
    → Encodes c z es (write_entries c z es).1
unfolding write_entries
write_entries-Encodes c z [] h = refl
write_entries-Encodes c z (e ∷ es) h = elim (Result-cases (entry_bytes c z e)) [
  | inr (x, q) ↦ absurd (ground arith)
  | inl (f, q) ↦
      rw (q, write_entries)
        (f, (write_entries c z es).1, refl, write_entries-Encodes c z es (rw q at h), refl)
]

keep_all :
    (cutoff : ℕ) (es : List WalEntry)
    → length (keep (not_older cutoff) es) ≡ length es
    → keep (not_older cutoff) es ≡ es
keep_all cutoff [] h = refl
keep_all cutoff (e ∷ es) h =
    ground (arith, keep_all cutoff es, length-keep-le (not_older cutoff) es)

compact_lem :
    (c : Codec) (cutoff : ℕ) (compress : Bool) (file : Bytes) (es : List WalEntry)
    → read_entries c (some file) ≡ ok es
    → compact_wal_entries_older_than c cutoff compress (some file)
      ≡ rewrite_kept c compress (length es) (keep (not_older cutoff) es) file
unfolding compact_wal_entries_older_than
compact_lem c cutoff compress file es h = rw (h, compact_wal_entries_older_than) refl

ended-ok : (r : Result (Unit {0})) (m n : ℕ) → ended r m ≡ ok n → (r ≡ ok tt) × (m ≡ n)
ended-ok (ok tt) m n h = (refl, cc)
ended-ok (err e) m n h = cc

-- A compaction that succeeds leaves a file that reads back as the entries that are not older than
-- the cutoff, in their order, and returns the number of the others, if each entry that is kept is
-- read back from its JSON, and in the compressed format has no frame above 10 MiB.
pub read-compact :
    (c : Codec) (cutoff : ℕ) (compress : Bool) (file : Bytes) (es : List WalEntry) (n : ℕ)
    → IsLawful c
    → AllReadable c compress (keep (not_older cutoff) es)
    → read_entries c (some file) ≡ ok es
    → (compact_wal_entries_older_than c cutoff compress (some file)).0 ≡ ok n
    → (read_entries c (compact_wal_entries_older_than c cutoff compress (some file)).1
        ≡ ok (keep (not_older cutoff) es))
      × (n + length (keep (not_older cutoff) es) ≡ length es)
read-compact c cutoff compress file es n law fit h done =
    let kept : List WalEntry = keep (not_older cutoff) es in
    elim (Bool-cases (length es - length kept == 0)) [
      | inl same ↦
          let stays : compact_wal_entries_older_than c cutoff compress (some file)
              ≡ (ok 0, some file) =
            compact_lem c cutoff compress file es h ∙ rw same refl in
          let all : kept ≡ es =
            keep_all cutoff es (ground (arith, length-keep-le (not_older cutoff) es)) in
          let zero_gone : 0 ≡ n = cc in
          (ap (λ r. read_entries c r.1) stays ∙ h ∙ ap ok (sym all), omega (arith, ap length all))
      | inr removed ↦
          let shrinks : compact_wal_entries_older_than c cutoff compress (some file) ≡ (
            ended (write_entries c compress kept).0 (length es - length kept),
            some ((if compress then wal_zstd_magic else []) ++ (write_entries c compress kept).1),
          ) =
            compact_lem c cutoff compress file es h ∙ rw removed refl in
          let (wrote, count) =
            ended-ok (write_entries c compress kept).0 (length es - length kept) n
              (sym (ap (λ r. r.0) shrinks) ∙ done) in
          (
            ap (λ r. read_entries c r.1) shrinks
                ∙ unfold read_entries in
                  read_bytes-Encodes c compress kept (write_entries c compress kept).1 law fit
                    (write_entries-Encodes c compress kept wrote),
            omega (arith, count, length-keep-le (not_older cutoff) es),
          )
    ]
