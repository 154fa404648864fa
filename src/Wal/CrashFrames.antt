-- ===== src/Wal/CrashFrames.antt =====
-- The compressed reader at a log whose last frame was cut short.
use ferres_db.Base.{
  ℕ, zero, suc, ◌+◌, ◌-◌, ◌≤◌, ◌<◌, ◌%◌, ◌^◌, ◌≡◌, refl, ap, ◌∙◌, true, false, some, List, [], ◌∷◌,
  ◌++◌, arith, All, take, length, length-append, length-take, ◌==◌, ◌||◌, ltb, if◌then◌else◌,
  append-nil,
}
use ferres_db.Base.Text.{Bytes}
use ferres_db.Error.{Result, ok, err, FerresError, storage, wal_frame_cut}
use ferres_db.Wal.Entry.{WalEntry, Codec, IsLawful, zstd_frame, to_le_bytes, wal_zstd_magic}
use ferres_db.Wal.Read.{read_entries, read_bytes, read_frames, max_frame, with_frame}
use ferres_db.Wal.Encodes.{Encodes}
use ferres_db.Wal.Frames.{
  IsReadable, prepend, prepend-ok, read_frames-Encodes, le_bytes_back, fits_word,
}
use ferres_db.Wal.Holds.{length-Encodes-le}

with_frame_cut :
    (c : Codec) (len m : ℕ) (z : Bytes) (k : Bytes → Result (List WalEntry))
    → len ≡ length z
    → m < length z
    → length z ≤ max_frame
    → with_frame c len (take m z) k ≡ err (storage wal_frame_cut)
with_frame_cut c len m z k e h fits =
    let a : (len == 0 || ltb max_frame len) ≡ false = ground arith in
    let b : ltb (length (take m z)) len ≡ true = ground (arith, length-take m z) in rw (a, b)

-- What is left of a frame after `n` bytes: nothing that the reader minds, or an error.
abbrev pub cut_frame : ℕ → Result (List WalEntry)
cut_frame (suc (suc (suc (suc m)))) = err (storage wal_frame_cut)
cut_frame _ = ok []

read_frames_cut :
    (c : Codec) (fuel n : ℕ) (z : Bytes)
    → n < 4 + length z
    → length z ≤ max_frame
    → read_frames c (suc fuel) (take n (zstd_frame z)) ≡ cut_frame n
unfolding read_frames zstd_frame to_le_bytes
read_frames_cut c fuel zero z h fits = refl
read_frames_cut c fuel (suc zero) z h fits = refl
read_frames_cut c fuel (suc (suc zero)) z h fits = refl
read_frames_cut c fuel (suc (suc (suc zero))) z h fits = refl
read_frames_cut c fuel (suc (suc (suc (suc m)))) z h fits =
    with_frame_cut c _ m z (λ r. read_frames c fuel r)
      (le_bytes_back (length z % 2 ^ 32) (omega arith) ∙ fits_word (length z) fits) (omega arith)
      fits

prepend-err : (es : List WalEntry) (x : FerresError) → prepend es (err x) ≡ err x
prepend-err [] x = refl
prepend-err (e ∷ es) x = rw (prepend-err es x)

prepend-cut_frame :
    (n : ℕ) (es : List WalEntry)
    → prepend es (cut_frame n) ≡ (if ltb n 4 then ok es else err (storage wal_frame_cut))
prepend-cut_frame zero es = prepend-ok es [] ∙ ap ok (append-nil es)
prepend-cut_frame (suc zero) es = prepend-ok es [] ∙ ap ok (append-nil es)
prepend-cut_frame (suc (suc zero)) es = prepend-ok es [] ∙ ap ok (append-nil es)
prepend-cut_frame (suc (suc (suc zero))) es = prepend-ok es [] ∙ ap ok (append-nil es)
prepend-cut_frame (suc (suc (suc (suc m)))) es =
    rw (prepend-err es (storage wal_frame_cut)) (ground arith)

-- A compressed log that was cut inside the length of its last frame reads as the entries before it.
-- One that was cut behind the length, within the payload, cannot be read at all. The frames are
-- within the reader's limit, and the entries before the cut are read back from their JSON.
pub read_torn_frame :
    (c : Codec) (es : List WalEntry) (s z : Bytes) (n : ℕ)
    → IsLawful c
    → All (IsReadable c true) es
    → Encodes c true es s
    → length z ≤ max_frame
    → n < 4 + length z
    → read_entries c (some (wal_zstd_magic ++ (s ++ take n (zstd_frame z))))
      ≡ (if ltb n 4 then ok es else err (storage wal_frame_cut))
unfolding read_entries read_bytes
read_torn_frame c es s z n law fits encodes fit h =
    let torn : Bytes = take n (zstd_frame z) in
    let le = length-Encodes-le c es s encodes in
    let fuel : ℕ = 3 + length (s ++ torn) - length es in
    let e : suc (suc (suc (suc (length (s ++ torn))))) ≡ length es + suc fuel =
      omega (arith, length-append s torn) in
    ap (λ (f : ℕ). read_frames c f (s ++ torn)) e
    ∙ read_frames-Encodes c es s torn (suc fuel) law fits encodes
    ∙ ap (prepend es) (read_frames_cut c fuel n z h fit)
    ∙ prepend-cut_frame n es
