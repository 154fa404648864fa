-- ===== src/Wal/Frames.antt =====
-- The reader of the compressed format gives back the entries whose frames it finds, and its fuel is
-- enough.
use ferres_db.Base.{
  ℕ, zero, suc, Bool, ◌+◌, ◌/◌, ◌%◌, ◌^◌, ◌≤◌, ◌<◌, ◌≡◌, refl, ap, ap₂, ◌∙◌, All, true, false, some,
  List, [], ◌∷◌, ◌++◌, append_assoc, arith, ◌==◌, ltb, ◌||◌, Option-cases, inl, inr, length, take,
  drop, length-append, take-length-append, drop-length-append, length-drop,
}
use Prim.Native.Nat.add
use ferres_db.Base.Text.{Text, Bytes}
use ferres_db.Base.Utf8.{as_bytes, from_utf8-as_bytes}
use ferres_db.Error.{Result, ok}
use ferres_db.Wal.Entry.{
  WalEntry, Codec, IsLawful, Returns, zstd_frame, to_le_bytes, from_le_bytes, entry_bytes,
}
use ferres_db.Wal.Read.{entry, read_frames, read_payload, with_frame, with_payload, max_frame}
use ferres_db.Wal.Encodes.{Encodes}

module _ (c : Codec) (len : ℕ) where
  with_frame_cong :
      (s : Bytes) (k l : Bytes → Result (List WalEntry))
      → k (drop len s) ≡ l (drop len s)
      → with_frame c len s k ≡ with_frame c len s l
  with_frame_cong s k l h = ap (λ (r : Result (List WalEntry)). with_frame c len s (λ x. r)) h

  with_frame_whole :
      (z rest : Bytes) (k : Bytes → Result (List WalEntry))
      → len ≡ length z
      → 0 < length z
      → length z ≤ max_frame
      → with_frame c len (z ++ rest) k ≡ with_payload (read_payload c z) (k rest)
  with_frame_whole z rest k e pos fits =
      let whole : take len (z ++ rest) ≡ z = rw e (take-length-append z rest) in
      let behind : drop len (z ++ rest) ≡ rest = rw e (drop-length-append z rest) in
      let a : (len == 0 || ltb max_frame len) ≡ false = ground arith in
      let b : ltb (length (z ++ rest)) len ≡ false = ground (arith, length-append z rest) in
      rw (a, b, whole, behind)

-- Beyond the length of the input, more fuel changes nothing.
read_frames_fuel :
    (c : Codec) (f g : ℕ) (s : Bytes)
    → length s ≤ f
    → length s ≤ g
    → read_frames c f s ≡ read_frames c g s
unfolding read_frames
read_frames_fuel c zero zero s h k = refl
read_frames_fuel c zero (suc g) [] h k = refl
read_frames_fuel c zero (suc g) (a ∷ s) h k = absurd (omega arith)
read_frames_fuel c (suc f) zero [] h k = refl
read_frames_fuel c (suc f) zero (a ∷ s) h k = absurd (omega arith)
read_frames_fuel c (suc f) (suc g) (a ∷ b ∷ d ∷ e ∷ s) h k =
    let len : ℕ = from_le_bytes a b d e in
    with_frame_cong c len s (λ r. read_frames c f r) (λ r. read_frames c g r)
      (read_frames_fuel c f g (drop len s) (omega (arith, length-drop len s))
        (omega (arith, length-drop len s)))
read_frames_fuel c (suc f) (suc g) _ h k = refl

-- Payloads that the reader accepts.
abbrev pub Fits : Codec → WalEntry → Type 0
Fits c e =
    (t : Text) (z : Bytes)
    → c.to_json e ≡ some t
    → c.zstd_encode (as_bytes t) ≡ some z
    → length z ≤ max_frame

-- What the reader of a format asks of an entry: it is read back, and its frame is not above the
-- limit.
abbrev pub IsReadable : Codec → Bool → WalEntry → Type 0
IsReadable c true e = Fits c e × Returns c e
IsReadable c false e = Returns c e

pub le_bytes_back :
    (n : ℕ)
    → n < 2 ^ 32
    → from_le_bytes (n % 2 ^ 8) (n / 2 ^ 8 % 2 ^ 8) (n / 2 ^ 16 % 2 ^ 8) (n / 2 ^ 24 % 2 ^ 8) ≡ n
unfolding from_le_bytes
le_bytes_back n h = omega arith

pub fits_word : (n : ℕ) → n ≤ max_frame → n % 2 ^ 32 ≡ n
fits_word n h = omega arith

-- A frame that fits is taken off the input, and its payload decides how the loop goes on.
pub read_frames_frame :
    (c : Codec) (f : ℕ) (z rest : Bytes)
    → 0 < length z
    → length z ≤ max_frame
    → read_frames c (suc f) (zstd_frame z ++ rest)
      ≡ with_payload (read_payload c z) (read_frames c f rest)
unfolding read_frames zstd_frame to_le_bytes
read_frames_frame c f z rest h k =
    with_frame_whole c _ z rest (λ r. read_frames c f r)
      (le_bytes_back (length z % 2 ^ 32) (omega arith) ∙ fits_word (length z) k) h k

pub entry_bytes_zstd :
    (c : Codec) (e : WalEntry) (f : Bytes)
    → entry_bytes c true e ≡ ok f
    → (t : Text) × (z : Bytes) × (c.to_json e ≡ some t)
      × (c.zstd_encode (as_bytes t) ≡ some z)
      × (f ≡ zstd_frame z)
unfolding entry_bytes
entry_bytes_zstd c e f p = elim (Option-cases (c.to_json e)) [
  | inl q ↦ absurd (ground arith)
  | inr (t, q) ↦ elim (Option-cases (c.zstd_encode (as_bytes t))) [
    | inl r ↦ absurd (ground arith)
    | inr (z, r) ↦ (t, z, q, r, ground arith)
  ]
]

-- The payload that the log wrote gives its entry.
pub read_payload_entry :
    (c : Codec) (e : WalEntry) (t : Text) (z : Bytes)
    → IsLawful c
    → Returns c e
    → c.to_json e ≡ some t
    → c.zstd_encode (as_bytes t) ≡ some z
    → read_payload c z ≡ entry (some e)
unfolding read_payload
read_payload_entry c e t z law back p q =
    let o = law.json_object e t p in
    ground (arith, law.zstd_back (as_bytes t) z q, from_utf8-as_bytes t o.scalar, back t p)

-- `r` with the entries in front of those that it holds.
abbrev pub prepend : List WalEntry → Result (List WalEntry) → Result (List WalEntry)
prepend [] r = r
prepend (e ∷ es) r = with_payload (entry (some e)) (prepend es r)

pub prepend-ok : (es fs : List WalEntry) → prepend es (ok fs) ≡ ok (es ++ fs)
prepend-ok [] fs = refl
prepend-ok (e ∷ es) fs = ap (with_payload (entry (some e))) (prepend-ok es fs)

-- The frames of the entries, then whatever stands behind them.
pub read_frames-Encodes :
    (c : Codec) (es : List WalEntry) (s tail : Bytes) (fuel : ℕ)
    → IsLawful c
    → All (IsReadable c true) es
    → Encodes c true es s
    → read_frames c (length es + fuel) (s ++ tail) ≡ prepend es (read_frames c fuel tail)
read_frames-Encodes c [] s tail fuel law fit h = rw (h, add.zero fuel)
read_frames-Encodes c (e ∷ es) s tail fuel law ((fit, back), fits) (f, r, p, h, k) =
    let (t, z, q, y, same) = entry_bytes_zstd c e f p in
    rw (k, same, append_assoc (zstd_frame z) r tail, add.suc (length es) fuel)
      (read_frames_frame c (length es + fuel) z (r ++ tail) (law.zstd_full (as_bytes t) z y)
          (fit t z q y)
        ∙ ap₂ with_payload (read_payload_entry c e t z law back q y)
            (read_frames-Encodes c es r tail fuel law fits h))
