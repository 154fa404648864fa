-- ===== src/Wal/Crash.antt =====
-- What the reader makes of a log whose last write was cut short.
use mathlib.Core.List.{reverse, reverse-cons, reverse-reverse}
use ferres_db.Base.{
  ℕ, zero, suc, ◌≤◌, ◌<◌, ◌≡◌, refl, sym, ap, ◌∙◌, false, none, some, List, [], ◌∷◌, ◌++◌,
  append-nil, append_assoc, arith, All, ◌≢◌, take, length, Option-cases, inl, inr,
}
use ferres_db.Base.Text.{Text, Bytes}
use ferres_db.Base.Utf8.{as_bytes, from_utf8}
use ferres_db.Error.{ok}
use ferres_db.Wal.Entry.{WalEntry, Codec, IsLawful, Returns, json_line}
use ferres_db.Wal.Read.{
  lines, lines_from, read_lines, read_entries, read_bytes, read_entries_jsonl, has_magic,
}
use ferres_db.Wal.Encodes.{Encodes}
use ferres_db.Wal.Lines.{All-append, as_bytes-ne, lines_line, read_entries_jsonl-Encodes}
use ferres_db.Wal.Holds.{as_bytes_braced, has_magic_json, has_magic_brace}

-- A last line with no end stands as it is.
lines_from_tail :
    (x : ℕ) (line xs : Bytes)
    → All (λ b. b ≢ b'\n') xs
    → lines_from (x ∷ line) xs ≡ reverse (reverse xs ++ x ∷ line) ∷ []
unfolding lines_from
lines_from_tail x line [] h = refl
lines_from_tail x line (y ∷ ys) h = ground (
  arith,
  lines_from_tail y (x ∷ line) ys h.1,
  reverse-cons y ys,
  append_assoc (reverse ys) (y ∷ []) (x ∷ line),
)

lines-nil : lines [] ≡ []
unfolding lines lines_from
lines-nil = refl

lines_tail : (x : ℕ) (xs : Bytes) → All (λ b. b ≢ b'\n') (x ∷ xs) → lines (x ∷ xs) ≡ (x ∷ xs) ∷ []
unfolding lines lines_from
lines_tail x xs h =
    ground (arith, lines_from_tail x [] xs h.1, reverse-cons x xs, reverse-reverse (x ∷ xs))

-- No entry can be parsed from these bytes.
abbrev pub IsGarbage : Codec → Bytes → Type 0
IsGarbage c s = (u : Text) → from_utf8 s ≡ some u → c.from_json u ≡ none

read_garbage : (c : Codec) (line : Bytes) → IsGarbage c line → read_lines c (line ∷ []) ≡ []
unfolding read_lines
read_garbage c line g = elim (Option-cases (from_utf8 line)) [
  | inl bad ↦ rw (bad, read_lines)
  | inr (u, q) ↦ ground (arith, g u q)
]

read_entries_jsonl-garbage :
    (c : Codec) (s : Bytes) → All (λ b. b ≢ b'\n') s → IsGarbage c s → read_entries_jsonl c s ≡ []
unfolding read_entries_jsonl
read_entries_jsonl-garbage c [] h g = unfold lines lines_from read_lines in refl
read_entries_jsonl-garbage c (x ∷ xs) h g = rw (lines_tail x xs h) (read_garbage c (x ∷ xs) g)

read_glued :
    (c : Codec) (line : Bytes)
    → All (λ b. b ≢ b'\n') line
    → All (λ b. b ≢ b'\r') line
    → IsGarbage c line
    → read_entries_jsonl c (line ++ b'\n' ∷ []) ≡ []
unfolding read_entries_jsonl
read_glued c line h k g =
    ap (read_lines c) (lines_line line [] h k ∙ ap (◌∷◌ line) lines-nil) ∙ read_garbage c line g

All-take : (P : ℕ → Type 0) (n : ℕ) (xs : Bytes) → All P xs → All P (take n xs)
All-take P zero xs h = tt
All-take P (suc n) [] h = tt
All-take P (suc n) (x ∷ xs) h = (h.0, All-take P n xs h.1)

take-append : (n : ℕ) (xs ys : Bytes) → n ≤ length xs → take n (xs ++ ys) ≡ take n xs
take-append zero xs ys h = refl
take-append (suc n) [] ys h = absurd (omega arith)
take-append (suc n) (x ∷ xs) ys h = ap (◌∷◌ x) (take-append n xs ys (omega arith))

-- The file after a crash in the middle of a write: the entries, and the first bytes of one more.
has_magic_torn :
    (c : Codec) (es : List WalEntry) (s tail : Bytes)
    → IsLawful c
    → Encodes c false es s
    → has_magic tail ≡ false
    → has_magic (s ++ tail) ≡ false
has_magic_torn c [] s tail law h k = rw h k
has_magic_torn c (e ∷ es) s tail law (f, r, p, h, q) k =
    rw (q, append_assoc f r tail) (has_magic_json c e f (r ++ tail) law p)

has_magic-take : (n : ℕ) (r : Bytes) → has_magic (take n (b'{' ∷ r)) ≡ false
has_magic-take zero r = refl
has_magic-take (suc n) r = has_magic_brace (take n r)

module _ (c : Codec) (es : List WalEntry) (s : Bytes) (e : WalEntry) (t : Text) (law : IsLawful c)
    (back : All (Returns c) es) (encodes : Encodes c false es s) (json : c.to_json e ≡ some t) where
  -- A JSONL log that was cut inside the last entry reads as the entries before it, if these are
  -- read back.
  pub read_torn_line :
      (n : ℕ) → n < length (as_bytes t) → read_entries c (some (s ++ take n (as_bytes t))) ≡ ok es
  unfolding read_entries read_bytes
  read_torn_line n h =
      let torn : Bytes = take n (as_bytes t) in
      let o = law.json_object e t json in
      let (r, head) = as_bytes_braced t o in
      let plain : has_magic torn ≡ false = rw head (has_magic-take n r) in
      rw (has_magic_torn c es s torn law encodes plain) (
        ap ok (
          read_entries_jsonl-Encodes c es s torn law back encodes
          ∙ ap (◌++◌ es) (
              read_entries_jsonl-garbage c torn
                (All-take (λ b. b ≢ b'\n') n (as_bytes t)
                  (as_bytes-ne b'\n' t (omega arith) o.printable))
                (λ u q. law.json_prefix e t u n json h q))
          ∙ append-nil es))

  -- An entry that is appended behind the cut is glued to it, and is lost with it, if the glued line
  -- is no entry and the entries before it are read back.
  pub read_glued_line :
      (n : ℕ) (d : WalEntry) (v : Text)
      → n < length (as_bytes t)
      → 0 < n
      → c.to_json d ≡ some v
      → IsGarbage c (take n (as_bytes t) ++ as_bytes v)
      → read_entries c (some ((s ++ take n (as_bytes t)) ++ json_line v)) ≡ ok es
  unfolding read_entries read_bytes json_line
  read_glued_line zero d v h pos q g = absurd (omega arith)
  read_glued_line (suc m) d v h pos q g =
      let torn : Bytes = take (suc m) (as_bytes t) in
      let line : Bytes = torn ++ as_bytes v in
      let o = law.json_object e t json in
      let o' = law.json_object d v q in
      let (r, head) = as_bytes_braced t o in
      let whole : (s ++ torn) ++ (as_bytes v ++ b'\n' ∷ []) ≡ s ++ (line ++ b'\n' ∷ []) =
        append_assoc s torn (as_bytes v ++ b'\n' ∷ [])
        ∙ ap (◌++◌ s) (sym (append_assoc torn (as_bytes v) (b'\n' ∷ []))) in
      let plain : has_magic (line ++ b'\n' ∷ []) ≡ false =
        rw head (has_magic_brace ((take m r ++ as_bytes v) ++ b'\n' ∷ [])) in
      let clean : (b : ℕ) → b < 32 → All (λ x. x ≢ b) line = λ b lt.
        All-append (λ x. x ≢ b) torn (as_bytes v)
          (All-take (λ x. x ≢ b) (suc m) (as_bytes t) (as_bytes-ne b t lt o.printable))
          (as_bytes-ne b v lt o'.printable) in
      rw (whole, has_magic_torn c es s (line ++ b'\n' ∷ []) law encodes plain)
        (ap ok (
          read_entries_jsonl-Encodes c es s (line ++ b'\n' ∷ []) law back encodes
          ∙ ap (◌++◌ es)
              (read_glued c line (clean b'\n' (omega arith)) (clean b'\r' (omega arith)) g)
          ∙ append-nil es))
