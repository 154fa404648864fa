-- ===== src/Wal/Lines.antt =====
-- The JSONL reader gives back the entries whose lines it finds.
use mathlib.Core.List.{reverse, reverse-cons, reverse-reverse}
use ferres_db.Base.{
  ℕ, ◌≤◌, ◌<◌, ◌≡◌, refl, ap, ◌∙◌, false, some, List, [], ◌∷◌, ◌++◌, append-nil, append_assoc,
  arith, All, ◌≢◌, is_empty, Option-cases, inl, inr,
}
use ferres_db.Base.Text.{Text, Bytes, trim}
use ferres_db.Base.Utf8.{as_bytes, from_utf8-as_bytes, encode_char, encode_char-ne}
use ferres_db.Error.{ok}
use ferres_db.Wal.Entry.{WalEntry, Codec, IsLawful, Returns, IsJsonObject, json_line, entry_bytes}
use ferres_db.Wal.Read.{chomp, lines_from, lines, read_lines, read_entries_jsonl}
use ferres_db.Wal.Encodes.{Encodes}

module _ {ℓ} {A : Type ℓ} (P : A → Type 0) where
  pub All-append : (front back : List A) → All P front → All P back → All P (front ++ back)
  All-append [] back tt later = later
  All-append (x ∷ front) back (here, more) later = (here, All-append front back more later)

All-reverse : (P : ℕ → Type 0) (xs : Bytes) → All P xs → All P (reverse xs)
All-reverse P [] h = tt
All-reverse P (x ∷ xs) h =
    rw (reverse-cons x xs) (All-append P (reverse xs) (x ∷ []) (All-reverse P xs h.1) (h.0, tt))

pub chomp_plain : (line : Bytes) → All (λ b. b ≢ b'\r') line → chomp line ≡ reverse line
chomp_plain [] h = refl
chomp_plain (b ∷ line) h = ground arith

pub lines_from_line :
    (line xs rest : Bytes)
    → All (λ b. b ≢ b'\n') xs
    → lines_from line (xs ++ b'\n' ∷ rest) ≡ chomp (reverse xs ++ line) ∷ lines rest
unfolding lines_from lines
lines_from_line line [] rest h = refl
lines_from_line line (x ∷ xs) rest h = ground (
  arith,
  lines_from_line (x ∷ line) xs rest h.1,
  reverse-cons x xs,
  append_assoc (reverse xs) (x ∷ []) line,
)

-- A line with no line end inside is read as it was written.
pub lines_line :
    (xs rest : Bytes)
    → All (λ b. b ≢ b'\n') xs
    → All (λ b. b ≢ b'\r') xs
    → lines (xs ++ b'\n' ∷ rest) ≡ xs ∷ lines rest
lines_line xs rest h k =
    unfold lines in
    lines_from_line [] xs rest h
    ∙ ap (λ (l : Bytes). l ∷ lines rest)
        (rw (append-nil (reverse xs))
          (chomp_plain (reverse xs) (All-reverse (λ b. b ≢ b'\r') xs k) ∙ reverse-reverse xs))

pub as_bytes-ne : (b : ℕ) (t : Text) → b < 32 → All (λ c. 32 ≤ c) t → All (λ x. x ≢ b) (as_bytes t)
unfolding as_bytes
as_bytes-ne b [] l h = tt
as_bytes-ne b (c ∷ t) l h =
    All-append (λ x. x ≢ b) (encode_char c) (as_bytes t)
      (encode_char-ne c b (omega arith) (omega arith)) (as_bytes-ne b t l h.1)

not_blank : (t : Text) → IsJsonObject t → is_empty (trim t) ≡ false
unfolding trim
not_blank t o = rw (o.braced) refl

read_lines_object :
    (c : Codec) (e : WalEntry) (t : Text) (rest : List Bytes)
    → IsJsonObject t
    → c.from_json t ≡ some e
    → read_lines c (as_bytes t ∷ rest) ≡ e ∷ read_lines c rest
unfolding read_lines
read_lines_object c e t rest o p = ground (arith, from_utf8-as_bytes t o.scalar, not_blank t o, p)

-- A line that the log wrote gives its entry, whatever follows it.
pub read_lines_line :
    (c : Codec) (e : WalEntry) (t : Text) (rest : Bytes)
    → IsLawful c
    → Returns c e
    → c.to_json e ≡ some t
    → read_lines c (lines (json_line t ++ rest)) ≡ e ∷ read_lines c (lines rest)
unfolding json_line
read_lines_line c e t rest law back p =
    let o = law.json_object e t p in
    ap (λ (s : Bytes). read_lines c (lines s)) (append_assoc (as_bytes t) (b'\n' ∷ []) rest)
    ∙ ap (read_lines c) (
        lines_line (as_bytes t) rest (as_bytes-ne b'\n' t (omega arith) o.printable)
          (as_bytes-ne b'\r' t (omega arith) o.printable))
    ∙ read_lines_object c e t (lines rest) o (back t p)

pub entry_bytes_json :
    (c : Codec) (e : WalEntry) (f : Bytes)
    → entry_bytes c false e ≡ ok f
    → (t : Text) × (c.to_json e ≡ some t) × (f ≡ json_line t)
unfolding entry_bytes
entry_bytes_json c e f p = elim (Option-cases (c.to_json e)) [
  | inl q ↦ absurd (ground arith)
  | inr (t, q) ↦ (t, q, ground arith)
]

-- The lines of the entries, then whatever stands behind them.
pub read_entries_jsonl-Encodes :
    (c : Codec) (es : List WalEntry) (s tail : Bytes)
    → IsLawful c
    → All (Returns c) es
    → Encodes c false es s
    → read_entries_jsonl c (s ++ tail) ≡ es ++ read_entries_jsonl c tail
unfolding read_entries_jsonl
read_entries_jsonl-Encodes c [] s tail law back h = rw h refl
read_entries_jsonl-Encodes c (e ∷ es) s tail law (back, backs) (f, r, p, h, k) =
    let (t, q, same) = entry_bytes_json c e f p in
    rw (k, same, append_assoc (json_line t) r tail)
      (read_lines_line c e t (r ++ tail) law back q
        ∙ ap (◌∷◌ e) (read_entries_jsonl-Encodes c es r tail law backs h))
