-- ===== src/Wal/Encodes.antt =====
-- A log as the bytes of a list of entries, in either format.
use ferres_db.Base.{◌≡◌, refl, sym, Bool, List, [], ◌∷◌, ◌++◌, append-nil, append_assoc}
use ferres_db.Base.Text.{Bytes}
use ferres_db.Error.{ok}
use ferres_db.Wal.Entry.{WalEntry, Codec, entry_bytes}

-- `s` is the bytes of the entries, one after another.
abbrev pub Encodes : Codec → Bool → List WalEntry → Bytes → Type 0
Encodes c z [] s = s ≡ []
Encodes c z (e ∷ es) s =
    (f : Bytes) × (r : Bytes) × (entry_bytes c z e ≡ ok f) × Encodes c z es r × (s ≡ f ++ r)

pub Encodes-snoc :
    (c : Codec) (z : Bool) (es : List WalEntry) (s : Bytes) (e : WalEntry) (f : Bytes)
    → Encodes c z es s
    → entry_bytes c z e ≡ ok f
    → Encodes c z (es ++ e ∷ []) (s ++ f)
Encodes-snoc c z [] s e f h p = (f, [], p, refl, rw h (sym (append-nil f)))
Encodes-snoc c z (d ∷ es) s e f (g, r, q, h, k) p =
    (g, r ++ f, q, Encodes-snoc c z es r e f h p, rw k (append_assoc g r f))
