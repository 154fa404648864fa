-- ===== src/Base/Utf8.antt =====
-- UTF-8, as `str::as_bytes` and `String::from_utf8` of the standard library have it.
use Prim.Native.Nat.{ℕ, zero, suc, ◌+◌, ◌-◌, ◌*◌, ◌/◌, ◌%◌, ◌≤◌, ◌<◌}
use mathlib.Core.Path.{◌≡◌, refl, ap, ◌∙◌}
use mathlib.Core.Logic.{◌⊎◌, inl, inr, ◌≢◌}
use mathlib.Core.Bool.{Bool, true, false, ◌&&◌, ◌||◌}
use mathlib.Core.Option.{Option, none, some}
use mathlib.Core.List.{[], ◌∷◌, ◌++◌}
use native.Mathlib.Omega.{arith}
use ferres_db.Base.Tests.{leb, ltb, Bool-cases, if◌then◌else◌}
use ferres_db.Base.Lists.{All}
use ferres_db.Base.Text.{Text, Bytes}

-- A `char`: a code point that is no surrogate.
abbrev pub IsScalar : ℕ → Type 0
IsScalar c = (c < 0xd800) ⊎ ((0xe000 ≤ c) × (c ≤ 0x10ffff))

unfoldable pub encode_char : ℕ → Bytes
encode_char c =
    if ltb c 0x80
    then c ∷ []
    else if ltb c 0x800
    then (0xc0 + c / 64) ∷ (0x80 + c % 64) ∷ []
    else if ltb c 0x10000
    then (0xe0 + c / 4096) ∷ (0x80 + c / 64 % 64) ∷ (0x80 + c % 64) ∷ []
    else (0xf0 + c / 262144) ∷ (0x80 + c / 4096 % 64) ∷ (0x80 + c / 64 % 64) ∷ (0x80 + c % 64) ∷ []

unfoldable pub as_bytes : Text → Bytes
as_bytes [] = []
as_bytes (c ∷ s) = encode_char c ++ as_bytes s

abbrev emit : ℕ → Option Text → Option Text
emit c none = none
emit c (some s) = some (c ∷ s)

-- No overlong form, no surrogate, nothing past the last code point.
abbrev is_valid : ℕ → ℕ → Bool
is_valid low c = leb low c && leb c 0x10ffff && (ltb c 0xd800 || leb 0xe000 c)

-- `need` bytes of the character are still to come, `code` holds the bits so far, and `low` is the
-- least code point that may be written in this length.
unfoldable pub decode : ℕ → ℕ → ℕ → Bytes → Option Text
decode zero code low [] = some []
decode (suc need) code low [] = none
decode zero code low (b ∷ s) =
    if ltb b 0x80
    then emit b (decode 0 0 0 s)
    else (let two = decode 1 (b - 0xc0) 0x80 s in
        let three = decode 2 (b - 0xe0) 0x800 s in
        let four = decode 3 (b - 0xf0) 0x10000 s in
        if ltb b 0xc0
        then none
        else if ltb b 0xe0
        then two
        else if ltb b 0xf0
        then three
        else if ltb b 0xf8
        then four
        else none)
decode (suc zero) code low (b ∷ s) =
    if leb 0x80 b && ltb b 0xc0
    then (if is_valid low (code * 64 + (b - 0x80))
        then emit (code * 64 + (b - 0x80)) (decode 0 0 0 s)
        else none)
    else none
decode (suc (suc need)) code low (b ∷ s) =
    let more = decode (suc need) (code * 64 + (b - 0x80)) low s in
    if leb 0x80 b && ltb b 0xc0 then more else none

unfoldable pub from_utf8 : Bytes → Option Text
from_utf8 s = decode 0 0 0 s

add-sub : (a k : ℕ) → a + k - a ≡ k
add-sub a k = omega arith

ltb_ge : (a b : ℕ) → b ≤ a → ltb a b ≡ false
ltb_ge a b h = ground arith

ltb_lt : (a b : ℕ) → a < b → ltb a b ≡ true
ltb_lt a b h = ground arith

decode_two : (k : ℕ) (s : Bytes) → k < 32 → decode 0 0 0 ((0xc0 + k) ∷ s) ≡ decode 1 k 0x80 s
unfolding decode
decode_two k s h = rw (
  add-sub 0xc0 k,
  ltb_ge (0xc0 + k) 0x80 (omega arith),
  ltb_ge (0xc0 + k) 0xc0 (omega arith),
  ltb_lt (0xc0 + k) 0xe0 (omega arith),
)

decode_three : (k : ℕ) (s : Bytes) → k < 16 → decode 0 0 0 ((0xe0 + k) ∷ s) ≡ decode 2 k 0x800 s
unfolding decode
decode_three k s h = rw (
  add-sub 0xe0 k,
  ltb_ge (0xe0 + k) 0x80 (omega arith),
  ltb_ge (0xe0 + k) 0xc0 (omega arith),
  ltb_ge (0xe0 + k) 0xe0 (omega arith),
  ltb_lt (0xe0 + k) 0xf0 (omega arith),
)

decode_four : (k : ℕ) (s : Bytes) → k < 8 → decode 0 0 0 ((0xf0 + k) ∷ s) ≡ decode 3 k 0x10000 s
unfolding decode
decode_four k s h = rw (
  add-sub 0xf0 k,
  ltb_ge (0xf0 + k) 0x80 (omega arith),
  ltb_ge (0xf0 + k) 0xc0 (omega arith),
  ltb_ge (0xf0 + k) 0xe0 (omega arith),
  ltb_ge (0xf0 + k) 0xf0 (omega arith),
  ltb_lt (0xf0 + k) 0xf8 (omega arith),
)

decode_next :
    (n code low k : ℕ) (s : Bytes)
    → k < 64
    → decode (suc (suc n)) code low ((0x80 + k) ∷ s) ≡ decode (suc n) (code * 64 + k) low s
unfolding decode
decode_next n code low k s h = let e : 0x80 + k - 0x80 ≡ k = omega arith in rw e (ground arith)

decode_last :
    (code low k c : ℕ) (s : Bytes)
    → k < 64
    → code * 64 + k ≡ c
    → low ≤ c
    → IsScalar c
    → decode 1 code low ((0x80 + k) ∷ s) ≡ emit c (decode 0 0 0 s)
unfolding decode
decode_last code low k c s h e l v =
    let e' : code * 64 + (0x80 + k - 0x80) ≡ c = omega arith in rw e' (ground arith)

decode-encode_char :
    (c : ℕ) (s : Bytes) → IsScalar c → decode 0 0 0 (encode_char c ++ s) ≡ emit c (decode 0 0 0 s)
unfolding encode_char
decode-encode_char c s h = elim (Bool-cases (ltb c 0x80)) [
  | inl one ↦ rw one (unfold decode in ground arith)
  | inr p ↦ elim (Bool-cases (ltb c 0x800)) [
    | inl two ↦
        rw (p, two)
          (decode_two (c / 64) ((0x80 + c % 64) ∷ s) (ground arith)
            ∙ decode_last (c / 64) 0x80 (c % 64) c s (omega arith) (omega arith) (ground arith) h)
    | inr q ↦ elim (Bool-cases (ltb c 0x10000)) [
      | inl three ↦
          rw (p, q, three)
            (decode_three (c / 4096) ((0x80 + c / 64 % 64) ∷ (0x80 + c % 64) ∷ s) (ground arith)
              ∙ decode_next 0 (c / 4096) 0x800 (c / 64 % 64) ((0x80 + c % 64) ∷ s) (omega arith)
              ∙ decode_last (c / 4096 * 64 + c / 64 % 64) 0x800 (c % 64) c s (omega arith)
                  (omega arith) (ground arith) h)
      | inr r ↦
          rw (p, q, r)
            (decode_four (c / 262144)
                ((0x80 + c / 4096 % 64) ∷ (0x80 + c / 64 % 64) ∷ (0x80 + c % 64) ∷ s) (ground arith)
              ∙ decode_next 1 (c / 262144) 0x10000 (c / 4096 % 64)
                  ((0x80 + c / 64 % 64) ∷ (0x80 + c % 64) ∷ s) (omega arith)
              ∙ decode_next 0 (c / 262144 * 64 + c / 4096 % 64) 0x10000 (c / 64 % 64)
                  ((0x80 + c % 64) ∷ s) (omega arith)
              ∙ decode_last ((c / 262144 * 64 + c / 4096 % 64) * 64 + c / 64 % 64) 0x10000 (c % 64)
                  c s (omega arith) (omega arith) (ground arith) h)
    ]
  ]
]

-- Decoding what was encoded gives back the text.
pub from_utf8-as_bytes : (s : Text) → All IsScalar s → from_utf8 (as_bytes s) ≡ some s
unfolding from_utf8 as_bytes decode
from_utf8-as_bytes [] h = refl
from_utf8-as_bytes (c ∷ s) h =
    decode-encode_char c (as_bytes s) h.0 ∙ ap (emit c) (from_utf8-as_bytes s h.1)

-- A byte below 128 stands for itself: none comes from another character.
pub encode_char-ne : (c b : ℕ) → b < 0x80 → c ≢ b → All (λ x. x ≢ b) (encode_char c)
unfolding encode_char
encode_char-ne c b h e = ground arith
