-- ===== src/Tiered/ColdPaths.antt =====
-- Two ids never share a file of the cold storage.
use ferres_db.Base.{
  ℕ, ◌/◌, ◌%◌, ◌≡◌, refl, sym, ap, ◌∙◌, true, false, some, [], ◌∷◌, ◌++◌, arith, All, Bool-cases,
  inl, inr, if◌then◌else◌,
}
use ferres_db.Base.Text.{Text, Bytes, text}
use ferres_db.Base.Utf8.{IsScalar, encode_char, as_bytes, from_utf8, from_utf8-as_bytes}
use ferres_db.Tiered.Cold.{is_safe, hex, percent, escape, point_path}
use mathlib.Core.List.{append_cancel_right}

-- The escape, byte by byte.
escape_bytes : Bytes → Text
escape_bytes [] = []
escape_bytes (x ∷ s) =
    if is_safe x then x ∷ escape_bytes s else b'%' ∷ hex (x / 16) ∷ hex (x % 16) ∷ escape_bytes s

safe_ascii : (c : ℕ) → is_safe c ≡ true → encode_char c ≡ c ∷ []
unfolding is_safe encode_char
safe_ascii c h = ground arith

unsafe_bytes : (c : ℕ) → is_safe c ≡ false → All (λ x. is_safe x ≡ false) (encode_char c)
unfolding is_safe encode_char
unsafe_bytes c h = ground arith

escape_bytes-percent :
    (s t : Bytes)
    → All (λ x. is_safe x ≡ false) s
    → escape_bytes (s ++ t) ≡ percent s ++ escape_bytes t
unfolding escape_bytes percent
escape_bytes-percent [] t h = refl
escape_bytes-percent (x ∷ s) t (h, hs) =
    rw h (ap (λ r. b'%' ∷ hex (x / 16) ∷ hex (x % 16) ∷ r) (escape_bytes-percent s t hs))

escape-as_bytes : (s : Text) → escape s ≡ escape_bytes (as_bytes s)
unfolding escape as_bytes escape_bytes
escape-as_bytes [] = refl
escape-as_bytes (c ∷ s) = elim (Bool-cases (is_safe c)) [
  | inl safe ↦ rw (safe, safe_ascii c safe) (rw safe (ap (◌∷◌ c) (escape-as_bytes s)))
  | inr special ↦ rw special (
      ap (λ r. percent (encode_char c) ++ r) (escape-as_bytes s)
      ∙ sym (escape_bytes-percent (encode_char c) (as_bytes s) (unsafe_bytes c special)))
]

hex_injective : (d e : ℕ) → hex d ≡ hex e → d ≡ e
unfolding hex
hex_injective d e h = ground arith

percent_unsafe : is_safe b'%' ≡ false
unfolding is_safe
percent_unsafe = refl

byte_of_digits : (x y : ℕ) → x / 16 ≡ y / 16 → x % 16 ≡ y % 16 → x ≡ y
byte_of_digits x y h k = omega arith

escape_bytes_injective : (s t : Bytes) → escape_bytes s ≡ escape_bytes t → s ≡ t
unfolding escape_bytes
escape_bytes_injective [] [] h = refl
escape_bytes_injective [] (y ∷ t) h = absurd (ground arith)
escape_bytes_injective (x ∷ s) [] h = absurd (ground arith)
escape_bytes_injective (x ∷ s) (y ∷ t) h = ground (
  arith,
  percent_unsafe,
  escape_bytes_injective s t,
  hex_injective (x / 16) (y / 16),
  hex_injective (x % 16) (y % 16),
  byte_of_digits x y,
)

-- Ids share a file of the cold storage only if they are equal.
pub point_path_injective :
    (s t : Text) → All IsScalar s → All IsScalar t → point_path s ≡ point_path t → s ≡ t
unfolding point_path
point_path_injective s t hs ht h =
    let bytes : as_bytes s ≡ as_bytes t = escape_bytes_injective (as_bytes s) (as_bytes t) (
      sym (escape-as_bytes s)
      ∙ append_cancel_right (escape s) (escape t) (text ".json") h
      ∙ escape-as_bytes t) in
    let back : some s ≡ some t =
      sym (from_utf8-as_bytes s hs) ∙ ap from_utf8 bytes ∙ from_utf8-as_bytes t ht in
    cc
