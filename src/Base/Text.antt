-- ===== src/Base/Text.antt =====
-- Texts and byte strings as lists of numbers: a `String` is the list of its characters' code
-- points, a `Vec<u8>` the list of its bytes.
use Prim.Native.Char.{code}
use Prim.Native.String.{String}
use mathlib.Core.Path.{◌≡◌, refl}
use mathlib.Core.Logic.{◌↔◌}
use mathlib.Core.Bool.{Bool, true, false, ◌&&◌, ◌||◌}
use mathlib.Core.List.{List, [], ◌∷◌, reverse}
use Prim.Native.Nat.{ℕ}
use native.Mathlib.Omega.{arith}
use ferres_db.Base.Tests.{◌==◌, leb, if◌then◌else◌}
use ferres_db.Base.Lists.{is_empty}

abbrev pub Text : Type 0
Text = List ℕ

abbrev pub Bytes : Type 0
Bytes = List ℕ

-- The code points of a literal.
abbrev pub text : String → Text
text String.[] = []
text (String.◌∷◌ c s) = code c ∷ text s

-- `==` of two strings.
unfoldable pub text_eq : Text → Text → Bool
text_eq [] [] = true
text_eq [] (y ∷ ys) = false
text_eq (x ∷ xs) [] = false
text_eq (x ∷ xs) (y ∷ ys) = if x == y then text_eq xs ys else false

pub text_eq_iff : (s t : Text) → (text_eq s t ≡ true) ↔ (s ≡ t)
unfolding text_eq
text_eq_iff [] [] = ground arith
text_eq_iff [] (y ∷ ys) = ground arith
text_eq_iff (x ∷ xs) [] = ground arith
text_eq_iff (x ∷ xs) (y ∷ ys) = ground (arith, text_eq_iff xs ys)

pub text_eq_refl : (s : Text) → text_eq s s ≡ true
text_eq_refl s = (text_eq_iff s s).1 refl

-- `char::is_whitespace`: the code points with the Unicode property White_Space.
unfoldable pub is_whitespace : ℕ → Bool
is_whitespace c =
    if leb 9 c && leb c 13
    then true
    else if leb 0x2000 c && leb c 0x200a
    then true
    else c == 0x20
      || c == 0x85
      || c == 0xa0
      || c == 0x1680
      || c == 0x2028
      || c == 0x2029
      || c == 0x202f
      || c == 0x205f
      || c == 0x3000

unfoldable pub trim_start : Text → Text
trim_start [] = []
trim_start (c ∷ s) = if is_whitespace c then trim_start s else c ∷ s

unfoldable pub trim_end : Text → Text
trim_end [] = []
trim_end (c ∷ s) =
    let rest = trim_end s in if is_whitespace c && is_empty rest then [] else c ∷ rest

unfoldable pub trim : Text → Text
unfolding trim_start trim_end is_whitespace
trim s = trim_end (trim_start s)

-- The word that is being read is held reversed in `word`.
unfoldable pub split_words : Text → Text → List Text
split_words word [] = if is_empty word then [] else reverse word ∷ []
split_words word (c ∷ s) =
    if is_whitespace c
    then (let rest = split_words [] s in if is_empty word then rest else reverse word ∷ rest)
    else split_words (c ∷ word) s

unfoldable pub split_whitespace : Text → List Text
unfolding split_words is_whitespace
split_whitespace s = split_words [] s
