-- ===== src/Base/Dict.antt =====
-- `HashMap<String, V>` as an association list. Its order stands for the unspecified order of
-- iteration, so no statement may rest on it.
use mathlib.Core.Path.{◌≡◌, refl}
use mathlib.Core.Bool.{Bool}
use mathlib.Core.Option.{Option, none, some}
use mathlib.Core.List.{List, [], ◌∷◌}
use Prim.Native.Nat.{ℕ, ◌+◌}
use native.Mathlib.Omega.{arith}
use ferres_db.Base.Tests.{if◌then◌else◌, is_some}
use ferres_db.Base.Text.{Text, text_eq, text_eq_iff}

abbrev pub Dict {ℓ} : Type ℓ → Type ℓ
Dict V = List (Text × V)

module _ {ℓ} {V : Type ℓ} where
  unfoldable pub get : Text → Dict V → Option V
  unfolding text_eq
  get k [] = none
  get k ((j, v) ∷ d) = if text_eq j k then some v else get k d

  unfoldable pub insert : Text → V → Dict V → Dict V
  unfolding text_eq
  insert k v [] = (k, v) ∷ []
  insert k v ((j, w) ∷ d) = if text_eq j k then (j, v) ∷ d else (j, w) ∷ insert k v d

  unfoldable pub remove : Text → Dict V → Dict V
  unfolding text_eq
  remove k [] = []
  remove k ((j, w) ∷ d) = let rest = remove k d in if text_eq j k then rest else (j, w) ∷ rest

  abbrev pub contains_key : Text → Dict V → Bool
  contains_key k d = is_some (get k d)

  abbrev pub keys : Dict V → List Text
  keys [] = []
  keys ((j, v) ∷ d) = j ∷ keys d

  abbrev pub values : Dict V → List V
  values [] = []
  values ((j, v) ∷ d) = v ∷ values d

  -- No key stands twice.
  abbrev pub IsDistinct : Dict V → Type ℓ
  IsDistinct [] = Unit
  IsDistinct ((j, v) ∷ d) = (get j d ≡ none) × IsDistinct d

  -- The sum of a weight over the entries.
  abbrev pub weigh : (V → ℕ) → Dict V → ℕ
  weigh f [] = 0
  weigh f ((j, v) ∷ d) = f v + weigh f d

  abbrev pub weight : (V → ℕ) → Option V → ℕ
  weight f none = 0
  weight f (some v) = f v

module _ {ℓ} {V : Type ℓ} where
  pub get-insert :
      (k j : Text) (v : V) (d : Dict V)
      → get j (insert k v d) ≡ (if text_eq k j then some v else get j d)
  unfolding get insert
  get-insert k j v [] = refl
  get-insert k j v ((i, w) ∷ d) =
      ground (arith, text_eq_iff k j, text_eq_iff i k, text_eq_iff i j, get-insert k j v d)

  pub get-remove :
      (k j : Text) (d : Dict V) → get j (remove k d) ≡ (if text_eq k j then none else get j d)
  unfolding get remove
  get-remove k j [] = ground arith
  get-remove k j ((i, w) ∷ d) =
      ground (arith, text_eq_iff k j, text_eq_iff i k, text_eq_iff i j, get-remove k j d)

  pub ruleset dict_laws = (get-insert, get-remove)

  pub insert-IsDistinct : (k : Text) (v : V) (d : Dict V) → IsDistinct d → IsDistinct (insert k v d)
  unfolding insert
  insert-IsDistinct k v [] h = (unfold get in refl, tt)
  insert-IsDistinct k v ((i, w) ∷ d) h =
      ground (arith, text_eq_iff i k, text_eq_iff k i, insert-IsDistinct k v d, get-insert k i v d)

  pub remove-IsDistinct : (k : Text) (d : Dict V) → IsDistinct d → IsDistinct (remove k d)
  unfolding remove
  remove-IsDistinct k [] h = tt
  remove-IsDistinct k ((i, w) ∷ d) h =
      ground (arith, text_eq_iff k i, remove-IsDistinct k d, get-remove k i d)

  pub remove_absent : (k : Text) (d : Dict V) → get k d ≡ none → remove k d ≡ d
  unfolding get remove
  remove_absent k [] h = refl
  remove_absent k ((i, w) ∷ d) h = ground (arith, remove_absent k d)

  -- Removal takes away the weight of what was there, insertion of a new key adds that of the value.
  pub weigh-remove :
      (f : V → ℕ) (k : Text) (d : Dict V)
      → IsDistinct d
      → weigh f (remove k d) + weight f (get k d) ≡ weigh f d
  unfolding get remove
  weigh-remove f k [] h = omega arith
  weigh-remove f k ((i, w) ∷ d) h =
      ground (arith, text_eq_iff i k, weigh-remove f k d, remove_absent i d)

  pub weigh-insert :
      (f : V → ℕ) (k : Text) (v : V) (d : Dict V)
      → get k d ≡ none
      → weigh f (insert k v d) ≡ weigh f d + f v
  unfolding get insert
  weigh-insert f k v [] h = omega arith
  weigh-insert f k v ((i, w) ∷ d) h = ground (arith, weigh-insert f k v d)
