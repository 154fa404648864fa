-- ===== src/Examples/Filters.antt =====
-- A filter on a number, over values that know objects of one field.
use ferres_db.Base.{
  ℕ, ◌≡◌, refl, false, Option, none, some, List, [], ◌∷◌, ltb, leb, length, if◌then◌else◌,
}
use ferres_db.Base.Text.{Text, text, text_eq}
use ferres_db.Base.Dict
use ferres_db.Engine.Filter.{Values, from_json}
use ferres_db.Engine.Filter.Meaning.{verdict, says, from_json-says}
use ferres_db.Examples.Instances.{a}

-- A number, `{"$gte": n}`, `{"size": {"$gte": n}}`, and `{"size": n}`.
data Toy : Type 0 where
  number at_least sized item : ℕ → Toy

abbrev fields : Toy → Option (List (Text × Toy))
fields (number n) = none
fields (at_least n) = some ((text "$gte", number n) ∷ [])
fields (sized n) = some ((text "size", at_least n) ∷ [])
fields (item n) = some ((text "size", number n) ∷ [])

abbrev as_number : Toy → Option ℕ
as_number (number n) = some n
as_number _ = none

abbrev size_of : Toy → Option Toy
size_of (item n) = some (number n)
size_of _ = none

abbrev values : Values
values = record {
  Value = Toy;
  F64 = ℕ;
  get = λ key v. if text_eq key (text "size") then size_of v else none;
  same = λ v w. false;
  is_null = λ v. false;
  as_object = fields;
  as_str = λ v. none;
  as_array = λ v. none;
  as_f64 = as_number;
  as_integer = as_number;
  greater = λ m n. ltb n m;
  less = ltb;
  greater_eq = λ m n. leb n m;
  less_eq = leb;
  value_of = λ t. item (length t);
}

from_json-says_example :
    verdict values (from_json values (sized 3)) a ≡ says values a ((text "size", at_least 3) ∷ [])
unfolding Dict.get
from_json-says_example =
    from_json-says values a (sized 3) ((text "size", at_least 3) ∷ []) refl (refl, tt)
