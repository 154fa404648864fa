-- ===== src/Point.antt =====
-- A point and the key under which it is stored (crates/core/src/point.rs). An `f32` is its bit
-- pattern. A metadata value is carried as its JSON text: the core only hands it on.
pub mod StorageId
use ferres_db.Base.{
  ℕ, ◌/◌, ◌%◌, ◌^◌, Bool, true, false, not, Option, none, some, List, [], ◌∷◌, ◌++◌, ◌==◌,
  if◌then◌else◌, is_empty, any, length,
}
use ferres_db.Base.Text.{Text, text, text_eq}
use ferres_db.Base.Dict
use ferres_db.Base.Dict.{Dict}
use ferres_db.Error.{
  Result, ok, err, ok_or, ◌>>=◌, invalid_point_id, empty_vector, invalid_vector, not_finite,
}

abbrev pub Vector : Type 0
Vector = List ℕ

pub record Point : Type 0 where
  pub id : Text
  pub vector : Vector
  pub metadata : Text
  pub created_at : ℕ
  pub namespace : Option Text
  pub expires_at : Option ℕ
  pub vectors : Option (Dict Vector)
  pub relations : Option (List Text)

-- `f32::is_finite`: the exponent's eight bits are not all set.
unfoldable pub is_finite : ℕ → Bool
is_finite bits = not (bits / 2 ^ 23 % 2 ^ 8 == 255)

unfoldable pub new : ℕ → Text → Vector → Text → Result Point
unfolding is_finite
new now id vector metadata =
    if is_empty id
    then err (invalid_point_id [])
    else if is_empty vector
    then err empty_vector
    else if any (λ v. not (is_finite v)) vector
    then err (invalid_vector not_finite)
    else ok (record {
      id = id;
      vector = vector;
      metadata = metadata;
      created_at = now;
      namespace = none;
      expires_at = none;
      vectors = none;
      relations = none;
    })

-- A named vector, if there is a table of them.
abbrev named_vector : Option (Dict Vector) → Text → Option Vector
named_vector none name = none
named_vector (some m) name = Dict.get name m

unfoldable pub vector_for_field : Point → Option Text → Option Vector
vector_for_field p none = some p.vector
vector_for_field p (some name) =
    if text_eq name (text "default") then some p.vector else named_vector p.vectors name

-- With a namespace the key is `"{namespace}\0{id}"`.
unfoldable pub storage_id_from_parts : Option Text → Text → Text
storage_id_from_parts none id = id
storage_id_from_parts (some n) id = n ++ 0 ∷ id

unfoldable pub storage_id : Point → Text
unfolding storage_id_from_parts
storage_id p = storage_id_from_parts p.namespace p.id

-- The parts before and after the first NUL.
unfoldable pub split_nul : Text → Option (Text × Text)
split_nul [] = none
split_nul (c ∷ s) =
    if c == 0
    then some ([], s)
    else elim (split_nul s) [ none ↦ none | some (n, id) ↦ some (c ∷ n, id) ]

unfoldable pub parse_storage_id : Text → Option Text × Text
unfolding split_nul
parse_storage_id key = elim (split_nul key) [ none ↦ (none, key) | some (n, id) ↦ (some n, id) ]

unfoldable pub dimension : Point → ℕ
dimension p = length p.vector
