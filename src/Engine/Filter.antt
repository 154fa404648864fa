-- ===== src/Engine/Filter.antt =====
-- `MetadataFilter` and `MetadataCondition` (crates/core/src/lib.rs), and the search with one. The
-- values of serde_json and the comparisons of f64 are parameters; an f64 is a value of their type.
pub mod Meaning
use ferres_db.Base.{
  ℕ, Bool, true, false, not, ◌&&◌, Option, none, some, List, [], ◌∷◌, ◌++◌, any, is_empty, is_some,
  if◌then◌else◌,
}
use ferres_db.Base.Text.{Text, text, text_eq}
use ferres_db.Error.{
  Result, ok, err, ok_or, ◌>>=◌, invalid_vector, filter_not_object, filter_namespace,
  filter_operand, filter_operator,
}
use ferres_db.Point.{Point, Vector}
use ferres_db.Engine.{Env, VectorDb}
use ferres_db.Engine.Query.{SearchResult, search_with_filter}

-- `serde_json::Value`. `as_integer` is `as_i64` and then `as f64`.
pub record Values : Type 1 where
  pub Value : Type 0
  pub F64 : Type 0
  pub get : Text → Value → Option Value
  pub same : Value → Value → Bool
  pub is_null : Value → Bool
  pub as_object : Value → Option (List (Text × Value))
  pub as_str : Value → Option Text
  pub as_array : Value → Option (List Value)
  pub as_f64 : Value → Option F64
  pub as_integer : Value → Option F64
  pub greater : F64 → F64 → Bool
  pub less : F64 → F64 → Bool
  pub greater_eq : F64 → F64 → Bool
  pub less_eq : F64 → F64 → Bool
  pub value_of : Text → Value

module _ (j : Values) where
  pub data MetadataCondition : Type 0 where
    eq ne : Text → j.Value → MetadataCondition
    is_in : Text → List j.Value → MetadataCondition
    gt lt gte lte : Text → j.F64 → MetadataCondition

  -- `metadata.get(key) == Some(expected)`.
  abbrev pub equals : Option j.Value → j.Value → Bool
  equals none expected = false
  equals (some v) expected = j.same v expected

  abbrev pub contained : Option j.Value → List j.Value → Bool
  contained none values = false
  contained (some v) values = any (λ x. j.same x v) values

  abbrev pub number_is : (j.F64 → j.F64 → Bool) → Option j.F64 → j.F64 → Bool
  number_is test none threshold = false
  number_is test (some n) threshold = test n threshold

  abbrev pub number_at : Option j.Value → Option j.F64
  number_at none = none
  number_at (some v) = j.as_f64 v

  unfoldable pub condition_matches : j.Value → MetadataCondition → Bool
  condition_matches metadata (eq key v) = equals (j.get key metadata) v
  condition_matches metadata (ne key v) = not (equals (j.get key metadata) v)
  condition_matches metadata (is_in key vs) = contained (j.get key metadata) vs
  condition_matches metadata (gt key n) = number_is j.greater (number_at (j.get key metadata)) n
  condition_matches metadata (lt key n) = number_is j.less (number_at (j.get key metadata)) n
  condition_matches metadata (gte key n) = number_is j.greater_eq (number_at (j.get key metadata)) n
  condition_matches metadata (lte key n) = number_is j.less_eq (number_at (j.get key metadata)) n

  pub record MetadataFilter : Type 0 where
    pub conditions : List MetadataCondition
    pub namespace : Option Text

  abbrev pub empty : MetadataFilter
  empty = record { conditions = []; namespace = none }

  -- `MetadataFilter::as_f64`.
  abbrev pub or_integer : Option j.F64 → Option j.F64 → Option j.F64
  or_integer none i = i
  or_integer (some n) i = some n

  abbrev pub filter_f64 : j.Value → Option j.F64
  filter_f64 v = or_integer (j.as_f64 v) (j.as_integer v)

  abbrev pub with_operand {ℓ} :
      {A : Type ℓ} → Option A → (A → MetadataCondition) → Result MetadataCondition
  with_operand none make = err (invalid_vector filter_operand)
  with_operand (some a) make = ok (make a)

  unfoldable pub parse_op : Text → Text → j.Value → Result MetadataCondition
  unfolding text_eq
  parse_op field op v =
      if text_eq op (text "$eq")
      then ok (eq field v)
      else if text_eq op (text "$ne")
      then ok (ne field v)
      else if text_eq op (text "$in")
      then with_operand (j.as_array v) (is_in field)
      else if text_eq op (text "$gt")
      then with_operand (filter_f64 v) (gt field)
      else if text_eq op (text "$lt")
      then with_operand (filter_f64 v) (lt field)
      else if text_eq op (text "$gte")
      then with_operand (filter_f64 v) (gte field)
      else if text_eq op (text "$lte")
      then with_operand (filter_f64 v) (lte field)
      else err (invalid_vector filter_operator)

  unfoldable pub parse_ops :
      Text → List (Text × j.Value) → List MetadataCondition → Result (List MetadataCondition)
  unfolding parse_op
  parse_ops field [] out = ok out
  parse_ops field ((op, v) ∷ ops) out =
      parse_op field op v >>= λ c. parse_ops field ops (out ++ c ∷ [])

  -- A value that is no object is an equality.
  abbrev pub parse_value :
      Text
      → j.Value
      → Option (List (Text × j.Value))
      → List MetadataCondition
      → Result (List MetadataCondition)
  parse_value field value none out = ok (out ++ eq field value ∷ [])
  parse_value field value (some ops) out = parse_ops field ops out

  unfoldable pub parse_field_conditions :
      Text → j.Value → List MetadataCondition → Result (List MetadataCondition)
  unfolding parse_ops
  parse_field_conditions field value out = parse_value field value (j.as_object value) out

  -- The loop of `from_json`.
  unfoldable pub parse_entries : List (Text × j.Value) → MetadataFilter → Result MetadataFilter
  unfolding parse_field_conditions text_eq
  parse_entries [] f = ok f
  parse_entries ((key, value) ∷ entries) f =
      if text_eq key (text "$namespace")
      then (ok_or (j.as_str value) (invalid_vector filter_namespace) >>= λ ns.
          parse_entries entries (record f { namespace = some ns }))
      else parse_field_conditions key value f.conditions >>= λ cs.
          parse_entries entries (record f { conditions = cs })

  abbrev pub parse_whole : Bool → Option (List (Text × j.Value)) → Result MetadataFilter
  parse_whole null (some entries) = parse_entries entries empty
  parse_whole true none = ok empty
  parse_whole false none = err (invalid_vector filter_not_object)

  unfoldable pub from_json : j.Value → Result MetadataFilter
  unfolding parse_entries
  from_json value = parse_whole (j.is_null value) (j.as_object value)

  abbrev pub filter_is_empty : MetadataFilter → Bool
  filter_is_empty f = is_empty f.conditions && not (is_some f.namespace)

  unfoldable pub all_match : j.Value → List MetadataCondition → Bool
  unfolding condition_matches
  all_match metadata [] = true
  all_match metadata (c ∷ cs) = condition_matches metadata c && all_match metadata cs

  unfoldable pub matches : MetadataFilter → j.Value → Bool
  unfolding all_match
  matches f metadata = if is_empty f.conditions then true else all_match metadata f.conditions

  abbrev pub is_namespace : Option Text → Text → Bool
  is_namespace none ns = false
  is_namespace (some n) ns = text_eq n ns

  abbrev pub fits_namespace : Option Text → Option Text → Bool
  fits_namespace none n = true
  fits_namespace (some ns) n = is_namespace n ns

  unfoldable pub matches_point : MetadataFilter → Point → Bool
  unfolding matches
  matches_point f p = fits_namespace f.namespace p.namespace && matches f (j.value_of p.metadata)

  abbrev pub predicate_of : MetadataFilter → Option (Point → Bool)
  predicate_of f = if filter_is_empty f then none else some (matches_point f)

  -- The search of the engine with a filter; no filter is the empty one.
  unfoldable pub search_with_metadata_filter :
      (env : Env)
      → ℕ
      → Text
      → Vector
      → ℕ
      → Option MetadataFilter
      → VectorDb env
      → Result (List SearchResult) × VectorDb env
  unfolding search_with_filter matches_point
  search_with_metadata_filter env now name query limit none db =
      search_with_filter env now name query limit none db
  search_with_metadata_filter env now name query limit (some f) db =
      search_with_filter env now name query limit (predicate_of f) db
