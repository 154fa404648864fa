-- ===== src/Engine/Filter/Meaning.antt =====
-- What a parsed filter accepts, against an evaluation of its JSON object that parses nothing.
use ferres_db.Base.{
  ◌≡◌, refl, sym, ap, ◌∙◌, subst, ◌⊎◌, Bool, true, false, not, ◌&&◌, Option, none, some, List, [],
  ◌∷◌, ◌++◌, is_empty, if◌then◌else◌, inl, inr, Bool-cases,
}
use ferres_db.Base.Text.{Text, text, text_eq, text_eq_iff}
use ferres_db.Base.Dict
use ferres_db.Error.{Result, ok, err, ok_or, ◌>>=◌, invalid_vector, filter_namespace}
use ferres_db.Point.{Point}
use ferres_db.Engine.Filter.{
  Values, MetadataCondition, eq, is_in, gt, lt, gte, lte, MetadataFilter, equals, contained,
  number_is, number_at, filter_f64, with_operand, parse_op, parse_ops, parse_value,
  parse_field_conditions, parse_entries, parse_whole, from_json, condition_matches, all_match,
  matches, fits_namespace, matches_point, empty,
}

-- Both, where both are given.
abbrev pub both : Option Bool → Option Bool → Option Bool
both none y = none
both (some x) none = none
both (some x) (some y) = some (x && y)

module _ (j : Values) where
  abbrev pub tested : (j.F64 → j.F64 → Bool) → Option j.Value → Option j.F64 → Option Bool
  tested test actual none = none
  tested test actual (some n) = some (number_is j test (number_at j actual) n)

  abbrev pub listed : Option j.Value → Option (List j.Value) → Option Bool
  listed actual none = none
  listed actual (some vs) = some (contained j actual vs)

  -- Whether the value of a field passes an operator; none for an operator that is not valid.
  abbrev pub says_op : Option j.Value → Text → j.Value → Option Bool
  says_op actual op v =
      if text_eq op (text "$eq")
      then some (equals j actual v)
      else if text_eq op (text "$ne")
      then some (not (equals j actual v))
      else if text_eq op (text "$in")
      then listed actual (j.as_array v)
      else if text_eq op (text "$gt")
      then tested j.greater actual (filter_f64 j v)
      else if text_eq op (text "$lt")
      then tested j.less actual (filter_f64 j v)
      else if text_eq op (text "$gte")
      then tested j.greater_eq actual (filter_f64 j v)
      else if text_eq op (text "$lte")
      then tested j.less_eq actual (filter_f64 j v)
      else none

  abbrev pub says_ops : Option j.Value → List (Text × j.Value) → Option Bool
  says_ops actual [] = some true
  says_ops actual ((op, v) ∷ ops) = both (says_op actual op v) (says_ops actual ops)

  abbrev pub says_field : Option j.Value → j.Value → Option (List (Text × j.Value)) → Option Bool
  says_field actual v none = some (equals j actual v)
  says_field actual v (some ops) = says_ops actual ops

  abbrev pub says_namespace : Option Text → Option Text → Option Bool
  says_namespace n none = none
  says_namespace n (some ns) = some (fits_namespace j (some ns) n)

  -- Whether a point passes all entries of a filter object.
  abbrev pub says : Point → List (Text × j.Value) → Option Bool
  says p [] = some true
  says p ((key, v) ∷ entries) =
      both
        (if text_eq key (text "$namespace")
          then says_namespace p.namespace (j.as_str v)
          else says_field (j.get key (j.value_of p.metadata)) v (j.as_object v))
        (says p entries)

  -- What the code says of a point.
  abbrev pub verdict : Result (MetadataFilter j) → Point → Option Bool
  verdict (err e) p = none
  verdict (ok f) p = some (matches_point j f p)

  abbrev all_verdict : Result (List (MetadataCondition j)) → j.Value → Option Bool
  all_verdict (err e) m = none
  all_verdict (ok cs) m = some (all_match j m cs)

  abbrev one_verdict : Result (MetadataCondition j) → j.Value → Option Bool
  one_verdict (err e) m = none
  one_verdict (ok c) m = some (condition_matches j m c)

  and_assoc : (x y z : Bool) → ((x && y) && z) ≡ (x && (y && z))
  and_assoc true y z = refl
  and_assoc false y z = refl

  both_assoc : (x y z : Option Bool) → both (both x y) z ≡ both x (both y z)
  both_assoc none y z = refl
  both_assoc (some x) none z = refl
  both_assoc (some x) (some y) none = refl
  both_assoc (some x) (some y) (some z) = ap (λ b. some b) (and_assoc x y z)

  and_true : (x : Bool) → x ≡ (x && true)
  and_true true = refl
  and_true false = refl

  all_match-append :
      (m : j.Value) (cs ds : List (MetadataCondition j))
      → all_match j m (cs ++ ds) ≡ (all_match j m cs && all_match j m ds)
  unfolding all_match
  all_match-append m [] ds = refl
  all_match-append m (c ∷ cs) ds =
      ap (λ b. condition_matches j m c && b) (all_match-append m cs ds)
      ∙ sym (and_assoc (condition_matches j m c) (all_match j m cs) (all_match j m ds))

  number_verdict :
      (m : j.Value) (field : Text) (o : Option j.F64) (test : j.F64 → j.F64 → Bool)
      (make : j.F64 → MetadataCondition j)
      → ((n : j.F64)
          → condition_matches j m (make n) ≡ number_is j test (number_at j (j.get field m)) n)
      → one_verdict (with_operand j o make) m ≡ tested test (j.get field m) o
  number_verdict m field none test make h = refl
  number_verdict m field (some n) test make h = ap (λ b. some b) (h n)

  list_verdict :
      (m : j.Value) (field : Text) (o : Option (List j.Value))
      → one_verdict (with_operand j o (is_in field)) m ≡ listed (j.get field m) o
  unfolding condition_matches
  list_verdict m field none = refl
  list_verdict m field (some vs) = refl

  all_match-snoc :
      (m : j.Value) (cs : List (MetadataCondition j)) (c : MetadataCondition j)
      → all_match j m (cs ++ c ∷ []) ≡ (all_match j m cs && condition_matches j m c)
  unfolding all_match
  all_match-snoc m cs c =
      all_match-append m cs (c ∷ [])
      ∙ ap (λ b. all_match j m cs && b) (sym (and_true (condition_matches j m c)))

  op_verdict :
      (m : j.Value) (field op : Text) (v : j.Value)
      → one_verdict (parse_op j field op v) m ≡ says_op (j.get field m) op v
  unfolding parse_op condition_matches
  op_verdict m field op v =
      let number = number_verdict m field (filter_f64 j v) in
      (elim (Bool-cases (text_eq op (text "$eq"))) [
        | inl is ↦ rw is (refl)
        | inr other ↦ rw other (elim (Bool-cases (text_eq op (text "$ne"))) [
          | inl is ↦ rw is (refl)
          | inr other ↦ rw other (elim (Bool-cases (text_eq op (text "$in"))) [
            | inl is ↦ rw is (list_verdict m field (j.as_array v))
            | inr other ↦ rw other (elim (Bool-cases (text_eq op (text "$gt"))) [
              | inl is ↦ rw is (number j.greater (gt field) (λ n. refl))
              | inr other ↦ rw other (elim (Bool-cases (text_eq op (text "$lt"))) [
                | inl is ↦ rw is (number j.less (lt field) (λ n. refl))
                | inr other ↦ rw other (elim (Bool-cases (text_eq op (text "$gte"))) [
                  | inl is ↦ rw is (number j.greater_eq (gte field) (λ n. refl))
                  | inr other ↦ rw other (elim (Bool-cases (text_eq op (text "$lte"))) [
                    | inl is ↦ rw is (number j.less_eq (lte field) (λ n. refl))
                    | inr other ↦ rw other refl
                  ])
                ])
              ])
            ])
          ])
        ])
      ])

  ops_verdict :
      (m : j.Value) (field : Text) (ops : List (Text × j.Value)) (out : List (MetadataCondition j))
      → all_verdict (parse_ops j field ops out) m
        ≡ both (some (all_match j m out)) (says_ops (j.get field m) ops)
  unfolding parse_ops all_match
  ops_verdict m field [] out = ap (λ b. some b) (and_true (all_match j m out))
  ops_verdict m field ((op, v) ∷ ops) out =
      go (parse_op j field op v) (op_verdict m field op v)
        (λ c. ops_verdict m field ops (out ++ c ∷ []))
    where
      go :
          (r : Result (MetadataCondition j))
          → one_verdict r m ≡ says_op (j.get field m) op v
          → ((c : MetadataCondition j)
              → all_verdict (parse_ops j field ops (out ++ c ∷ [])) m
                ≡ both (some (all_match j m (out ++ c ∷ []))) (says_ops (j.get field m) ops))
          → all_verdict (r >>= λ c. parse_ops j field ops (out ++ c ∷ [])) m
            ≡ both (some (all_match j m out)) (says_ops (j.get field m) ((op, v) ∷ ops))
      go (err e) h more = rw (← h) refl
      go (ok c) h more =
          more c
          ∙ ap (λ b. both (some b) (says_ops (j.get field m) ops)) (all_match-snoc m out c)
          ∙ both_assoc (some (all_match j m out)) (some (condition_matches j m c))
              (says_ops (j.get field m) ops)
          ∙ ap (λ o. both (some (all_match j m out)) (both o (says_ops (j.get field m) ops))) h

  field_verdict :
      (m : j.Value) (field : Text) (v : j.Value) (out : List (MetadataCondition j))
      → all_verdict (parse_field_conditions j field v out) m
        ≡ both (some (all_match j m out)) (says_field (j.get field m) v (j.as_object v))
  unfolding parse_field_conditions condition_matches
  field_verdict m field v out = go (j.as_object v)
    where
      go :
          (o : Option (List (Text × j.Value)))
          → all_verdict (parse_value j field v o out) m
            ≡ both (some (all_match j m out)) (says_field (j.get field m) v o)
      go none = ap (λ b. some b) (all_match-snoc m out (eq field v))
      go (some ops) = ops_verdict m field ops out

  matches-all : (f : MetadataFilter j) (m : j.Value) → matches j f m ≡ all_match j m f.conditions
  unfolding matches all_match
  matches-all f m = go f.conditions
    where
      go :
          (cs : List (MetadataCondition j))
          → (if is_empty cs then true else all_match j m cs) ≡ all_match j m cs
      go [] = refl
      go (c ∷ cs) = refl

  and_comm : (x y : Bool) → (x && y) ≡ (y && x)
  and_comm true true = refl
  and_comm true false = refl
  and_comm false true = refl
  and_comm false false = refl

  -- The parts of a verdict: the namespace, the conditions so far, and what is still to parse.
  abbrev parts : MetadataFilter j → Point → Option Bool → Option Bool
  parts f p rest =
      both (some (fits_namespace j f.namespace p.namespace))
        (both (some (all_match j (j.value_of p.metadata) f.conditions)) rest)

  both-true : (x : Option Bool) → both (some true) x ≡ x
  both-true none = refl
  both-true (some b) = refl

  -- The step over an entry of a field.
  field_parts :
      (p : Point) (entries : List (Text × j.Value)) (f : MetadataFilter j) (z said : Option Bool)
      (r : Result (List (MetadataCondition j)))
      → all_verdict r (j.value_of p.metadata)
        ≡ both (some (all_match j (j.value_of p.metadata) f.conditions)) said
      → ((cs : List (MetadataCondition j))
          → verdict (parse_entries j entries (record f { conditions = cs })) p
            ≡ parts (record f { conditions = cs }) p z)
      → verdict (r >>= λ cs. parse_entries j entries (record f { conditions = cs })) p
        ≡ parts f p (both said z)
  field_parts p entries f z said r h more =
      behind r more
      ∙ ap (λ o. both (some (fits_namespace j f.namespace p.namespace)) (both o z)) h
      ∙ ap (both (some (fits_namespace j f.namespace p.namespace)))
          (both_assoc (some (all_match j (j.value_of p.metadata) f.conditions)) said z)
    where
      behind :
          (r : Result (List (MetadataCondition j)))
          → ((cs : List (MetadataCondition j))
              → verdict (parse_entries j entries (record f { conditions = cs })) p
                ≡ parts (record f { conditions = cs }) p z)
          → verdict (r >>= λ cs. parse_entries j entries (record f { conditions = cs })) p
            ≡ both
                (some (fits_namespace j f.namespace p.namespace))
                (both (all_verdict r (j.value_of p.metadata)) z)
      behind (err e) more = refl
      behind (ok cs) more = more cs

  -- The step over the namespace, which was not set before.
  namespace_parts :
      (p : Point) (entries : List (Text × j.Value)) (f : MetadataFilter j) (z : Option Bool)
      (o : Option Text)
      → f.namespace ≡ none
      → ((ns : Text)
          → verdict (parse_entries j entries (record f { namespace = some ns })) p
            ≡ parts (record f { namespace = some ns }) p z)
      → verdict
          (ok_or o (invalid_vector filter_namespace) >>= λ ns.
            parse_entries j entries (record f { namespace = some ns }))
          p
        ≡ parts f p (both (says_namespace p.namespace o) z)
  namespace_parts p entries f z none unset more = refl
  namespace_parts p entries f z (some ns) unset more =
      let all : Bool = all_match j (j.value_of p.metadata) f.conditions in
      let fits : Bool = fits_namespace j (some ns) p.namespace in
      more ns
      ∙ sym (both_assoc (some fits) (some all) z)
      ∙ ap (λ b. both (some b) z) (and_comm fits all)
      ∙ both_assoc (some all) (some fits) z
      ∙ sym (both-true (both (some all) (both (some fits) z)))
      ∙ ap
          (λ n. both (some (fits_namespace j n p.namespace)) (both (some all) (both (some fits) z)))
          (sym unset)

  entries_verdict :
      (p : Point) (entries : List (Text × j.Value)) (f : MetadataFilter j)
      → (f.namespace ≡ none) ⊎ (Dict.get (text "$namespace") entries ≡ none)
      → Dict.IsDistinct entries
      → verdict (parse_entries j entries f) p ≡ parts f p (says p entries)
  unfolding parse_entries matches_point Dict.get
  entries_verdict p [] f open_f distinct =
      ap (λ b. some (fits_namespace j f.namespace p.namespace && b))
        (matches-all f (j.value_of p.metadata) ∙ and_true _)
  entries_verdict p ((key, v) ∷ entries) f open_f (fresh, distinct) =
      elim (Bool-cases (text_eq key (text "$namespace"))) [
        | inl is ↦ rw is (
            namespace_parts p entries f (says p entries) (j.as_str v)
              (elim open_f [
                | inl unset ↦ unset
                | inr absent ↦ absurd (let h = rw is at absent in cc)
              ])
              (λ ns.
                entries_verdict p entries (record f { namespace = some ns })
                  (inr (
                    subst (λ k. Dict.get k entries ≡ none)
                      ((text_eq_iff key (text "$namespace")).0 is) fresh))
                  distinct))
        | inr other ↦ rw other (
            field_parts p entries f (says p entries)
              (says_field (j.get key (j.value_of p.metadata)) v (j.as_object v))
              (parse_field_conditions j key v f.conditions)
              (field_verdict (j.value_of p.metadata) key v f.conditions)
              (λ cs.
                entries_verdict p entries (record f { conditions = cs })
                  (elim open_f [ inl unset ↦ inl unset | inr absent ↦ inr (rw other at absent) ])
                  distinct))
      ]

  -- A filter that is a JSON object is parsed exactly when each of its entries is valid, and then it
  -- accepts exactly the points that pass every operator of every field, read off the object, and
  -- the namespace, where there is one.
  pub from_json-says :
      (p : Point) (value : j.Value) (entries : List (Text × j.Value))
      → j.as_object value ≡ some entries
      → Dict.IsDistinct entries
      → verdict (from_json j value) p ≡ says p entries
  unfolding from_json all_match
  from_json-says p value entries is distinct =
      ap (λ o. verdict (parse_whole j (j.is_null value) o) p) is
      ∙ entries_verdict p entries (empty j) (inl refl) distinct
      ∙ both-true _
      ∙ both-true (says p entries)
