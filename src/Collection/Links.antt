-- ===== src/Collection/Links.antt =====
-- The relations between the points of a collection, and the dirty flag.
use ferres_db.Base.{
  ℕ, ◌+◌, ◌*◌, ◌/◌, ◌≤◌, ◌≡◌, refl, ap, ◌∙◌, Bool, true, false, ◌||◌, Option, none, some, List, [],
  ◌∷◌, ◌++◌, arith, if◌then◌else◌, any, max, min,
}
use ferres_db.Base.Text.{Text, text_eq, text_eq_iff, text_eq_refl}
use ferres_db.Base.Dict
use ferres_db.Base.Dict.{Dict, get-insert}
use ferres_db.Error.{Result, is_ok}
use ferres_db.Point.{Point}
use ferres_db.Backend.{Backend}
use ferres_db.Collection.{
  Collection, touched, add_relation, put_relations, ensure_contains, push_new,
}
use ferres_db.Collection.Keyed.{LinkOutcome, refused, linked, add_relation-LinkOutcome}
use ferres_db.Collection.Sweep.{tuned_ef}

-- The test whether a point is related to an id.
abbrev pub related : Text → Option (List Text) → Bool
related id none = false
related id (some list) = any (λ r. text_eq r id) list

any-append_one : (id : Text) (list : List Text) → any (λ r. text_eq r id) (list ++ id ∷ []) ≡ true
any-append_one id [] = ground (arith, text_eq_refl id)
any-append_one id (x ∷ list) = ground (arith, any-append_one id list)

any-append_other :
    (id k : Text) (list : List Text)
    → any (λ r. text_eq r k) list ≡ true
    → any (λ r. text_eq r k) (list ++ id ∷ []) ≡ true
any-append_other id k [] h = ground arith
any-append_other id k (x ∷ list) h = ground (arith, any-append_other id k list)

ensure_contains-related :
    (id : Text) (rs : Option (List Text)) → related id (some (ensure_contains id rs)) ≡ true
unfolding ensure_contains
ensure_contains-related id none = ground (arith, text_eq_refl id)
ensure_contains-related id (some list) = ground (arith, any-append_one id list)

push_new-related :
    (id : Text) (list : List Text) → any (λ r. text_eq r id) (push_new id list) ≡ true
push_new-related id list = ground (arith, any-append_one id list)

push_new_known :
    (id : Text) (list : List Text) → any (λ r. text_eq r id) list ≡ true → push_new id list ≡ list
push_new_known id list h = rw h refl

-- Linking a second time adds nothing.
pub ensure_contains-again :
    (id : Text) (rs : Option (List Text))
    → ensure_contains id (some (ensure_contains id rs)) ≡ ensure_contains id rs
unfolding ensure_contains
ensure_contains-again id none = push_new_known id (push_new id []) (push_new-related id [])
ensure_contains-again id (some list) =
    push_new_known id (push_new id list) (push_new-related id list)

abbrev pub relations_of : Option Point → Option (List Text)
relations_of none = none
relations_of (some p) = p.relations

unchanged :
    (f t : Bool) (x y z : Option Point)
    → (if f || t then z else (if t then x else if f then y else z)) ≡ z
unchanged true t x y z = refl
unchanged false true x y z = refl
unchanged false false x y z = refl

not_back : (s t : Text) → text_eq s t ≡ false → text_eq t s ≡ false
not_back s t h = ground (arith, text_eq_iff s t, text_eq_iff t s)

module _ (b : Backend) where
  get-put_relations :
      (from : Text) (p : Point) (to : Text) (q : Point) (k : Text) (c : Collection b)
      → Dict.get k (touched b (put_relations b from p to q c)).points ≡ (
          if text_eq to k
          then some (record q { relations = some (ensure_contains from q.relations) })
          else if text_eq from k
          then some (record p { relations = some (ensure_contains to p.relations) })
          else Dict.get k c.points)
  unfolding put_relations touched
  get-put_relations from p to q k c =
      get-insert to k (record q { relations = some (ensure_contains from q.relations) })
        (Dict.insert from (record p { relations = some (ensure_contains to p.relations) }) c.points)
      ∙ ap
          (λ o.
            if text_eq to k
            then some (record q { relations = some (ensure_contains from q.relations) })
            else o)
          (get-insert from k (record p { relations = some (ensure_contains to p.relations) })
            c.points)

  LinkOutcome-related :
      (from to k : Text) (c : Collection b) (r : Result (Unit {0}) × Collection b)
      → LinkOutcome b from to c r
      → is_ok (r.0) ≡ true
      → (related to (relations_of (Dict.get from r.1.points)) ≡ true)
        × (related from (relations_of (Dict.get to r.1.points)) ≡ true)
        × ((if text_eq from k || text_eq to k then Dict.get k c.points else Dict.get k r.1.points)
            ≡ Dict.get k c.points)
  LinkOutcome-related from to k c r (refused e h) fine =
      absurd (ground (arith, ap (λ x. is_ok (x.0)) h))
  LinkOutcome-related from to k c r (linked p q other hp hq h) fine = rw h (
    rw (get-put_relations from p to q from c, not_back from to other, text_eq_refl from)
        (ensure_contains-related to p.relations),
    rw (get-put_relations from p to q to c, text_eq_refl to)
        (ensure_contains-related from q.relations),
    rw (get-put_relations from p to q k c)
        (unchanged (text_eq from k) (text_eq to k) _ _ (Dict.get k c.points)),
  )

  -- A link that succeeds relates both points to each other, and leaves every other point as it was.
  pub add_relation-related :
      (from to k : Text) (c : Collection b)
      → is_ok (add_relation b from to c).0 ≡ true
      → (related to (relations_of (Dict.get from (add_relation b from to c).1.points)) ≡ true)
        × (related from (relations_of (Dict.get to (add_relation b from to c).1.points)) ≡ true)
        × ((if text_eq from k || text_eq to k
              then Dict.get k c.points
              else Dict.get k (add_relation b from to c).1.points)
            ≡ Dict.get k c.points)
  add_relation-related from to k c fine =
      LinkOutcome-related from to k c (add_relation b from to c)
        (add_relation-LinkOutcome b from to c) fine

-- From a value in the range that the configuration gives, the auto-tuning moves by 10 at most and
-- stays in the range.
pub tuned_ef_range :
    (base current : ℕ) (low high recall : Bool)
    → max (base / 2) 10 ≤ current
    → current ≤ min (base * 2) 200
    → (tuned_ef base current low high recall ≤ current + 10)
      × (current ≤ tuned_ef base current low high recall + 10)
      × (max (base / 2) 10 ≤ tuned_ef base current low high recall)
      × (tuned_ef base current low high recall ≤ min (base * 2) 200)
unfolding tuned_ef
tuned_ef_range base current low high recall above below = ground arith
