-- ===== src/Examples/Services.antt =====
-- The index, the circuit breaker, the permissions and the delta of a rebuild, at small inputs.
use ferres_db.Base.{
  ℕ, ◌+◌, ◌≡◌, ◌≤◌, refl, Bool, true, false, ◌||◌, none, some, List, [], ◌∷◌, arith, length, All,
  if◌then◌else◌, inl, inr, Bool-cases, zero, suc, take,
}
use ferres_db.Base.Text.{text, text_eq}
use ferres_db.Base.Dict
use ferres_db.Base.Dict.{Dict, contains_key}
use ferres_db.Error.{Result, ok, err, storage, wal_write}
use ferres_db.Point.{Point, storage_id}
use ferres_db.Backend.{euclidean, Hit}
use ferres_db.Collection.{validate_vector_finite}
use ferres_db.Point.{is_finite}
use ferres_db.Breaker.{Breaker, cb_closed, cb_open, call, with_config}
use ferres_db.Breaker.Laws.{IsValid, with_config-IsValid, call-IsValid}
use ferres_db.Hnsw
use ferres_db.Hnsw.{
  Graph, HnswIndex, search, remove_point, add_all, add_point, named_live, prepare_vector,
}
use ferres_db.Hnsw.Live.{IsFiltering, IsLive, predicate_of, search-IsLive}
use ferres_db.Hnsw.Readded.{search-readded}
use ferres_db.Access.{
  AuthUser, editor, check_user_permission, Permission, collection, read, write, is_allowed,
  check_permission, allowed, is_admin, first_fit, action_eq, matches_resource,
}
use ferres_db.Access.Grants.{may, check_user_permission-is_allowed}
use ferres_db.Examples.Instances.{point}

abbrev dotted : Point
dotted = record (point (text "x") none) { namespace = some (text "n") }

abbrev failing : ℕ → Result ℕ × ℕ
failing n = (err (storage wal_write), n + 1)

call-IsValid_example : IsValid (call 10 11 failing (with_config 5 60) 0).1
unfolding with_config
call-IsValid_example =
    call-IsValid 10 11 failing (with_config 5 60) 0 (omega arith)
      (with_config-IsValid 5 60 (omega arith))

abbrev opened : Breaker
opened = record {
  failure_count = 5;
  last_failure = 100;
  state = cb_open;
  failure_threshold = 5;
  reset_timeout_secs = 60;
}

abbrev closed : Breaker
closed = record opened { failure_count = 3; state = cb_closed }

-- A graph that finds its points in the order of their insertion.
abbrev count_up : ℕ → ℕ → List (ℕ × ℕ)
count_up zero i = []
count_up (suc n) i = (i, 0) ∷ count_up n (i + 1)

abbrev keep_pairs : (ℕ → Bool) → List (ℕ × ℕ) → List (ℕ × ℕ)
keep_pairs f [] = []
keep_pairs f (n ∷ ns) = if f n.0 then n ∷ keep_pairs f ns else keep_pairs f ns

abbrev graph : Graph
graph = record {
  Inner = ℕ;
  create = λ m. 0;
  insert_data = λ v n i. i + 1;
  search = λ q k ef i. take k (count_up i 0);
  search_filter = λ q k ef f i. take k (keep_pairs f (count_up i 0));
  normalize_vector = λ v. ok v;
}

take_kept :
    (f : ℕ → Bool) (k : ℕ) (ns : List (ℕ × ℕ))
    → All (λ n. f n.0 ≡ true) (take k (keep_pairs f ns)) × (length (take k (keep_pairs f ns)) ≤ k)
take_kept f zero ns = (tt, omega arith)
take_kept f (suc k) [] = (tt, omega arith)
take_kept f (suc k) (n ∷ ns) = elim (Bool-cases (f n.0)) [
  | inl fits ↦ rw fits ((fits, (take_kept f k ns).0), omega (arith, (take_kept f k ns).1))
  | inr other ↦ rw other (take_kept f (suc k) ns)
]

graph-IsFiltering : IsFiltering graph
graph-IsFiltering = record {
  filtered = λ q k ef f i. (take_kept f k (count_up i 0)).0;
  bounded = λ q k ef f i. (take_kept f k (count_up i 0)).1;
}

abbrev two_points : HnswIndex graph
two_points = record {
  inner = 2;
  id_map = text "a" ∷ text "b" ∷ [];
  reverse_map = (text "a", 0) ∷ (text "b", 1) ∷ [];
  tombstones = text "b" ∷ [];
  distance = euclidean;
  ef_search_runtime = 50;
}

found : search graph (1 ∷ 2 ∷ []) 2 none two_points ≡ ok ((text "a", 0) ∷ [])
unfolding search prepare_vector named_live validate_vector_finite is_finite text_eq Hnsw.get_elem?
found = refl

search-IsLive_example :
    All (IsLive graph two_points (predicate_of none)) ((text "a", 0) ∷ []) × (1 ≤ 2)
search-IsLive_example =
    search-IsLive graph two_points (1 ∷ 2 ∷ []) 2 none ((text "a", 0) ∷ []) graph-IsFiltering found

a_known : contains_key (text "a") two_points.reverse_map ≡ true
unfolding Dict.get text_eq
a_known = refl

found_nothing :
    search graph
      (1 ∷ 2 ∷ [])
      2
      none
      (add_all graph (point (text "a") none ∷ []) (remove_point graph (text "a") two_points)).1
    ≡ ok []
unfolding search prepare_vector named_live validate_vector_finite is_finite text_eq Hnsw.get_elem?
    add_all add_point remove_point Dict.get Dict.insert storage_id
found_nothing = refl

search-readded_example : All (λ (hit : Hit). text_eq (hit.0) (text "a") ≡ false) []
search-readded_example =
    search-readded graph two_points (text "a") (point (text "a") none ∷ []) (1 ∷ 2 ∷ []) 2 none []
      graph-IsFiltering a_known found_nothing

abbrev reader : Permission
reader = record {
  resource = collection (text "docs");
  actions = read ∷ [];
  metadata_restriction = none;
}

abbrev user : AuthUser
user = record {
  username = text "u";
  role = editor;
  permissions = some (reader ∷ []);
  namespace_allowance = none;
}

check_user_permission-is_allowed_example :
    is_allowed (check_user_permission user (text "docs") write)
    ≡ is_admin editor || may user (text "docs") write
check_user_permission-is_allowed_example = check_user_permission-is_allowed user (text "docs") write

read_docs : check_permission (reader ∷ []) (text "docs") read ≡ allowed
unfolding check_permission first_fit action_eq matches_resource text_eq
read_docs = refl
