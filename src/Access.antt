-- ===== src/Access.antt =====
-- Permissions (crates/server/src/permissions.rs) and the checks of a user (crates/server/src/auth.rs).
-- The texts of refusals are left out, and a JSON value is carried as its text.
pub mod Grants
use ferres_db.Base.{
  ℕ, Bool, true, false, not, ◌&&◌, ◌||◌, Option, none, some, List, [], ◌∷◌, ◌++◌, any, is_empty,
  leb, if◌then◌else◌,
}
use ferres_db.Base.Text.{Text, text, text_eq}
use ferres_db.Base.Dict
use ferres_db.Base.Dict.{Dict}

pub data Resource : Type 0 where
  all_collections : Resource
  collection : Text → Resource

pub data Action : Type 0 where
  read write create delete admin : Action

pub data NamespaceAllowance : Type 0 where
  all : NamespaceAllowance
  only : List Text → NamespaceAllowance

pub record MetadataRestriction : Type 0 where
  pub field : Text
  pub allowed_values : List Text

pub record Permission : Type 0 where
  pub resource : Resource
  pub actions : List Action
  pub metadata_restriction : Option MetadataRestriction

pub data PermissionResult : Type 0 where
  allowed denied : PermissionResult
  allowed_with_restriction : MetadataRestriction → PermissionResult

unfoldable pub is_allowed : PermissionResult → Bool
is_allowed denied = false
is_allowed _ = true

-- A request without a namespace is not restricted.
unfoldable pub allows : NamespaceAllowance → Option Text → Bool
allows all requested = true
allows (only list) none = true
allows (only list) (some ns) = any (λ n. text_eq n ns) list

unfoldable pub action_eq : Action → Action → Bool
action_eq read read = true
action_eq write write = true
action_eq create create = true
action_eq delete delete = true
action_eq admin admin = true
action_eq _ _ = false

abbrev pub contains_action : Action → List Action → Bool
contains_action action actions = any (λ a. action_eq a action) actions

unfoldable pub matches_resource : Text → Resource → Bool
matches_resource resource all_collections = false
matches_resource resource (collection name) =
    text_eq name resource || text_eq resource (text "collection:" ++ name)

unfoldable pub is_wildcard : Resource → Bool
is_wildcard all_collections = true
is_wildcard (collection name) = false

abbrev pub restricted : Option MetadataRestriction → PermissionResult
restricted none = allowed
restricted (some r) = allowed_with_restriction r

-- A loop over the permissions: the result of the first whose resource and actions fit.
unfoldable pub first_fit : (Resource → Bool) → Action → List Permission → Option PermissionResult
unfolding action_eq
first_fit fits action [] = none
first_fit fits action (p ∷ ps) =
    let later = first_fit fits action ps in
    if fits p.resource && contains_action action p.actions
    then some (restricted p.metadata_restriction)
    else later

abbrev pub or_denied : Option PermissionResult → PermissionResult
or_denied none = denied
or_denied (some r) = r

abbrev pub or_try : Option PermissionResult → PermissionResult → PermissionResult
or_try none r = r
or_try (some s) r = s

unfoldable pub check_permission : List Permission → Text → Action → PermissionResult
unfolding first_fit matches_resource is_wildcard
check_permission permissions resource action =
    if is_empty permissions
    then denied
    else or_try (first_fit (matches_resource resource) action permissions)
        (or_denied (first_fit is_wildcard action permissions))

-- The filter is the object of a request; none stands for no filter and for one that is no object.
-- `is_in` makes the value `{"$in": …}`.
unfoldable pub merge_restriction_filter :
    (List Text → Text) → Option (Dict Text) → MetadataRestriction → Dict Text
merge_restriction_filter is_in none r = (r.field, is_in r.allowed_values) ∷ []
merge_restriction_filter is_in (some existing) r =
    Dict.insert r.field (is_in r.allowed_values) existing

pub data Role : Type 0 where
  viewer editor administrator : Role

pub record AuthUser : Type 0 where
  pub username : Text
  pub role : Role
  pub permissions : Option (List Permission)
  pub namespace_allowance : Option NamespaceAllowance

-- Whether the namespace of a request is open to the user.
unfoldable pub check_namespace_access : AuthUser → Option Text → Bool
unfolding allows
check_namespace_access user requested = elim user.namespace_allowance [
  | none ↦ true
  | some a ↦ allows a requested
]

-- What a role allows by itself.
unfoldable pub by_role : Role → Action → PermissionResult
by_role administrator action = denied
by_role editor read = allowed
by_role editor write = allowed
by_role editor create = allowed
by_role editor delete = denied
by_role editor admin = denied
by_role viewer read = allowed
by_role viewer _ = denied

abbrev pub is_admin : Role → Bool
is_admin administrator = true
is_admin _ = false

unfoldable pub check_user_permission : AuthUser → Text → Action → PermissionResult
unfolding check_permission by_role
check_user_permission user name action =
    if is_admin user.role then allowed else elim user.permissions [
      | none ↦ by_role user.role action
      | some ps ↦ if is_empty ps then by_role user.role action else check_permission ps name action
    ]
