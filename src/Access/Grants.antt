-- ===== src/Access/Grants.antt =====
-- What the permissions of a user grant.
use ferres_db.Base.{
  ℕ, ◌≡◌, refl, sym, ap, ap₂, ◌∙◌, Bool, true, false, not, ◌&&◌, ◌||◌, Option, none, some, List, [],
  ◌∷◌, any, is_empty, arith, if◌then◌else◌, Option-cases, Bool-cases, inl, inr, ◌⊎◌, is_some, leb,
}
use ferres_db.Base.Text.{Text}
use ferres_db.Access.{
  Resource, Action, read, write, create, delete, admin, Permission, PermissionResult, allowed,
  MetadataRestriction, is_allowed, contains_action, matches_resource, is_wildcard, first_fit,
  or_denied, or_try, check_permission, AuthUser, check_user_permission, is_admin, by_role, Role,
  viewer, editor, administrator,
}

-- A permission applies to an action on a collection.
abbrev pub applies : Text → Action → Permission → Bool
applies resource action p =
    (matches_resource resource p.resource || is_wildcard p.resource)
    && contains_action action p.actions

unrestricted : Option MetadataRestriction → Bool
unrestricted none = true
unrestricted (some r) = false

-- The same without a restriction.
abbrev pub applies_fully : Text → Action → Permission → Bool
applies_fully resource action p = applies resource action p && not (is_some p.metadata_restriction)

first_fit-is_some :
    (fits : Resource → Bool) (action : Action) (ps : List Permission)
    → is_some (first_fit fits action ps)
      ≡ any (λ p. fits p.resource && contains_action action p.actions) ps
unfolding first_fit
first_fit-is_some fits action [] = refl
first_fit-is_some fits action (p ∷ ps) = ground (arith, first_fit-is_some fits action ps)

first_fit-is_allowed :
    (fits : Resource → Bool) (action : Action) (ps : List Permission)
    → is_allowed (or_denied (first_fit fits action ps)) ≡ is_some (first_fit fits action ps)
unfolding first_fit is_allowed
first_fit-is_allowed fits action [] = refl
first_fit-is_allowed fits action (p ∷ ps) =
    ground (arith, first_fit-is_allowed fits action ps, Option-cases p.metadata_restriction)

any-either :
    (f g : Resource → Bool) (action : Action) (ps : List Permission)
    → any (λ p. (f p.resource || g p.resource) && contains_action action p.actions) ps
      ≡ any (λ p. f p.resource && contains_action action p.actions) ps
        || any (λ p. g p.resource && contains_action action p.actions) ps
any-either f g action [] = refl
any-either f g action (p ∷ ps) = ground (arith, any-either f g action ps)

either-allowed :
    (r s : Option PermissionResult)
    → is_allowed (or_denied r) ≡ is_some r
    → is_allowed (or_denied s) ≡ is_some s
    → is_allowed (or_try r (or_denied s)) ≡ is_some r || is_some s
either-allowed none s h k = k
either-allowed (some r) s h k = h

-- An action is allowed, with a restriction or without, just when some permission applies to it.
pub check_permission-is_allowed :
    (ps : List Permission) (resource : Text) (action : Action)
    → is_allowed (check_permission ps resource action) ≡ any (applies resource action) ps
unfolding check_permission is_allowed
check_permission-is_allowed [] resource action = refl
check_permission-is_allowed (p ∷ ps) resource action =
    either-allowed (first_fit (matches_resource resource) action (p ∷ ps))
      (first_fit is_wildcard action (p ∷ ps))
      (first_fit-is_allowed (matches_resource resource) action (p ∷ ps))
      (first_fit-is_allowed is_wildcard action (p ∷ ps))
    ∙ ap₂ (◌||◌) (first_fit-is_some (matches_resource resource) action (p ∷ ps))
        (first_fit-is_some is_wildcard action (p ∷ ps))
    ∙ sym (any-either (matches_resource resource) is_wildcard action (p ∷ ps))

first_fit-allowed :
    (fits : Resource → Bool) (action : Action) (ps : List Permission)
    → first_fit fits action ps ≡ some allowed
    → any
        (λ p.
          (fits p.resource && contains_action action p.actions)
          && not (is_some p.metadata_restriction))
        ps
      ≡ true
unfolding first_fit
first_fit-allowed fits action [] h = cc
first_fit-allowed fits action (p ∷ ps) h = elim (Option-cases p.metadata_restriction) [
  | inl free ↦ ground (arith, first_fit-allowed fits action ps)
  | inr (r, bound) ↦ ground (arith, first_fit-allowed fits action ps)
]

any_weaker :
    {A : Type 0} (f g : A → Bool) (xs : List A)
    → ((x : A) → f x ≡ true → g x ≡ true)
    → any f xs ≡ true
    → any g xs ≡ true
any_weaker f g [] h e = e
any_weaker f g (x ∷ xs) h e = ground (arith, h x, any_weaker f g xs h)

either-full :
    (r s : Option PermissionResult)
    → or_try r (or_denied s) ≡ allowed
    → (r ≡ some allowed) ⊎ (s ≡ some allowed)
either-full none none h = cc
either-full none (some s) h = inr (ap some h)
either-full (some r) s h = inl (ap some h)

-- An action is allowed without a restriction only when a permission without a restriction applies
-- to it.
pub check_permission-allowed :
    (ps : List Permission) (resource : Text) (action : Action)
    → check_permission ps resource action ≡ allowed
    → any (applies_fully resource action) ps ≡ true
unfolding check_permission
check_permission-allowed [] resource action h = cc
check_permission-allowed (p ∷ ps) resource action h =
    elim (either-full (first_fit (matches_resource resource) action (p ∷ ps))
      (first_fit is_wildcard action (p ∷ ps)) h) [
        | inl specific ↦
            any_weaker _ (applies_fully resource action) (p ∷ ps) by_specific
              (first_fit-allowed (matches_resource resource) action (p ∷ ps) specific)
        | inr wildcard ↦
            any_weaker _ (applies_fully resource action) (p ∷ ps) by_wildcard
              (first_fit-allowed is_wildcard action (p ∷ ps) wildcard)
      ]
  where
    by_specific :
        (q : Permission)
        → ((matches_resource resource q.resource && contains_action action q.actions)
            && not (is_some q.metadata_restriction))
          ≡ true
        → applies_fully resource action q ≡ true
    by_specific q e = ground arith

    by_wildcard :
        (q : Permission)
        → ((is_wildcard q.resource && contains_action action q.actions)
            && not (is_some q.metadata_restriction))
          ≡ true
        → applies_fully resource action q ≡ true
    by_wildcard q e = ground arith

-- The ranks of the roles, and the least rank that may take an action.
abbrev pub rank : Role → ℕ
rank viewer = 0
rank editor = 1
rank administrator = 2

abbrev pub needs : Action → ℕ
needs read = 0
needs write = 1
needs create = 1
needs delete = 2
needs admin = 2

by_role-is_allowed :
    (role : Role) (action : Action)
    → is_admin role ≡ false
    → is_allowed (by_role role action) ≡ leb (needs action) (rank role)
unfolding by_role is_allowed
by_role-is_allowed administrator action h = cc
by_role-is_allowed editor read h = refl
by_role-is_allowed editor write h = refl
by_role-is_allowed editor create h = refl
by_role-is_allowed editor delete h = refl
by_role-is_allowed editor admin h = refl
by_role-is_allowed viewer read h = refl
by_role-is_allowed viewer write h = refl
by_role-is_allowed viewer create h = refl
by_role-is_allowed viewer delete h = refl
by_role-is_allowed viewer admin h = refl

-- What a user who is no administrator may do: what the permissions grant when there are any, else
-- what the rank of the role reaches.
abbrev pub may : AuthUser → Text → Action → Bool
may user name action = elim user.permissions [
  | none ↦ leb (needs action) (rank user.role)
  | some ps ↦
      if is_empty ps then leb (needs action) (rank user.role) else any (applies name action) ps
]

-- An administrator may do everything; another user what the permissions grant, and without any
-- permission what the role's rank reaches.
pub check_user_permission-is_allowed :
    (user : AuthUser) (name : Text) (action : Action)
    → is_allowed (check_user_permission user name action)
      ≡ is_admin user.role || may user name action
unfolding check_user_permission is_allowed
check_user_permission-is_allowed user name action = elim (Bool-cases (is_admin user.role)) [
  | inl boss ↦ rw boss refl
  | inr plain ↦ elim (Option-cases user.permissions) [
    | inl none_set ↦ rw (plain, none_set) (by_role-is_allowed user.role action plain)
    | inr ([], set) ↦ rw (plain, set) (by_role-is_allowed user.role action plain)
    | inr (p ∷ ps, set) ↦ rw (plain, set) (check_permission-is_allowed (p ∷ ps) name action)
  ]
]
