-- ===== src/MemStore/Memberships.antt =====
-- stores/memstore/memstore.go: a user's roles and claims.
use go_idento.Prelude.{
  Bool, true, false, not, ◌&&◌, Option, none, some, List, [], ◌∷◌, ◌++◌, ◌==◌, Text, text_eq, keep,
  any, sort_by, text_ltb,
}
use go_idento.Dict
use go_idento.Dict.{Dict}
use go_idento.Identity.Errors.{Result, ok, err, role_not_found}
use go_idento.Identity.Entities.{User, Role, Claim, claim_eq}
use go_idento.MemStore.State.{Store}

-- A missing key reads as the zero value.
abbrev pub get_or : {V : Type 0} → Dict Text V → Text → V → V
get_or d k z = elim (Dict.get d k) [ none ↦ z | some v ↦ v ]

abbrev first_role_id : List (Text × Role) → Option Text
first_role_id [] = none
first_role_id ((k, r) ∷ m) = some r.id

unfoldable pub role_id_by_name : Store → Text → Option Text
role_id_by_name s name = first_role_id (Dict.select s.roles (λ _ r. r.normalized_name == name))

unfoldable pub add_to_role : Store → User → Text → Result (Unit {0}) × Store
add_to_role s u name = elim (role_id_by_name s name) [
  | none ↦ (err role_not_found, s)
  | some rid ↦ (
    ok tt,
    record s {
      user_roles =
          Dict.put s.user_roles u.id (Dict.put (get_or s.user_roles u.id Dict.empty) rid true);
    },
  )
]

-- `delete` on a map that is not there does nothing.
unfoldable pub remove_from_role : Store → User → Text → Store
remove_from_role s u name = elim (role_id_by_name s name) [
  | none ↦ s
  | some rid ↦ elim (Dict.get s.user_roles u.id) [
    | none ↦ s
    | some set ↦ record s { user_roles = Dict.put s.user_roles u.id (Dict.remove set rid) }
  ]
]

-- The names of those of the ids that are roles.
unfoldable pub role_names : Dict Text Role → List (Text × Bool) → List Text
role_names roles [] = []
role_names roles ((rid, b) ∷ m) = elim (Dict.get roles rid) [
  | none ↦ role_names roles m
  | some r ↦ r.name ∷ role_names roles m
]

unfoldable pub get_roles : Store → User → List Text
unfolding role_names
get_roles s u = role_names s.roles (Dict.select (get_or s.user_roles u.id Dict.empty) (λ _ _. true))

unfoldable pub is_in_role : Store → User → Text → Bool
is_in_role s u name = elim (role_id_by_name s name) [
  | none ↦ false
  | some rid ↦ get_or (get_or s.user_roles u.id Dict.empty) rid false
]

-- The users among the keys.
unfoldable pub users_of : {V : Type 0} → Dict Text User → List (Text × V) → List User
users_of users [] = []
users_of users ((uid, v) ∷ m) = elim (Dict.get users uid) [
  | none ↦ users_of users m
  | some u ↦ u ∷ users_of users m
]

abbrev by_id : List User → List User
by_id = sort_by (λ a b. text_ltb a.id b.id)

unfoldable pub get_users_in_role : Store → Text → List User
unfolding users_of
get_users_in_role s name = elim (role_id_by_name s name) [
  | none ↦ []
  | some rid ↦ by_id (users_of s.users (Dict.select s.user_roles (λ _ set. get_or set rid false)))
]

unfoldable pub get_users_for_claim : Store → Text → Text → List User
unfolding users_of any
get_users_for_claim s type value = by_id (
    users_of s.users
      (Dict.select s.user_claims (λ _ cs. any (λ c. c.type == type && c.value == value) cs)))

unfoldable pub get_claims : Store → User → List Claim
get_claims s u = get_or s.user_claims u.id []

unfoldable pub add_claims : Store → User → List Claim → Store
add_claims s u claims = record s {
  user_claims = Dict.put s.user_claims u.id (get_or s.user_claims u.id [] ++ claims);
}

unfoldable pub remove_claims : Store → User → List Claim → Store
unfolding keep any
remove_claims s u claims = record s {
  user_claims =
      Dict.put s.user_claims u.id
        (keep (λ c. not (any (λ rm. c == rm) claims)) (get_or s.user_claims u.id []));
}
