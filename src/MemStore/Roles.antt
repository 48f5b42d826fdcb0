-- ===== src/MemStore/Roles.antt =====
-- stores/memstore/memstore.go: the role store.
use go_idento.Prelude.{
  not, none, some, List, [], ◌∷◌, ◌++◌, ◌==◌, if◌then◌else◌, Text, text_eq, keep,
}
use go_idento.Dict
use go_idento.Dict.{Dict}
use go_idento.Identity.Errors.{Result, ok, err, not_found, concurrency_failure}
use go_idento.Identity.Entities.{Role, Claim, claim_eq}
use go_idento.MemStore.State.{Store}
use go_idento.MemStore.Memberships.{get_or}

unfoldable pub create : Store → Role → Store
create s r = record s { roles = Dict.put s.roles r.id r }

unfoldable pub update : Store → Role → Text → Result Role × Store
update s r stamp = elim (Dict.get s.roles r.id) [
  | none ↦ (err not_found, s)
  | some cur ↦
      if cur.concurrency_stamp == r.concurrency_stamp
      then (
        ok (record r { concurrency_stamp = stamp }),
        record s { roles = Dict.put s.roles r.id (record r { concurrency_stamp = stamp }) },
      )
      else (err concurrency_failure, s)
]

unfoldable pub delete : Store → Role → Store
delete s r = record s { roles = Dict.remove s.roles r.id }

unfoldable pub find_by_id : Store → Text → Result Role
find_by_id s id = elim (Dict.get s.roles id) [ none ↦ err not_found | some r ↦ ok r ]

abbrev pub first_role : List (Text × Role) → Result Role
first_role [] = err not_found
first_role ((k, r) ∷ m) = ok r

unfoldable pub find_by_name : Store → Text → Result Role
find_by_name s name = first_role (Dict.select s.roles (λ _ r. r.normalized_name == name))

unfoldable pub get_claims : Store → Role → List Claim
get_claims s r = get_or s.role_claims r.id []

unfoldable pub add_claim : Store → Role → Claim → Store
add_claim s r c = record s {
  role_claims = Dict.put s.role_claims r.id (get_or s.role_claims r.id [] ++ (c ∷ []));
}

unfoldable pub remove_claim : Store → Role → Claim → Store
unfolding keep
remove_claim s r c = record s {
  role_claims =
      Dict.put s.role_claims r.id
        (keep (λ existing. not (existing == c)) (get_or s.role_claims r.id []));
}
