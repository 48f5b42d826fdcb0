-- ===== src/MemStore/Users.antt =====
-- stores/memstore/memstore.go: users, from `Create` to `FindByEmail`.
use go_idento.Prelude.{
  ℕ, Bool, false, not, ◌&&◌, none, some, List, [], ◌∷◌, map, ◌==◌, if◌then◌else◌, length, Text,
  text_eq, has_prefix, ltb,
}
use go_idento.Dict
use go_idento.Dict.{Dict}
use go_idento.Identity.Errors.{Result, ok, err, not_found, concurrency_failure}
use go_idento.Identity.Entities.{User}
use go_idento.MemStore.State.{Store, token_prefix}

unfoldable pub create : Store → User → Store
create s u = record s { users = Dict.put s.users u.id u }

-- The stamp is the one that `NewConcurrencyStamp` draws; `u` comes back with it.
unfoldable pub update : Store → User → Text → Result User × Store
update s u stamp = elim (Dict.get s.users u.id) [
  | none ↦ (err not_found, s)
  | some cur ↦
      if cur.concurrency_stamp == u.concurrency_stamp
      then (
        ok (record u { concurrency_stamp = stamp }),
        record s { users = Dict.put s.users u.id (record u { concurrency_stamp = stamp }) },
      )
      else (err concurrency_failure, s)
]

unfoldable pub cascade_delete : Store → Text → Store
cascade_delete s id = record s {
  users = Dict.remove s.users id;
  user_roles = Dict.remove s.user_roles id;
  user_claims = Dict.remove s.user_claims id;
  tokens = Dict.drop_where s.tokens (λ k _. has_prefix k (token_prefix id));
  login_user = Dict.drop_where s.login_user (λ _ uid. uid == id);
  logins =
      Dict.drop_where s.logins
        (λ k _. elim (Dict.get s.login_user k) [ none ↦ false | some uid ↦ uid == id ]);
  api_keys = Dict.drop_where s.api_keys (λ _ k. k.user_id == id);
  refresh_tokens = Dict.drop_where s.refresh_tokens (λ _ rt. rt.user_id == id);
  oauth_codes = Dict.drop_where s.oauth_codes (λ _ c. c.user_id == id);
  oauth_consents = Dict.drop_where s.oauth_consents (λ _ c. c.user_id == id);
  oauth_grants = Dict.drop_where s.oauth_grants (λ _ g. g.user_id == id);
}

unfoldable pub delete : Store → User → Store
unfolding cascade_delete
delete s u = cascade_delete s u.id

-- for _, id := range ids { s.cascadeDeleteLocked(id) }
unfoldable pub delete_each : Store → List Text → Store
delete_each s [] = s
delete_each s (id ∷ ids) = delete_each (cascade_delete s id) ids

unfoldable pub stale_guest : ℕ → User → Bool
stale_guest before u = u.is_anonymous && ltb u.created_at before

abbrev pub keys : List (Text × User) → List Text
keys = map (λ e. e.0)

-- The ids are collected first; the result is their number.
unfoldable pub purge_anonymous_users : Store → ℕ → ℕ × Store
unfolding stale_guest delete_each
purge_anonymous_users s before =
    let ids = keys (Dict.select s.users (λ _ u. stale_guest before u)) in
    (length ids, delete_each s ids)

unfoldable pub find_by_id : Store → Text → Result User
find_by_id s id = elim (Dict.get s.users id) [ none ↦ err not_found | some u ↦ ok u ]

abbrev pub first_of_entries : List (Text × User) → Result User
first_of_entries [] = err not_found
first_of_entries ((k, u) ∷ m) = ok u

-- The first user with the property that the loop meets.
unfoldable pub find_by : Store → (User → Bool) → Result User
find_by s pred = first_of_entries (Dict.select s.users (λ _ u. pred u))

unfoldable pub find_by_name : Store → Text → Result User
unfolding find_by
find_by_name s n = find_by s (λ u. u.normalized_user_name == n)

unfoldable pub find_by_email : Store → Text → Result User
unfolding find_by
find_by_email s e = find_by s (λ u. u.normalized_email == e && not (e == []))
