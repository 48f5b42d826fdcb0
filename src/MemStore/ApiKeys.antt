-- ===== src/MemStore/ApiKeys.antt =====
-- stores/memstore/apikey.go. The time that a method reads is an argument.
use go_idento.Prelude.{
  ℕ, Bool, false, not, ◌||◌, Option, none, some, List, [], ◌∷◌, map, ◌==◌, if◌then◌else◌, Text,
  text_eq, ltb, is_some, sort_by, text_ltb,
}
use go_idento.Dict
use go_idento.Dict.{Dict}
use go_idento.Identity.Errors.{Result, ok, err, not_found, login_already_used}
use go_idento.Identity.Entities.{ApiKey}
use go_idento.MemStore.State.{Store}

abbrev pub first_key : List (Text × ApiKey) → Option ApiKey
first_key [] = none
first_key ((k, key) ∷ m) = some key

unfoldable pub with_hash : Store → Text → Option ApiKey
with_hash s hash = first_key (Dict.select s.api_keys (λ _ k. k.key_hash == hash))

unfoldable pub create_api_key : Store → ApiKey → Result (Unit {0}) × Store
create_api_key s k = elim (with_hash s k.key_hash) [
  | some existing ↦ (err login_already_used, s)
  | none ↦ (ok tt, record s { api_keys = Dict.put s.api_keys k.id k })
]

-- ExpiresAt != nil && !ExpiresAt.After(now)
abbrev pub expired : Option ℕ → ℕ → Bool
expired none now = false
expired (some t) now = not (ltb now t)

unfoldable pub inactive : ApiKey → ℕ → Bool
inactive k now = is_some k.revoked_at || expired k.expires_at now

-- The first key with the hash decides, also where it is not active.
unfoldable pub get_active_api_key_by_hash : Store → Text → ℕ → Result ApiKey
unfolding with_hash inactive
get_active_api_key_by_hash s hash now = elim (with_hash s hash) [
  | none ↦ err not_found
  | some k ↦ if inactive k now then err not_found else ok k
]

unfoldable pub list_api_keys_by_user : Store → Text → List ApiKey
list_api_keys_by_user s user_id =
    sort_by (λ a b. text_ltb a.id b.id)
      (map (λ e. e.1) (Dict.select s.api_keys (λ _ k. k.user_id == user_id)))

unfoldable pub revoke_api_key : Store → Text → ℕ → Store
revoke_api_key s id now = elim (Dict.get s.api_keys id) [
  | none ↦ s
  | some k ↦
      if is_some k.revoked_at
      then s
      else record s { api_keys = Dict.put s.api_keys id (record k { revoked_at = some now }) }
]

unfoldable pub touch_api_key_last_used : Store → Text → ℕ → Store
touch_api_key_last_used s id now = elim (Dict.get s.api_keys id) [
  | none ↦ s
  | some k ↦ record s { api_keys = Dict.put s.api_keys id (record k { last_used_at = some now }) }
]
