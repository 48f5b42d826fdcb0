-- ===== src/MemStore/Oauth.antt =====
-- stores/memstore/oauth.go: clients, codes, consents, grants and used assertions.
use go_idento.Prelude.{
  ℕ, Bool, true, false, not, ◌&&◌, Option, none, some, List, map, ◌==◌, if◌then◌else◌, Text,
  text_eq, pair_eq, ltb, is_some, length, any, sort_by,
}
use go_idento.Dict
use go_idento.Dict.{Dict}
use go_idento.Identity.Errors.{Result, ok, err, not_found}
use go_idento.Oauth.Types.{Client, Code, Consent, Grant}
use go_idento.MemStore.State.{Store, consent_key}

abbrev pub found : {V : Type 0} → Option V → Result V
found none = err not_found
found (some v) = ok v

unfoldable pub create_client : Store → Client → Store
create_client s c = record s { oauth_clients = Dict.put s.oauth_clients c.client_id c }

unfoldable pub get_client : Store → Text → Result Client
get_client s client_id = found (Dict.get s.oauth_clients client_id)

unfoldable pub touch_client : Store → Text → ℕ → Store
touch_client s client_id at = elim (Dict.get s.oauth_clients client_id) [
  | none ↦ s
  | some c ↦ record s {
    oauth_clients = Dict.put s.oauth_clients client_id (record c { last_used_at = some at });
  }
]

-- The client of some grant.
unfoldable pub in_use : Store → Text → Bool
unfolding any
in_use s id = any (λ e. e.1.client_id == id) (Dict.select s.oauth_grants (λ _ _. true))

-- LastUsedAt == nil || LastUsedAt.Before(before)
abbrev unused_since : Option ℕ → ℕ → Bool
unused_since none before = true
unused_since (some t) before = ltb t before

unfoldable pub stale : Store → ℕ → Text → Client → Bool
unfolding in_use
stale s before id c =
    ltb c.created_at before && (unused_since c.last_used_at before && not (in_use s id))

unfoldable pub delete_stale_clients : Store → ℕ → ℕ × Store
unfolding stale
delete_stale_clients s before = (
  length (Dict.select s.oauth_clients (stale s before)),
  record s { oauth_clients = Dict.drop_where s.oauth_clients (stale s before) },
)

unfoldable pub create_code : Store → Code → Store
create_code s c = record s { oauth_codes = Dict.put s.oauth_codes c.code_hash c }

unfoldable pub get_code : Store → Text → Result Code
get_code s code_hash = found (Dict.get s.oauth_codes code_hash)

unfoldable pub mark_code_used : Store → Text → Text → ℕ → Bool × Store
mark_code_used s code_hash grant_id at = elim (Dict.get s.oauth_codes code_hash) [
  | none ↦ (false, s)
  | some c ↦ if is_some c.used_at then (false, s) else (
    true,
    record s {
      oauth_codes =
          Dict.put s.oauth_codes code_hash (record c { used_at = some at; grant_id = grant_id });
    },
  )
]

unfoldable pub delete_expired_codes : Store → ℕ → ℕ × Store
delete_expired_codes s before = (
  length (Dict.select s.oauth_codes (λ _ c. ltb c.expires_at before)),
  record s { oauth_codes = Dict.drop_where s.oauth_codes (λ _ c. ltb c.expires_at before) },
)

unfoldable pub get_consent : Store → Text → Text → Result Consent
get_consent s user_id client_id = found (Dict.get s.oauth_consents (consent_key user_id client_id))

-- The time of the first consent is kept.
abbrev since : Option Consent → Consent → Consent
since none c = c
since (some prev) c = record c { created_at = prev.created_at }

unfoldable pub save_consent : Store → Consent → Store
save_consent s c =
    let k = consent_key c.user_id c.client_id in
    record s {
      oauth_consents = Dict.put s.oauth_consents k (since (Dict.get s.oauth_consents k) c);
    }

unfoldable pub delete_consent : Store → Text → Text → Store
delete_consent s user_id client_id = record s {
  oauth_consents = Dict.remove s.oauth_consents (consent_key user_id client_id);
}

unfoldable pub create_grant : Store → Grant → Store
create_grant s g = record s { oauth_grants = Dict.put s.oauth_grants g.id g }

unfoldable pub get_grant : Store → Text → Result Grant
get_grant s id = found (Dict.get s.oauth_grants id)

unfoldable pub rotate_grant : Store → Text → Text → Text → ℕ → ℕ → Bool × Store
rotate_grant s id old_hash new_hash expires_at used_at = elim (Dict.get s.oauth_grants id) [
  | none ↦ (false, s)
  | some g ↦
      if g.token_hash == old_hash
      then (
        true,
        record s {
          oauth_grants = Dict.put s.oauth_grants id (record g {
            prev_token_hash = old_hash;
            token_hash = new_hash;
            expires_at = expires_at;
            last_used_at = some used_at;
          });
        },
      )
      else (false, s)
]

unfoldable pub delete_grant : Store → Text → Store
delete_grant s id = record s { oauth_grants = Dict.remove s.oauth_grants id }

unfoldable pub delete_user_client_grants : Store → Text → Text → ℕ × Store
delete_user_client_grants s user_id client_id = (
  length (Dict.select s.oauth_grants (λ _ g. g.user_id == user_id && g.client_id == client_id)),
  record s {
    oauth_grants =
        Dict.drop_where s.oauth_grants (λ _ g. g.user_id == user_id && g.client_id == client_id);
  },
)

unfoldable pub list_user_grants : Store → Text → List Grant
list_user_grants s user_id =
    sort_by (λ a b. ltb a.created_at b.created_at)
      (map (λ e. e.1) (Dict.select s.oauth_grants (λ _ g. g.user_id == user_id)))

unfoldable pub delete_expired_grants : Store → ℕ → ℕ × Store
delete_expired_grants s before = (
  length (Dict.select s.oauth_grants (λ _ g. ltb g.expires_at before)),
  record s { oauth_grants = Dict.drop_where s.oauth_grants (λ _ g. ltb g.expires_at before) },
)

unfoldable pub use_client_assertion : Store → Text → Text → ℕ → Bool × Store
use_client_assertion s client_id jti expires_at =
    if is_some (Dict.get s.oauth_jtis (client_id, jti))
    then (false, s)
    else (true, record s { oauth_jtis = Dict.put s.oauth_jtis (client_id, jti) expires_at })

unfoldable pub delete_expired_client_assertions : Store → ℕ → ℕ × Store
delete_expired_client_assertions s before = (
  length (Dict.select s.oauth_jtis (λ _ exp. ltb exp before)),
  record s { oauth_jtis = Dict.drop_where s.oauth_jtis (λ _ exp. ltb exp before) },
)
