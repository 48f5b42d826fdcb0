-- ===== src/MemStore/RefreshTokens.antt =====
-- stores/memstore/refreshtoken.go: refresh sessions. A sweep returns how many it deleted.
use go_idento.Prelude.{
  ℕ, none, some, List, map, ◌==◌, Text, text_eq, ltb, length, sort_by, text_ltb,
}
use go_idento.Dict
use go_idento.Dict.{Dict}
use go_idento.Identity.Errors.{Result, ok, err, not_found}
use go_idento.Identity.Entities.{RefreshToken}
use go_idento.MemStore.State.{Store}

unfoldable pub create_refresh_token : Store → RefreshToken → Store
create_refresh_token s rt = record s { refresh_tokens = Dict.put s.refresh_tokens rt.session_id rt }

unfoldable pub get_refresh_token_by_session : Store → Text → Result RefreshToken
get_refresh_token_by_session s session_id = elim (Dict.get s.refresh_tokens session_id) [
  | none ↦ err not_found
  | some rt ↦ ok rt
]

unfoldable pub update_refresh_token : Store → RefreshToken → Result (Unit {0}) × Store
update_refresh_token s rt = elim (Dict.get s.refresh_tokens rt.session_id) [
  | none ↦ (err not_found, s)
  | some _ ↦ (ok tt, record s { refresh_tokens = Dict.put s.refresh_tokens rt.session_id rt })
]

unfoldable pub delete_refresh_token : Store → Text → Store
delete_refresh_token s session_id = record s {
  refresh_tokens = Dict.remove s.refresh_tokens session_id;
}

unfoldable pub delete_user_refresh_tokens : Store → Text → ℕ × Store
delete_user_refresh_tokens s user_id = (
  length (Dict.select s.refresh_tokens (λ _ rt. rt.user_id == user_id)),
  record s { refresh_tokens = Dict.drop_where s.refresh_tokens (λ _ rt. rt.user_id == user_id) },
)

unfoldable pub delete_expired_refresh_tokens : Store → ℕ → ℕ × Store
delete_expired_refresh_tokens s before = (
  length (Dict.select s.refresh_tokens (λ _ rt. ltb rt.expires_at before)),
  record s { refresh_tokens = Dict.drop_where s.refresh_tokens (λ _ rt. ltb rt.expires_at before) },
)

unfoldable pub list_user_refresh_tokens : Store → Text → List RefreshToken
list_user_refresh_tokens s user_id =
    sort_by (λ a b. text_ltb a.session_id b.session_id)
      (map (λ e. e.1) (Dict.select s.refresh_tokens (λ _ rt. rt.user_id == user_id)))
