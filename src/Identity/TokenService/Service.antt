-- ===== src/Identity/TokenService/Service.antt =====
-- identity/token_service.go: the operations of the token service. A pair that is missing is an error
-- of the signer.
use go_idento.Prelude.{Option, none, some, List, ◌==◌, if◌then◌else◌, Text, text_eq, cut}
use go_idento.Identity.Errors.{ok, err, invalid_token, list_not_supported}
use go_idento.Identity.Entities.{User, RefreshToken}
use go_idento.Identity.World.{Env}
use go_idento.Identity.Action.{Action, ◌>>=◌, ◌>>◌, pure, writes}
use go_idento.MemStore.RefreshTokens.{
  get_refresh_token_by_session, delete_refresh_token, delete_user_refresh_tokens,
  list_user_refresh_tokens,
}
use go_idento.Identity.TokenService.{TokenOptions, TokenPair}
use go_idento.Identity.TokenService.Claims.{sign_access_token}
use go_idento.Identity.TokenService.Slot.{validate_slot, fill_slot, clear_slot}
use go_idento.Identity.TokenService.Sessions.{new_session_refresh, refresh_session}

module _ (o : TokenOptions) (env : Env) (u : User) where
  unfoldable pub issue_refresh : Action Text
  issue_refresh = if o.multi_session then new_session_refresh o env u else fill_slot o env u

  unfoldable pub issue_pair : Action (Option TokenPair)
  issue_pair w =
      let (signed, w') = sign_access_token o env u w in
      elim signed [
        | none ↦ (ok none, w')
        | some (token, expiry) ↦
            (issue_refresh >>= λ refresh.
            pure (
              some (record { access_token = token; refresh_token = refresh; expires_at = expiry })))
              w'
      ]

  -- A token of the slot gets a session of its own, and the slot is cleared.
  unfoldable pub migrate_slot : Text → Action (Option TokenPair)
  migrate_slot token = do
    validate_slot o env u token
    pair ← issue_pair
    elim pair [ none ↦ pure none | some p ↦ (do clear_slot u; pure (some p)) ]

  unfoldable pub refresh : Text → Action (Option TokenPair)
  refresh token =
      if o.multi_session
      then (elim (cut b'.' token) [
        | none ↦ migrate_slot token
        | some (session_id, secret) ↦ refresh_session o env u session_id secret
      ])
      else (do validate_slot o env u token; issue_pair)

  unfoldable pub revoke : Action (Unit {0})
  revoke = do
    clear_slot u
    if o.multi_session then writes (λ s. (delete_user_refresh_tokens s u.id).1) else pure tt

  -- A session that is gone is no error.
  unfoldable pub drop_session : Text → Action (Unit {0})
  drop_session session_id w = elim (get_refresh_token_by_session w.store session_id) [
    | err e ↦ (ok tt, w)
    | ok rt ↦
        if rt.user_id == u.id
        then (ok tt, record w { store = delete_refresh_token w.store session_id })
        else (err invalid_token, w)
  ]

  unfoldable pub revoke_session : Text → Action (Unit {0})
  revoke_session token =
      if o.multi_session
      then (elim (cut b'.' token) [
        | none ↦ clear_slot u
        | some (session_id, secret) ↦ drop_session session_id
      ])
      else clear_slot u

  unfoldable pub list_sessions : Action (List RefreshToken)
  list_sessions w = (
    if o.multi_session then ok (list_user_refresh_tokens w.store u.id) else err list_not_supported,
    w,
  )
