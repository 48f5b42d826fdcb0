-- ===== src/Identity/TokenService/Sessions.antt =====
-- identity/token_service.go: refresh sessions, one for each sign-in.
pub mod Rotation
pub mod Limit
use go_idento.Prelude.{
  ℕ, zero, suc, ◌+◌, ◌-◌, Bool, true, false, not, ◌&&◌, ◌||◌, Option, none, some, List, [], ◌∷◌,
  ◌++◌, ◌==◌, if◌then◌else◌, Text, text_eq, ltb, leb, nat_beq, length, sort_by,
}
use go_idento.Identity.Errors.{Result, ok, err, invalid_token}
use go_idento.Identity.Entities.{User, RefreshToken}
use go_idento.Identity.World.{Env, World}
use go_idento.Identity.Action.{
  Action, ◌>>=◌, ◌>>◌, pure, require, writes, attempts, read_clock, draw,
}
use go_idento.MemStore.State.{Store}
use go_idento.MemStore.RefreshTokens.{
  create_refresh_token, get_refresh_token_by_session, update_refresh_token, delete_refresh_token,
  delete_expired_refresh_tokens, list_user_refresh_tokens,
}
use go_idento.Identity.TokenService.{TokenOptions, TokenPair, refresh_ttl}
use go_idento.Identity.TokenService.Claims.{sign_access_token}

-- A dot between the session's id and the secret.
abbrev pub opaque : Text → Text → Text
opaque id secret = id ++ (b'.' ∷ secret)

-- The loop of `enforceMaxSessions`: the first sessions but one are deleted, until enough are.
unfoldable pub evict : ℕ → Text → List RefreshToken → Store → Store
evict zero keep xs s = s
evict (suc excess) keep [] s = s
evict (suc excess) keep (x ∷ xs) s =
    let skip = evict (suc excess) keep xs s in
    let drop = evict excess keep xs (delete_refresh_token s x.session_id) in
    if x.session_id == keep then skip else drop

abbrev pub by_expiry : List RefreshToken → List RefreshToken
by_expiry = sort_by (λ a b. ltb a.expires_at b.expires_at)

unfoldable pub enforce_max_sessions : TokenOptions → Text → Text → Store → Store
enforce_max_sessions o user_id keep s =
    let sessions = list_user_refresh_tokens s user_id in
    if nat_beq o.max_sessions 0 || leb (length sessions) o.max_sessions
    then s
    else evict (length sessions - o.max_sessions) keep (by_expiry sessions) s

module _ (o : TokenOptions) (env : Env) (u : User) where
  unfoldable pub new_session_refresh : Action Text
  new_session_refresh = do
    t ← read_clock env
    secret ← draw env
    session_id ← draw env
    writes (λ s. create_refresh_token s (record {
      session_id = session_id;
      user_id = u.id;
      token_hash = o.hash_refresh secret;
      name = [];
      expires_at = t + refresh_ttl o;
      created_at = t;
      last_used_at = none;
    }))
    writes (λ s. (delete_expired_refresh_tokens s t).1)
    writes (enforce_max_sessions o u.id session_id)
    pure (opaque session_id secret)

  unfoldable pub find_session : Text → Action RefreshToken
  find_session session_id w = elim (get_refresh_token_by_session w.store session_id) [
    | err e ↦ (err invalid_token, w)
    | ok rt ↦ (ok rt, w)
  ]

  -- The session with its next secret, and the pair with it.
  unfoldable pub rotate_session : RefreshToken → ℕ → Text × ℕ → Action (Option TokenPair)
  rotate_session rt t (signed, expiry) = do
    secret ← draw env
    attempts (λ s. update_refresh_token s (record rt {
      token_hash = o.hash_refresh secret;
      expires_at = t + refresh_ttl o;
      last_used_at = some t;
    }))
    pure (
        some (record {
          access_token = signed;
          refresh_token = opaque rt.session_id secret;
          expires_at = expiry;
        }))

  -- `none` is the error of the signer.
  unfoldable pub sign_and_rotate : RefreshToken → ℕ → Action (Option TokenPair)
  sign_and_rotate rt t w =
      let (signed, w') = sign_access_token o env u w in
      elim signed [ none ↦ (ok none, w') | some at ↦ rotate_session rt t at w' ]

  unfoldable pub refresh_session : Text → Text → Action (Option TokenPair)
  refresh_session session_id secret = do
    require (not (session_id == [] || ltb 64 (length session_id))) invalid_token
    rt ← find_session session_id
    t ← read_clock env
    require (not (not (rt.user_id == u.id) || ltb rt.expires_at t)) invalid_token
    require (rt.token_hash == o.hash_refresh secret) invalid_token
    sign_and_rotate rt t
