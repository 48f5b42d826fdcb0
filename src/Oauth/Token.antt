-- ===== src/Oauth/Token.antt =====
-- oauth/token.go: the grants of the token endpoint. The store is the in-memory one, whose reads fail
-- only for a missing row.
pub mod Inversion
pub mod SingleUse
pub mod Completion
use go_idento.Prelude.{
  ℤ, pos, negated, ℕ, ◌+◌, ◌-◌, ◌/◌, ◌≤◌, Bool, true, false, not, ◌&&◌, ◌||◌, Option, none, some,
  List, [], ◌∷◌, ◌++◌, ◌==◌, if◌then◌else◌, Text, text_eq, codes, ltb, leb, cut, length, is_some,
  nat_beq,
}
use go_idento.Identity.Errors as Errors
use go_idento.Identity.Entities.{User}
use go_idento.Identity.World.{World}
use go_idento.Identity.Lockout.{is_locked_out}
use go_idento.MemStore.Users.{find_by_id}
use go_idento.MemStore.Memberships.{get_roles}
use go_idento.MemStore.Oauth as Methods
use go_idento.Oauth.Types.{Code, Grant}
use go_idento.Oauth.Scopes.{has_scope, parse_scopes, join_scopes, contains_all, verify_s256}
use go_idento.Oauth.Urls.{canonical_resource}
use go_idento.Oauth.Server.{
  AccessClaims, Server, ResolvedClient, OauthError, unauthorized_client, code_required,
  code_invalid, code_used, code_expired, code_of_another_client, redirect_uri_mismatch, pkce_failed,
  target_mismatch, user_unavailable, token_invalid, token_of_another_client, token_used,
  token_expired, grant_revoked, scope_exceeded, server_error, Reply, ok, fail, M, ◌>>=◌, ◌>>◌, pure,
  raise, guard, read_clock, draw,
}

abbrev pub authorization_code : Text
authorization_code = codes "authorization_code"

abbrev pub refresh_token : Text
refresh_token = codes "refresh_token"

abbrev pub offline_access : Text
offline_access = codes "offline_access"

pub record TokenResponse : Type 0 where
  pub access_token : Text
  pub expires_in : ℤ
  pub refresh : Text
  pub scope : Text

-- The form values that the grants read; a missing one is empty.
pub record CodeForm : Type 0 where
  pub code : Text
  pub redirect_uri : Text
  pub code_verifier : Text
  pub resource : Text

pub record RefreshForm : Type 0 where
  pub refresh_token : Text
  pub resource : Text
  pub scope : Text

unfoldable pub client_allows : ResolvedClient → Text → Bool
client_allows c grant_type =
    if nat_beq (length c.grant_types) 0
    then grant_type == authorization_code || grant_type == refresh_token
    else has_scope c.grant_types grant_type

-- One nanosecond is the unit of time; a token counts seconds.
abbrev pub second : ℕ
second = 1000000000

-- int64(exp.Sub(t).Seconds()): cut off towards zero, also where the time has passed.
abbrev pub seconds_until : ℕ → ℕ → ℤ
seconds_until exp t = if leb t exp then pos ((exp - t) / second) else negated ((t - exp) / second)

module _ (s : Server) where
  unfoldable pub issues_refresh : ResolvedClient → List Text → Bool
  issues_refresh c scopes =
      if not (client_allows c refresh_token)
      then false
      else if s.require_offline_access
      then has_scope scopes offline_access
      else true

  -- The resource of the request, if there is one, is that of the code or grant.
  unfoldable pub same_resource : Text → Text → Bool
  same_resource requested granted =
      requested == []
      || (elim (canonical_resource s.web requested) [ none ↦ false | some c ↦ c == granted ])

  -- The user exists and is not locked out.
  unfoldable pub available_user : Text → M User
  available_user id w = elim (find_by_id w.store id) [
    | Errors.err e ↦ (fail user_unavailable, w)
    | Errors.ok u ↦
        let (locked, w') = is_locked_out s.env u w in
        (if locked then fail user_unavailable else ok u, w')
  ]

  -- The claims of a token that is signed at a time.
  abbrev pub claims_of : User → Grant → List Text → List Text → Text → ℕ → AccessClaims
  claims_of u g scopes roles jti t = record {
    iss = s.issuer;
    sub = u.id;
    aud = g.resource;
    iat = t / second;
    nbf = t / second;
    exp = (t + s.access_token_ttl) / second;
    jti = jti;
    client_id = g.client_id;
    scope = join_scopes scopes;
    gid = g.id;
    security_stamp = u.security_stamp;
    roles = roles;
  }

  unfoldable pub sign_access_token : User → Grant → List Text → M (Text × ℕ)
  sign_access_token u g scopes = do
    t ← read_clock s
    jti ← draw s
    λ w. (
      elim (s.sign (claims_of u g scopes (get_roles w.store u) jti t)) [
        | none ↦ fail server_error
        | some at ↦ ok (at, t + s.access_token_ttl)
      ],
      w,
    )

  unfoldable pub token_response : User → Grant → List Text → Text → M TokenResponse
  token_response u g scopes refresh = do
    signed ← sign_access_token u g scopes
    t ← read_clock s
    pure (record {
      access_token = signed.0;
      expires_in = seconds_until signed.1 t;
      refresh = refresh;
      scope = join_scopes scopes;
    })

  -- DeleteGrant, unless the id is empty.
  unfoldable pub revoke_grant_of : Code → M (Unit {0})
  revoke_grant_of c w = (
    ok tt,
    if c.grant_id == [] then w else record w { store = Methods.delete_grant w.store c.grant_id },
  )

  -- The code as it is stored, if it is.
  unfoldable pub lookup_code : Text → M Code
  lookup_code hash w = elim (Methods.get_code w.store hash) [
    | Errors.err e ↦ (fail code_invalid, w)
    | Errors.ok c ↦ (ok c, w)
  ]

  -- Another redemption was first: what it issued is revoked.
  unfoldable pub lost_race : Text → M TokenResponse
  lost_race hash w = elim (Methods.get_code w.store hash) [
    | Errors.err e ↦ (fail code_used, w)
    | Errors.ok c ↦ (fail code_used, (revoke_grant_of c w).1)
  ]

  unfoldable pub mark : Text → Text → ℕ → M Bool
  mark hash grant_id t w =
      let (won, store) = Methods.mark_code_used w.store hash grant_id t in
      (ok won, record w { store = store })

  -- The grant that a code gives; without a refresh token its hash is empty.
  abbrev pub grant_of : Text → User → ResolvedClient → Code → ℕ → Text → Grant
  grant_of grant_id u client code t token_hash = record {
    id = grant_id;
    user_id = u.id;
    client_id = client.id;
    scopes = code.scopes;
    resource = code.resource;
    token_hash = token_hash;
    prev_token_hash = [];
    security_stamp = u.security_stamp;
    expires_at = t + s.refresh_token_ttl;
    created_at = t;
    last_used_at = none;
  }

  unfoldable pub save_grant : Grant → M (Unit {0})
  save_grant g w = (ok tt, record w { store = Methods.create_grant w.store g })

  -- Clients of a metadata document are not stored.
  unfoldable pub touch : ResolvedClient → ℕ → M (Unit {0})
  touch client t w = (
    ok tt,
    if client.cimd then w else record w { store = Methods.touch_client w.store client.id t },
  )

  -- A dot between the grant's id and the secret.
  abbrev pub opaque : Text → Text → Text
  opaque id secret = id ++ (b'.' ∷ secret)

  -- The refresh secret, drawn only where one is issued.
  unfoldable pub draw_secret : Bool → M (Option Text)
  draw_secret true = do secret ← draw s; pure (some secret)
  draw_secret false = pure none

  abbrev pub hash_of : Option Text → Text
  hash_of none = []
  hash_of (some secret) = s.hash_secret secret

  abbrev pub token_of : Text → Option Text → Text
  token_of id none = []
  token_of id (some secret) = opaque id secret

  -- `exchangeCode` after the code was marked: the grant and the tokens.
  unfoldable pub issue : ResolvedClient → Code → User → ℕ → Text → M TokenResponse
  issue client code u t grant_id = do
    secret ← draw_secret (issues_refresh client (parse_scopes code.scopes))
    save_grant (grant_of grant_id u client code t (hash_of secret))
    touch client t
    token_response u (grant_of grant_id u client code t (hash_of secret)) (parse_scopes code.scopes)
        (token_of grant_id secret)

  -- `exchangeCode` from `MarkCodeUsed` on. Other requests may have come before.
  unfoldable pub redeem : ResolvedClient → Text → Code → User → ℕ → M TokenResponse
  redeem client hash code u t = do
    grant_id ← draw s
    won ← mark hash grant_id t
    if won then issue client code u t grant_id else lost_race hash

  -- The checks of `exchangeCode` on the stored code.
  unfoldable pub check_code : ResolvedClient → CodeForm → Code → ℕ → M (Unit {0})
  check_code client f code t = do
    guard (not (ltb code.expires_at t)) code_expired
    guard (code.client_id == client.id) code_of_another_client
    guard (f.redirect_uri == [] || f.redirect_uri == code.redirect_uri) redirect_uri_mismatch
    guard (verify_s256 s.s256 f.code_verifier code.code_challenge) pkce_failed
    guard (same_resource f.resource code.resource) target_mismatch

  -- A replay revokes everything that was issued from the code.
  unfoldable pub reject_replay : Code → M (Unit {0})
  reject_replay code =
      if is_some code.used_at then (do revoke_grant_of code; raise code_used) else pure tt

  -- `exchangeCode` once the code was found and the clock read.
  unfoldable pub exchange_at : ResolvedClient → CodeForm → Code → ℕ → M TokenResponse
  exchange_at client f code t = do
    reject_replay code
    check_code client f code t
    u ← available_user code.user_id
    redeem client (s.hash_secret f.code) code u t

  unfoldable pub exchange_code : ResolvedClient → CodeForm → M TokenResponse
  exchange_code client f = do
    guard (client_allows client authorization_code) unauthorized_client
    guard (not (f.code == [])) code_required
    code ← lookup_code (s.hash_secret f.code)
    t ← read_clock s
    exchange_at client f code t
