-- ===== src/Oauth/Refresh.antt =====
-- oauth/token.go: the refresh token grant, the validation of access tokens and revocation.
mod Steps
pub mod Rotation
pub mod Validation
use go_idento.Prelude.{
  ℕ, ◌+◌, ◌≤◌, Bool, true, false, not, ◌&&◌, ◌||◌, Option, none, some, List, [], ◌∷◌, ◌==◌,
  if◌then◌else◌, Text, text_eq, codes, ltb, leb, cut, length, nat_beq,
}
use go_idento.Identity.Errors as Errors
use go_idento.Identity.Entities.{User}
use go_idento.Identity.World.{World, now}
use go_idento.Identity.Lockout.{is_locked_out}
use go_idento.MemStore.Users.{find_by_id}
use go_idento.MemStore.Oauth as Methods
use go_idento.Oauth.Types.{Grant}
use go_idento.Oauth.Scopes.{parse_scopes, contains_all}
use go_idento.Oauth.Urls.{canonical_resource}
use go_idento.Oauth.Server.{
  AccessClaims, Server, ResolvedClient, OauthError, unauthorized_client, target_mismatch,
  user_unavailable, token_invalid, token_of_another_client, token_used, token_expired,
  grant_revoked, scope_exceeded, Reply, ok, fail, M, ◌>>=◌, ◌>>◌, pure, raise, guard, read_clock,
  draw,
}
use go_idento.Oauth.Token.{
  TokenResponse, RefreshForm, client_allows, refresh_token, same_resource, available_user,
  token_response, opaque,
}

-- The id and the secret of a refresh token.
unfoldable pub split_token : Text → Option (Text × Text)
split_token token = elim (cut b'.' token) [
  | none ↦ none
  | some (gid, secret) ↦
      if gid == [] || (secret == [] || ltb 64 (length gid)) then none else some (gid, secret)
]

unfoldable pub lookup_grant : Text → M Grant
lookup_grant gid w = elim (Methods.get_grant w.store gid) [
  | Errors.err e ↦ (fail token_invalid, w)
  | Errors.ok g ↦ (ok g, w)
]

unfoldable pub drop_grant : Text → M (Unit {0})
drop_grant id w = (ok tt, record w { store = Methods.delete_grant w.store id })

module _ (s : Server) where
  -- A retry of the last secret inside the grace window.
  unfoldable pub in_grace : Grant → ℕ → Bool
  in_grace g t =
      ltb 0 s.refresh_reuse_grace
      && (elim g.last_used_at [ none ↦ false | some last ↦ leb t (last + s.refresh_reuse_grace) ])

  -- The presented secret is the current one. The last one coming back revokes the grant.
  unfoldable pub check_secret : Grant → Text → ℕ → M (Unit {0})
  check_secret g presented t =
      if not (g.token_hash == []) && presented == g.token_hash
      then pure tt
      else if not (g.prev_token_hash == []) && presented == g.prev_token_hash
      then if in_grace g t then raise token_used else (do drop_grant g.id; raise token_used)
      else raise token_invalid

  unfoldable pub check_expiry : Grant → ℕ → M (Unit {0})
  check_expiry g t =
      if ltb g.expires_at t then (do drop_grant g.id; raise token_expired) else pure tt

  unfoldable pub check_stamp : Grant → User → M (Unit {0})
  check_stamp g u =
      if u.security_stamp == g.security_stamp
      then pure tt
      else (do drop_grant g.id; raise grant_revoked)

  -- The scopes of the new access token: those asked for, if the grant has them all.
  unfoldable pub narrow : List Text → List Text → M (List Text)
  narrow granted [] = pure granted
  narrow granted (x ∷ xs) =
      if contains_all granted (x ∷ xs) then pure (x ∷ xs) else raise scope_exceeded

  unfoldable pub rotate : Grant → Text → ℕ → M (Unit {0})
  rotate g new_hash t w =
      let (won, store) =
        Methods.rotate_grant w.store g.id g.token_hash new_hash (t + s.refresh_token_ttl) t in
      (if won then ok tt else fail token_used, record w { store = store })

  unfoldable pub rotate_and_respond : Grant → User → List Text → ℕ → M TokenResponse
  rotate_and_respond g u scopes t = do
    new_secret ← draw s
    rotate g (s.hash_secret new_secret) t
    token_response s u g scopes (opaque s g.id new_secret)

  unfoldable pub refresh_checked : RefreshForm → Grant → ℕ → M TokenResponse
  refresh_checked f g t = do
    check_expiry g t
    guard (same_resource s f.resource g.resource) target_mismatch
    u ← available_user s g.user_id
    check_stamp g u
    scopes ← narrow (parse_scopes g.scopes) (parse_scopes f.scope)
    rotate_and_respond g u scopes t

  unfoldable pub refresh_by : ResolvedClient → RefreshForm → Text × Text → M TokenResponse
  refresh_by client f (gid, secret) = do
    g ← lookup_grant gid
    guard (g.client_id == client.id) token_of_another_client
    t ← read_clock s
    check_secret g (s.hash_secret secret) t
    refresh_checked f g t

  unfoldable pub refresh_grant : ResolvedClient → RefreshForm → M TokenResponse
  refresh_grant client f = do
    guard (client_allows client refresh_token) unauthorized_client
    elim (split_token f.refresh_token) [
      | none ↦ raise token_invalid
      | some parts ↦ refresh_by client f parts
    ]

  -- `ValidateResourceToken`: every failure is the one of an invalid token.
  unfoldable pub valid_claims : AccessClaims → World → Option User × World
  valid_claims c w =
      if c.sub == [] || c.gid == [] then (none, w) else (elim (find_by_id w.store c.sub) [
        | Errors.err e ↦ (none, w)
        | Errors.ok u ↦
            if not (c.security_stamp == u.security_stamp)
            then (none, w)
            else let (locked, w') = is_locked_out s.env u w in
              (
                if locked then none else (elim (Methods.get_grant w.store c.gid) [
                  | Errors.err e ↦ none
                  | Errors.ok g ↦ if g.user_id == u.id then some u else none
                ]),
                w',
              )
      ])

  -- The JWT library reads the clock once.
  unfoldable pub validate_resource_token :
      Text → Text → World → Option (User × AccessClaims) × World
  validate_resource_token token resource w = elim (canonical_resource s.web resource) [
    | none ↦ (none, w)
    | some res ↦
        let (t, w1) = now s.env w in
        elim (s.verify token res t) [
          | none ↦ (none, w1)
          | some (typ, c) ↦
              if not (s.web.equal_fold typ (codes "at+jwt"))
              then (none, w1)
              else let (r, w') = valid_claims c w1 in
                (elim r [ none ↦ none | some u ↦ some (u, c) ], w')
        ]
  ]
