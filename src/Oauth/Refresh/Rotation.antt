-- ===== src/Oauth/Refresh/Rotation.antt =====
-- oauth/token.go: refresh tokens, their reuse and their rotation.
use go_idento.Prelude.{
  ℕ, ◌≤◌, ◌≡◌, ◌≢◌, inl, inr, ◌⊎◌, true, false, none, some, List, [], arith, ◌==◌, Text, text_eq,
  text_beq_iff, Option-cases, Bool-cases,
}
use go_idento.Dict
use go_idento.Dict.{get-put, get-remove}
use go_idento.Identity.Entities.{User}
use go_idento.Identity.World.{World, now, fresh}
use go_idento.Identity.Lockout.{is_locked_out}
use go_idento.MemStore.Oauth as Methods
use go_idento.Oauth.Types.{Grant}
use go_idento.Oauth.Scopes.{parse_scopes, join_scopes, contains_all}
use go_idento.Oauth.Server.{
  Server, ResolvedClient, target_mismatch, token_used, token_of_another_client, ok, fail, continue,
  guard,
}
use go_idento.Oauth.Server.Inversion.{continue-ok, guard-ok}
use go_idento.Oauth.Token.{
  TokenResponse, RefreshForm, client_allows, refresh_token, same_resource, available_user, opaque,
}
use go_idento.Oauth.Token.Inversion.{available_user-ok}
use go_idento.Oauth.Refresh.Steps.{
  lookup_grant-ok, check_secret-ok, check_expiry-ok, check_stamp-ok, narrow-ok,
  rotate_and_respond-ok, rotated, IsSigned,
}
use go_idento.Oauth.Refresh.{
  split_token, lookup_grant, drop_grant, in_grace, check_secret, check_expiry, check_stamp, narrow,
  rotate_and_respond, refresh_checked, refresh_by, refresh_grant,
}

module _ (s : Server) where
  -- A client that may refresh and presents the previous secret of one of its grants, which is not the
  -- current one, outside of the grace window is refused, and the grant is gone from the store.
  pub reuse_revokes :
      (client : ResolvedClient) (f : RefreshForm) (gid secret : Text) (w : World) (g : Grant)
      → client_allows client refresh_token ≡ true
      → split_token f.refresh_token ≡ some (gid, secret)
      → Dict.get w.store.oauth_grants gid ≡ some g
      → g.id ≡ gid
      → g.client_id ≡ client.id
      → s.hash_secret secret ≡ g.prev_token_hash
      → g.prev_token_hash ≢ []
      → g.prev_token_hash ≢ g.token_hash
      → in_grace s g (s.env.clock w.reads) ≡ false
      → let r = refresh_grant s client f w in
        (r.0 ≡ fail token_used) × (Dict.get r.1.store.oauth_grants gid ≡ none)
  unfolding refresh_grant refresh_by lookup_grant Methods.get_grant check_secret drop_grant
      Methods.delete_grant now
  reuse_revokes client f gid secret w g allowed parts stored id own prev given fresh late = (
    ground (
      arith,
      text_beq_iff g.client_id client.id,
      text_beq_iff g.prev_token_hash [],
      text_beq_iff g.token_hash [],
      text_beq_iff (s.hash_secret secret) g.token_hash,
      text_beq_iff (s.hash_secret secret) g.prev_token_hash,
    ),
    ground (
      arith,
      text_beq_iff g.client_id client.id,
      text_beq_iff g.prev_token_hash [],
      text_beq_iff g.token_hash [],
      text_beq_iff (s.hash_secret secret) g.token_hash,
      text_beq_iff (s.hash_secret secret) g.prev_token_hash,
      get-remove w.store.oauth_grants gid gid,
      text_beq_iff gid gid,
    ),
  )

  refresh_checked-ok :
      (f : RefreshForm) (g : Grant) (t : ℕ) (resp : TokenResponse) (w w' : World)
      → refresh_checked s f g t w ≡ (ok resp, w')
      → (t ≤ g.expires_at)
        × (same_resource s f.resource g.resource ≡ true)
        × ((u : User) × (scopes : List Text) × (w1 : World) × (Dict.get w.store.users g.user_id
              ≡ some u)
            × ((is_locked_out s.env u w).0 ≡ false)
            × (u.security_stamp ≡ g.security_stamp)
            × (scopes ≡ parse_scopes g.scopes ⊎ contains_all (parse_scopes g.scopes) scopes ≡ true)
            × (rotate_and_respond s g u scopes t w1 ≡ (ok resp, w')))
  unfolding refresh_checked
  refresh_checked-ok f g t resp w w' h =
      let asked = narrow s (parse_scopes g.scopes) (parse_scopes f.scope) in
      let k4 = λ (u : User) (scopes : List Text). rotate_and_respond s g u scopes t in
      let k3 = λ (u : User) (_ : Unit {0}) (v : World). continue (asked v) (k4 u) in
      let k2 = λ (u : User) (v : World). continue (check_stamp s g u v) (k3 u) in
      let k1 = λ (_ : Unit {0}) (v : World). continue (available_user s g.user_id v) k2 in
      let (x, a, r, h1) =
        continue-ok (check_expiry s g t w)
          (λ _ v. continue (guard (same_resource s f.resource g.resource) target_mismatch v) k1)
          resp w' h in
      let (time, e1) = check_expiry-ok s g t w a r in
      let (bound, h2) =
        guard-ok (same_resource s f.resource g.resource) target_mismatch k1 resp a w' h1 in
      let (u, b, av, h3) = continue-ok (available_user s g.user_id a) k2 resp w' h2 in
      let (owner, unlocked, e2) = available_user-ok s g.user_id a b u av in
      let (y, c, st, h4) = continue-ok (check_stamp s g u b) (k3 u) resp w' h3 in
      let (same, e3) = check_stamp-ok s g u b c st in
      let (scopes, d, nr, h5) = continue-ok (asked c) (k4 u) resp w' h4 in
      let part = narrow-ok s (parse_scopes g.scopes) (parse_scopes f.scope) scopes c d nr in
      (time, bound, (u, scopes, d, ground arith, ground arith, same, ground arith, h5))

  refresh_by-ok :
      (client : ResolvedClient) (f : RefreshForm) (gid secret : Text) (resp : TokenResponse)
      (w w' : World)
      → refresh_by s client f (gid, secret) w ≡ (ok resp, w')
      → (g : Grant) × (Dict.get w.store.oauth_grants gid ≡ some g)
        × (g.client_id ≡ client.id)
        × (g.token_hash ≢ [])
        × (s.hash_secret secret ≡ g.token_hash)
        × (refresh_checked s f g (s.env.clock w.reads) (now s.env w).1 ≡ (ok resp, w'))
  unfolding refresh_by now
  refresh_by-ok client f gid secret resp w w' h =
      let k = λ (g : Grant) (t : ℕ) (_ : Unit {0}). refresh_checked s f g t in
      let k1 = λ (g : Grant) (_ : Unit {0}) (v : World).
        continue (check_secret s g (s.hash_secret secret) (now s.env v).0 (now s.env v).1)
          (k g (now s.env v).0) in
      let k0 = λ (g : Grant) (v : World).
        continue (guard (g.client_id == client.id) token_of_another_client v) (k1 g) in
      let (g, a, l, h1) = continue-ok (lookup_grant gid w) k0 resp w' h in
      let (stored, e1) = lookup_grant-ok s gid w a g l in
      let (own, h2) =
        guard-ok (g.client_id == client.id) token_of_another_client (k1 g) resp a w' h1 in
      let (x, b, c, h3) =
        continue-ok (check_secret s g (s.hash_secret secret) (now s.env a).0 (now s.env a).1)
          (k g (now s.env a).0) resp w' h2 in
      let (given, proved, e2) =
        check_secret-ok s g (s.hash_secret secret) (now s.env a).0 (now s.env a).1 b c in
      (g, stored, ground (arith, text_beq_iff g.client_id client.id), given, proved, ground arith)

  refresh_grant-ok :
      (client : ResolvedClient) (f : RefreshForm) (resp : TokenResponse) (w w' : World)
      → refresh_grant s client f w ≡ (ok resp, w')
      → (client_allows client refresh_token ≡ true)
        × ((gid : Text) × (secret : Text) × (split_token f.refresh_token ≡ some (gid, secret))
            × (refresh_by s client f (gid, secret) w ≡ (ok resp, w')))
  unfolding refresh_grant
  refresh_grant-ok client f resp w w' h = elim (Bool-cases (client_allows client refresh_token)) [
    | inr denied ↦ ground arith
    | inl allowed ↦ elim (Option-cases (split_token f.refresh_token)) [
      | inl e ↦ ground arith
      | inr ((gid, secret), e) ↦ (allowed, (gid, secret, e, ground arith))
    ]
  ]

  -- What a refresh requires, and what it does.
  abbrev pub Refreshed : ResolvedClient → RefreshForm → TokenResponse → World → World → Type 0
  Refreshed client f resp w w' =
      (client_allows client refresh_token ≡ true)
      × (gid : Text) × (secret : Text) × (g : Grant) × (u : User) × (scopes : List Text)
      × (new_secret : Text) × (cur : Grant) × (split_token f.refresh_token ≡ some (gid, secret))
      × (Dict.get w.store.oauth_grants gid ≡ some g)
      × (g.client_id ≡ client.id)
      × (g.token_hash ≢ [])
      × (s.hash_secret secret ≡ g.token_hash)
      × (s.env.clock w.reads ≤ g.expires_at)
      × (same_resource s f.resource g.resource ≡ true)
      × (Dict.get w.store.users g.user_id ≡ some u)
      × ((is_locked_out s.env u (now s.env w).1).0 ≡ false)
      × (u.security_stamp ≡ g.security_stamp)
      × (scopes ≡ parse_scopes g.scopes ⊎ contains_all (parse_scopes g.scopes) scopes ≡ true)
      × (resp.scope ≡ join_scopes scopes)
      × IsSigned s u g scopes resp.access_token
      × (resp.refresh ≡ opaque s g.id new_secret)
      × (Dict.get w'.store.oauth_grants g.id
          ≡ some (rotated s cur g.token_hash (s.hash_secret new_secret) (s.env.clock w.reads)))

  -- A refresh succeeds only if the client may use the grant and the token names a stored grant of this
  -- client whose current secret it holds, the grant has not expired and fits the resource where the
  -- request names one, and its user exists, is not locked out and has the security stamp under which the
  -- grant was given. The new access token is signed for this user, the grant, its client and its
  -- resource, with the scopes of the grant or some of them, which the response names too; and the grant
  -- afterwards holds the new secret, that of the response, and remembers the one it replaced.
  pub refresh_only :
      (client : ResolvedClient) (f : RefreshForm) (resp : TokenResponse) (w w' : World)
      → refresh_grant s client f w ≡ (ok resp, w')
      → Refreshed client f resp w w'
  unfolding now
  refresh_only client f resp w w' h =
      let (allowed, (gid, secret, e, h1)) = refresh_grant-ok client f resp w w' h in
      let (g, stored, own, given, proved, h2) = refresh_by-ok client f gid secret resp w w' h1 in
      let t = s.env.clock w.reads in
      let (time, bound, (u, scopes, w1, owner, unlocked, same, part, h3)) =
        refresh_checked-ok f g t resp (now s.env w).1 w' h2 in
      let (new_secret, cur, was, after, token, scope, signed) =
        rotate_and_respond-ok s g u scopes t resp w1 w' h3 in
      (
        allowed, gid, secret, g, u, scopes, new_secret, cur, e, stored, own, given, proved, time,
        bound, owner, unlocked, same, part, scope, signed, token, after,
      )
