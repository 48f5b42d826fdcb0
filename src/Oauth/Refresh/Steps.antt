-- ===== src/Oauth/Refresh/Steps.antt =====
-- oauth/token.go: what is known after each step of a refresh that succeeds.
use go_idento.Prelude.{
  ℕ, ◌+◌, ◌≤◌, ◌≡◌, refl, ◌≢◌, inl, inr, ◌⊎◌, true, some, List, [], ◌∷◌, arith, Text, subst,
  text_eq, text_beq_iff, Option-cases,
}
use go_idento.Dict
use go_idento.Dict.{get-put, get-remove}
use go_idento.Identity.Entities.{User}
use go_idento.Identity.World.{World, now, fresh}
use go_idento.MemStore.Oauth as Methods
use go_idento.Oauth.Types.{Grant}
use go_idento.Oauth.Scopes.{join_scopes, contains_all}
use go_idento.MemStore.Memberships.{get_roles}
use go_idento.Oauth.Server.{AccessClaims, Server, ok, continue, read_clock, pure}
use go_idento.Oauth.Server.Inversion.{continue-ok}
use go_idento.Oauth.Token.{
  TokenResponse, token_response, sign_access_token, claims_of, opaque, seconds_until,
}
use go_idento.Oauth.Refresh.{
  lookup_grant, drop_grant, check_secret, check_expiry, check_stamp, narrow, rotate,
  rotate_and_respond,
}

module _ (s : Server) where
  pub lookup_grant-ok :
      (gid : Text) (w w' : World) (g : Grant)
      → lookup_grant gid w ≡ (ok g, w')
      → (Dict.get w.store.oauth_grants gid ≡ some g) × (w ≡ w')
  unfolding lookup_grant Methods.get_grant
  lookup_grant-ok gid w w' g h = ground arith

  pub check_secret-ok :
      (g : Grant) (presented : Text) (t : ℕ) (w w' : World)
      → check_secret s g presented t w ≡ (ok tt, w')
      → (g.token_hash ≢ []) × (presented ≡ g.token_hash) × (w ≡ w')
  unfolding check_secret drop_grant
  check_secret-ok g presented t w w' h =
      ground (arith, text_beq_iff g.token_hash [], text_beq_iff presented g.token_hash)

  pub check_expiry-ok :
      (g : Grant) (t : ℕ) (w w' : World)
      → check_expiry s g t w ≡ (ok tt, w')
      → (t ≤ g.expires_at) × (w ≡ w')
  unfolding check_expiry drop_grant
  check_expiry-ok g t w w' h = ground arith

  pub check_stamp-ok :
      (g : Grant) (u : User) (w w' : World)
      → check_stamp s g u w ≡ (ok tt, w')
      → (u.security_stamp ≡ g.security_stamp) × (w ≡ w')
  unfolding check_stamp drop_grant
  check_stamp-ok g u w w' h = ground (arith, text_beq_iff u.security_stamp g.security_stamp)

  pub narrow-ok :
      (granted asked scopes : List Text) (w w' : World)
      → narrow s granted asked w ≡ (ok scopes, w')
      → ((asked ≡ []) × (scopes ≡ granted))
        ⊎ ((scopes ≡ asked) × (contains_all granted scopes ≡ true))
  unfolding narrow
  narrow-ok granted [] scopes w w' h = inl (refl, ground arith)
  narrow-ok granted (x ∷ xs) scopes w w' h = inr (ground arith)

  -- The grant after a rotation.
  abbrev pub rotated : Grant → Text → Text → ℕ → Grant
  rotated cur old_hash new_hash t = record cur {
    token_hash = new_hash;
    prev_token_hash = old_hash;
    expires_at = t + s.refresh_token_ttl;
    last_used_at = some t;
  }

  pub rotate-ok :
      (g : Grant) (new_hash : Text) (t : ℕ) (w w' : World)
      → rotate s g new_hash t w ≡ (ok tt, w')
      → (cur : Grant) × (Dict.get w.store.oauth_grants g.id ≡ some cur)
        × (Dict.get w'.store.oauth_grants g.id ≡ some (rotated cur g.token_hash new_hash t))
  unfolding rotate Methods.rotate_grant
  rotate-ok g new_hash t w w' h = elim (Option-cases (Dict.get w.store.oauth_grants g.id)) [
    | inl e ↦ ground arith
    | inr (cur, e) ↦ (
      cur,
      e,
      ground (
        arith,
        text_beq_iff g.id g.id,
        get-put w.store.oauth_grants g.id g.id (rotated cur g.token_hash new_hash t),
      ),
    )
  ]

  -- The token is the signature of claims for the user, the grant with its client and resource, and
  -- these scopes.
  abbrev pub IsSigned : User → Grant → List Text → Text → Type 0
  IsSigned u g scopes token =
      (c : AccessClaims) × (s.sign c ≡ some token)
      × (c.iss ≡ s.issuer)
      × (c.sub ≡ u.id)
      × (c.aud ≡ g.resource)
      × (c.client_id ≡ g.client_id)
      × (c.scope ≡ join_scopes scopes)
      × (c.gid ≡ g.id)
      × (c.security_stamp ≡ u.security_stamp)

  pub sign_access_token-ok :
      (u : User) (g : Grant) (scopes : List Text) (signed : Text × ℕ) (w w' : World)
      → sign_access_token s u g scopes w ≡ (ok signed, w')
      → (w'.store ≡ w.store) × IsSigned u g scopes signed.0
  unfolding sign_access_token now fresh
  sign_access_token-ok u g scopes signed w w' h =
      let c : AccessClaims =
        claims_of s u g scopes (get_roles w.store u) (s.env.random w.draws) (s.env.clock w.reads) in
      elim (Option-cases (s.sign c)) [
        | inl e ↦ absurd (ground (arith, rw (e, sign_access_token) at h))
        | inr (token, e) ↦ (
          ground (arith, rw (e, sign_access_token) at h),
          (
            c,
            ground (arith, rw (e, sign_access_token) at h),
            refl,
            refl,
            refl,
            refl,
            refl,
            refl,
            refl,
          ),
        )
      ]

  pub token_response-ok :
      (u : User) (g : Grant) (scopes : List Text) (refresh : Text) (resp : TokenResponse)
      (w w' : World)
      → token_response s u g scopes refresh w ≡ (ok resp, w')
      → (resp.refresh ≡ refresh)
        × (resp.scope ≡ join_scopes scopes)
        × (w'.store ≡ w.store)
        × IsSigned u g scopes resp.access_token
  unfolding token_response now
  token_response-ok u g scopes refresh resp w w' h =
      let (a, w1, e, h1) =
        continue-ok (sign_access_token s u g scopes w)
          (λ signed v. continue (read_clock s v) (λ t. pure (record {
            access_token = signed.0;
            expires_in = seconds_until signed.1 t;
            refresh = refresh;
            scope = join_scopes scopes;
          })))
          resp w' h in
      let (kept, signed) = sign_access_token-ok u g scopes a w w1 e in
      let same : a.0 ≡ resp.access_token = ground arith in
      (ground arith, ground arith, ground arith, subst (IsSigned u g scopes) same signed)

  pub rotate_and_respond-ok :
      (g : Grant) (u : User) (scopes : List Text) (t : ℕ) (resp : TokenResponse) (w w' : World)
      → rotate_and_respond s g u scopes t w ≡ (ok resp, w')
      → (secret : Text) × (cur : Grant) × (Dict.get w.store.oauth_grants g.id ≡ some cur)
        × (Dict.get w'.store.oauth_grants g.id
            ≡ some (rotated cur g.token_hash (s.hash_secret secret) t))
        × (resp.refresh ≡ opaque s g.id secret)
        × (resp.scope ≡ join_scopes scopes)
        × IsSigned u g scopes resp.access_token
  unfolding rotate_and_respond fresh
  rotate_and_respond-ok g u scopes t resp w w' h =
      let (secret, v) = fresh s.env w in
      let (x, a, r, h1) =
        continue-ok (rotate s g (s.hash_secret secret) t v)
          (λ _. token_response s u g scopes (opaque s g.id secret)) resp w' h in
      let (cur, stored, after) = rotate-ok g (s.hash_secret secret) t v a r in
      let (token, scope, kept, signed) =
        token_response-ok u g scopes (opaque s g.id secret) resp a w' h1 in
      (secret, cur, ground arith, ground arith, token, scope, signed)
