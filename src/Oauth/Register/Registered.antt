-- ===== src/Oauth/Register/Registered.antt =====
-- oauth/register.go, oauth/token.go: a client that was registered.
use go_idento.Prelude.{
  ℕ, ◌≡◌, ◌≢◌, ◌≤◌, ◌<◌, refl, subst, ap, inl, inr, ◌⊎◌, true, false, Option, none, some, List, [],
  ◌∷◌, arith, ◌==◌, Text, text_eq, text_beq, text_beq_iff, Bool-cases, Option-cases, all, length,
  nat_beq, any,
}
use go_idento.Dict.{get-put}
use go_idento.Identity.World.{World, now, fresh}
use go_idento.MemStore.State.{Store}
use go_idento.MemStore.Oauth as Methods
use go_idento.Oauth.Types.{Client}
use go_idento.Oauth.Urls.{validate_redirect_uri}
use go_idento.Oauth.Scopes.{has_scope}
use go_idento.Oauth.Server.{Server, ResolvedClient}
use go_idento.Oauth.Clients.{
  answer, method_none, method_basic, method_post, method_private_key_jwt, is_public,
  is_cimd_client_id, from_stored, resolve_client, check_client,
}
use go_idento.Oauth.Token.{authorization_code, client_allows}
use go_idento.Oauth.Register.{
  ClientMetadata, ClientRegistration, auth_method_of, is_auth_method, grants_of, check_metadata,
  register_valid, register,
}

-- What a registration must satisfy.
abbrev pub Allowed : Server → ClientMetadata → Type 0
Allowed s m =
    (0 < length m.redirect_uris)
    × (length m.redirect_uris ≤ 20)
    × (all (validate_redirect_uri s.web) m.redirect_uris ≡ true)
    × (is_auth_method (auth_method_of m) ≡ true)
    × (has_scope (grants_of m) authorization_code ≡ true)

check_metadata-Allowed : (s : Server) (m : ClientMetadata) → check_metadata s m ≡ none → Allowed s m
unfolding check_metadata
check_metadata-Allowed s m h = ground arith

-- A method of registered clients is not that with a key.
method_without_key : (t : Text) → is_auth_method t ≡ true → (t == method_private_key_jwt) ≡ false
unfolding text_beq
method_without_key t h = elim (Bool-cases (t == method_none)) [
  | inl e ↦ rw ((text_beq_iff t method_none).0 e) refl
  | inr e ↦ elim (Bool-cases (t == method_basic)) [
    | inl b ↦ rw ((text_beq_iff t method_basic).0 b) refl
    | inr b ↦ rw ((text_beq_iff t method_post).0 (ground (arith, h, e, b))) refl
  ]
]

scoped-NotEmpty :
    (gs : List Text) (g : Text) → has_scope gs g ≡ true → nat_beq (length gs) 0 ≡ false
unfolding has_scope any
scoped-NotEmpty [] g h = ground arith
scoped-NotEmpty (x ∷ gs) g h = ground arith

has_scope-Allows :
    (c : ResolvedClient) (g : Text) → has_scope c.grant_types g ≡ true → client_allows c g ≡ true
unfolding client_allows
has_scope-Allows c g h = rw (scoped-NotEmpty c.grant_types g h) h

-- A lookup of a client that was just stored.
resolve_client-create_client :
    (s : Server) (db : Store) (fetched : Text → Option ResolvedClient) (c : Client)
    → c.client_id ≢ []
    → is_cimd_client_id s c.client_id ≡ false
    → resolve_client s (Methods.create_client db c) fetched c.client_id ≡ some (from_stored c)
unfolding resolve_client Methods.create_client Methods.get_client
resolve_client-create_client s db fetched c named plain = ground (
  arith,
  plain,
  text_beq_iff c.client_id [],
  text_beq_iff c.client_id c.client_id,
  get-put db.oauth_clients c.client_id c.client_id c,
)

-- The secret of a client, or no secret for a public one.
abbrev SecretFits : Server → ResolvedClient → Text → Type 0
SecretFits s c secret =
    ((c.secret_hash ≡ []) × (secret ≡ []))
    ⊎ ((c.secret_hash ≡ s.hash_secret secret) × (c.secret_hash ≢ []) × (secret ≢ []))

check_client-Accepts :
    (s : Server) (c : ResolvedClient) (secret : Text)
    → (c.auth_method == method_private_key_jwt) ≡ false
    → SecretFits s c secret
    → check_client s c secret ≡ answer c
unfolding check_client is_public text_beq
check_client-Accepts s c secret m (inl (no_hash, no_secret)) =
    rw (no_hash, no_secret, m, check_client) refl
check_client-Accepts s c secret m (inr (fits, hashed, given)) = ground (
  arith,
  m,
  fits,
  text_beq_iff c.secret_hash [],
  text_beq_iff secret [],
  text_beq_iff (s.hash_secret secret) c.secret_hash,
  hashed,
  given,
)

module _ (s : Server) (fetched : Text → Option ResolvedClient) (m : ClientMetadata) (w : World)
    (random-NotEmpty : (n : ℕ) → s.env.random n ≢ [])
    (hash-NotEmpty : (t : Text) → s.hash_secret t ≢ []) where
  -- The client of the registration can use codes at its redirect URIs, all valid, with its secret.
  abbrev pub Usable : ClientRegistration → World → Type 0
  Usable reg w' =
      (c : ResolvedClient) × (resolve_client s w'.store fetched reg.client_id ≡ some c)
      × (check_client s c reg.client_secret ≡ answer c)
      × (client_allows c authorization_code ≡ true)
      × (c.redirect_uris ≡ m.redirect_uris)
      × (all (validate_redirect_uri s.web) c.redirect_uris ≡ true)

  register_valid-Usable :
      Allowed s m
      → is_cimd_client_id s (register_valid s m w).0.client_id ≡ false
      → Usable (register_valid s m w).0 (register_valid s m w).1
  unfolding register_valid now fresh
  register_valid-Usable (some_uri, few, valid, method, codes_allowed) plain = (
    _,
    resolve_client-create_client s _ fetched _ (random-NotEmpty w.draws) plain,
    check_client-Accepts s _ _ (method_without_key (auth_method_of m) method)
        (elim (Bool-cases (auth_method_of m == method_none)) [
          | inl e ↦ inl (rw e refl, rw e refl)
          | inr e ↦ inr (rw e refl, rw e (hash-NotEmpty _), rw e (random-NotEmpty _))
        ]),
    has_scope-Allows _ authorization_code codes_allowed,
    refl,
    valid,
  )

  -- A client that was registered is found under its id, is accepted with the secret that it was given,
  -- or with none if it is public, may use the code grant, and has the redirect URIs that it asked for,
  -- all of them valid; random texts and hashes are not empty, and the id is not the URL of a metadata
  -- document.
  pub register-Usable :
      (reg : ClientRegistration) (w' : World)
      → register s m w ≡ (answer reg, w')
      → is_cimd_client_id s reg.client_id ≡ false
      → Usable reg w'
  unfolding register
  register-Usable reg w' h plain = elim (Option-cases (check_metadata s m)) [
    | inr (e, bad) ↦ absurd (ground (arith, rw (bad, register) at h))
    | inl good ↦
        let done : (answer (register_valid s m w).0, (register_valid s m w).1) ≡ (answer reg, w') =
          rw (good, register) at h in
        let same : (register_valid s m w).0 ≡ reg = ground (arith, done) in
        subst (λ v. Usable reg v) (ap (λ p. p.1) done)
          (subst (λ r. Usable r (register_valid s m w).1) same
            (register_valid-Usable (check_metadata-Allowed s m good) (rw same plain)))
  ]
