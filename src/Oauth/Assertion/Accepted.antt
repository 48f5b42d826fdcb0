-- ===== src/Oauth/Assertion/Accepted.antt =====
-- oauth/client_assertion.go: what an accepted assertion satisfies.
use go_idento.Prelude.{
  List, Bool, ℕ, suc, ◌+◌, ◌≡◌, ◌≤◌, ◌∙◌, sym, ap, subst, inl, inr, true, not, ◌&&◌, ◌||◌, Option,
  none, some, [], arith, ◌==◌, Text, text_eq, text_beq_iff, pair_eq, pair_beq_iff, ltb, length,
  is_some, Bool-cases, Option-cases,
}
use go_idento.Dict
use go_idento.Dict.{get-put}
use go_idento.Identity.World.{World, now}
use go_idento.MemStore.State.{Store}
use go_idento.MemStore.Oauth as Methods
use go_idento.Oauth.Server.{Server, ResolvedClient, ClientKey}
use go_idento.Oauth.Clients.{answer, method_private_key_jwt, resolve_client}
use go_idento.Oauth.Assertion.{
  AssertionForm, AssertionClaims, Jwt, jwt_bearer, key_set, audiences, algs_of, spend, check_claims,
  verify_assertion, assert_client, authenticate_assertion,
}

-- What was put is there.
used :
    (db : Store) (k : Text × Text) (exp : ℕ)
    → is_some (Dict.get (Dict.put db.oauth_jtis k exp) k) ≡ true
used db k exp = ground (arith, get-put db.oauth_jtis k k exp, pair_beq_iff {A = Text} k k)

module _ (s : Server) (jwt : Jwt) (max_lifetime : ℕ)
    (keys_at : Text → Bool → Option (List ClientKey)) (endpoint : Text) where
  -- The id was not used before, and is used now.
  abbrev pub Spends : Text → Text → World → World → Type 0
  Spends id jti w w' =
      (Dict.get w.store.oauth_jtis (id, jti) ≡ none)
      × (is_some (Dict.get w'.store.oauth_jtis (id, jti)) ≡ true)

  spend-ok :
      (client c : ResolvedClient) (id : Text) (claims : AssertionClaims) (w w' : World)
      → spend s jwt max_lifetime keys_at endpoint client id claims w ≡ (answer c, w')
      → (client ≡ c) × Spends id claims.jti w w'
  unfolding Methods.use_client_assertion
  spend-ok client c id claims w w' h =
      elim (Option-cases (Dict.get w.store.oauth_jtis (id, claims.jti))) [
        | inl e ↦
            let done = rw (e, Methods.use_client_assertion) at h in
            (
              ground (arith, done),
              (
                e,
                subst (λ (v : World). is_some (Dict.get v.store.oauth_jtis (id, claims.jti)) ≡ true)
                    (ap (λ p. p.1) done) (used w.store (id, claims.jti) _),
              ),
            )
        | inr (x, e) ↦ absurd (ground (arith, rw (e, Methods.use_client_assertion) at h))
      ]

  check_claims-ok :
      (client c : ResolvedClient) (id : Text) (claims : AssertionClaims) (w w' : World)
      → check_claims s jwt max_lifetime keys_at endpoint client id claims w ≡ (answer c, w')
      → (client ≡ c) × (claims.exp ≤ s.env.clock w.reads + max_lifetime) × Spends id claims.jti w w'
  unfolding check_claims now
  check_claims-ok client c id claims w w' h =
      elim (Bool-cases (ltb (s.env.clock w.reads + max_lifetime) claims.exp)) [
        | inl e ↦ absurd (ground (arith, rw (e, check_claims) at h))
        | inr e ↦ elim (Bool-cases (claims.jti == [] || ltb 256 (length claims.jti))) [
          | inl n ↦ absurd (ground (arith, rw (e, check_claims, n) at h))
          | inr n ↦
              let (same, spent) =
                spend-ok client c id claims (record w { reads = suc w.reads }) w'
                  (rw (e, check_claims, n) at h) in
              (same, ground (arith, e), spent)
        ]
      ]

  -- The library accepted the assertion at the reading of the clock, for a client with a key, which
  -- the assertion names; its lifetime is bounded at the next reading; and its id is spent.
  abbrev pub Accepted :
      (Text → Option ResolvedClient) → AssertionForm → World → ResolvedClient → World → Type 0
  Accepted fetched f w c w' =
      (uc : AssertionClaims) × (claims : AssertionClaims) × (jwt.parse_unverified f.client_assertion
        ≡ some uc)
      × (resolve_client s w.store fetched uc.sub ≡ some c)
      × (c.auth_method ≡ method_private_key_jwt)
      × (jwt.verify (key_set keys_at c) (algs_of c) uc.sub (audiences s endpoint) f.client_assertion
            (s.env.clock w.reads)
          ≡ some claims)
      × (claims.exp ≤ s.env.clock (suc w.reads) + max_lifetime)
      × Spends uc.sub claims.jti w w'

  verify_assertion-ok :
      (client c : ResolvedClient) (id assertion : Text) (w w' : World)
      → verify_assertion s jwt max_lifetime keys_at endpoint client id assertion w ≡ (answer c, w')
      → (claims : AssertionClaims) × (client ≡ c)
        × (jwt.verify
              (key_set keys_at client)
              (algs_of client)
              id
              (audiences s endpoint)
              assertion
              (s.env.clock w.reads)
            ≡ some claims)
        × (claims.exp ≤ s.env.clock (suc w.reads) + max_lifetime)
        × Spends id claims.jti w w'
  unfolding verify_assertion now
  verify_assertion-ok client c id assertion w w' h =
      elim (Option-cases (
        jwt.verify (key_set keys_at client) (algs_of client) id (audiences s endpoint) assertion
          (s.env.clock w.reads))) [
            | inl e ↦ absurd (ground (arith, rw (e, verify_assertion) at h))
            | inr (claims, e) ↦
                let (same, life, spent) =
                  check_claims-ok client c id claims (record w { reads = suc w.reads }) w'
                    (rw (e, verify_assertion) at h) in
                (claims, same, e, life, spent)
          ]

  assert_client-ok :
      (fetched : Text → Option ResolvedClient) (f : AssertionForm) (uc : AssertionClaims)
      (c : ResolvedClient) (w w' : World)
      → assert_client s jwt max_lifetime keys_at endpoint fetched f uc w ≡ (answer c, w')
      → (resolve_client s w.store fetched uc.sub ≡ some c)
        × (c.auth_method ≡ method_private_key_jwt)
        × (verify_assertion s jwt max_lifetime keys_at endpoint c uc.sub f.client_assertion w
            ≡ (answer c, w'))
  unfolding assert_client
  assert_client-ok fetched f uc c w w' h =
      elim (Bool-cases (uc.sub == [] || not (uc.iss == uc.sub))) [
        | inl e ↦ absurd (ground (arith, rw (e, assert_client) at h))
        | inr e ↦ elim (Bool-cases (not (f.client_id == []) && not (f.client_id == uc.sub))) [
          | inl i ↦ absurd (ground (arith, rw (e, assert_client, i) at h))
          | inr i ↦ elim (Option-cases (resolve_client s w.store fetched uc.sub)) [
            | inl n ↦ absurd (ground (arith, rw (e, assert_client, i, n) at h))
            | inr (d, n) ↦ elim (Bool-cases (d.auth_method == method_private_key_jwt)) [
              | inr m ↦ absurd (ground (arith, rw (e, assert_client, i, n, m) at h))
              | inl m ↦
                  let checked = rw (e, assert_client, i, n, m) at h in
                  let same : d ≡ c =
                    (verify_assertion-ok d c uc.sub f.client_assertion w w' checked).1 in
                  (
                    n ∙ ap some same,
                    sym (ap (λ (r : ResolvedClient). r.auth_method) same)
                        ∙ (text_beq_iff d.auth_method method_private_key_jwt).0 m,
                    subst
                        (λ (x : ResolvedClient).
                          verify_assertion s jwt max_lifetime keys_at endpoint x uc.sub
                            f.client_assertion w
                          ≡ (answer c, w'))
                        same checked,
                  )
            ]
          ]
        ]
      ]

  -- A client is authenticated by an assertion only if the assertion names it, is accepted by the
  -- library with keys of that client, for the issuer or one of the endpoints as audience, and expires
  -- within the longest lifetime; and only if its
  -- id was not used before by the client, which is then recorded as used.
  pub authenticate_assertion_only :
      (fetched : Text → Option ResolvedClient) (f : AssertionForm) (c : ResolvedClient)
      (w w' : World)
      → authenticate_assertion s jwt max_lifetime keys_at endpoint fetched f w ≡ (answer c, w')
      → Accepted fetched f w c w'
  unfolding authenticate_assertion
  authenticate_assertion_only fetched f c w w' h =
      elim (Bool-cases (f.client_assertion_type == jwt_bearer)) [
        | inr e ↦ absurd (ground (arith, rw (e, authenticate_assertion) at h))
        | inl e ↦ elim (Bool-cases (f.client_assertion == [])) [
          | inl n ↦ absurd (ground (arith, rw (e, authenticate_assertion, n) at h))
          | inr n ↦ elim (Option-cases (jwt.parse_unverified f.client_assertion)) [
            | inl p ↦ absurd (ground (arith, rw (e, authenticate_assertion, n, p) at h))
            | inr (uc, p) ↦
                let (found, method, checked) =
                  assert_client-ok fetched f uc c w w'
                    (rw (e, authenticate_assertion, n, p) at h) in
                let (claims, _, ok, life, spent) =
                  verify_assertion-ok c c uc.sub f.client_assertion w w' checked in
                (uc, claims, p, found, method, ok, life, spent)
          ]
        ]
      ]
