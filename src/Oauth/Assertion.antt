-- ===== src/Oauth/Assertion.antt =====
-- oauth/client_assertion.go: the authentication of a client by a signed assertion. The JWT library and
-- the fetching of the keys that a client publishes are parameters.
pub mod Accepted
pub mod Keys
use go_idento.Prelude.{
  Bool, true, false, keep, ℕ, ◌+◌, ◌*◌, not, ◌&&◌, ◌||◌, Option, none, some, List, [], ◌∷◌, ◌==◌,
  if◌then◌else◌, Text, text_eq, codes, ltb, length,
}
use go_idento.Identity.World.{World, now}
use go_idento.MemStore.Oauth as Methods
use go_idento.Oauth.Server.{Server, ResolvedClient, ClientKey, KeyType, rsa, ec, endpoint_at}
use go_idento.Oauth.Clients.{
  Answer, answer, refuse, invalid_request, invalid_client, method_private_key_jwt, resolve_client,
}
use go_idento.Oauth.Token.{second}
use go_idento.Oauth.Cimd.Documents.{assertion_signing_algs}

-- The form values that are read.
pub record AssertionForm : Type 0 where
  pub client_assertion_type : Text
  pub client_assertion : Text
  pub client_id : Text

-- The claims of an assertion; one that is no text is empty. `exp` is in nanoseconds.
pub record AssertionClaims : Type 0 where
  pub iss : Text
  pub sub : Text
  pub exp : ℕ
  pub jti : Text

pub record Jwt : Type 0 where
  pub parse_unverified : Text → Option AssertionClaims
  -- jwt.Parse with a function from the algorithm and the `kid` of the token to keys, for algorithms, an
  -- issuer who is the subject, audiences, and a time: the claims, whose expiry is there.
  pub verify :
      (Text → Text → Option (List ClientKey))
      → List Text
      → Text
      → List Text
      → Text
      → ℕ
      → Option AssertionClaims

abbrev pub jwt_bearer : Text
jwt_bearer = codes "urn:ietf:params:oauth:client-assertion-type:jwt-bearer"

abbrev assertion_leeway : ℕ
assertion_leeway = 30 * second

abbrev pub algs_of : ResolvedClient → List Text
algs_of c = if c.signing_alg == [] then assertion_signing_algs else c.signing_alg ∷ []

unfoldable pub fits : ClientKey → Text → Bool
fits k alg =
    if not (k.alg == []) && not (k.alg == alg)
    then false
    else (elim k.key_type [ rsa ↦ alg == codes "RS256" | ec ↦ alg == codes "ES256" ])

-- The keys that can verify a token with this algorithm and `kid`.
unfoldable pub pick : List ClientKey → Text → Text → List ClientKey
pick keys alg kid = keep (λ k. fits k alg && (kid == [] || k.kid == kid)) keys

abbrev pub unless_empty : List ClientKey → Option (List ClientKey)
unless_empty [] = none
unless_empty (k ∷ ks) = some (k ∷ ks)

-- `keyfunc`. The keys at a URI are fetched again, once, where none fits a token with a `kid`.
unfoldable pub key_set :
    (Text → Bool → Option (List ClientKey)) → ResolvedClient → Text → Text → Option (List ClientKey)
key_set keys_at client alg kid =
    elim (if client.jwks_uri == [] then some client.keys else keys_at client.jwks_uri false) [
      | none ↦ none
      | some keys ↦ elim (unless_empty (pick keys alg kid)) [
        | some set ↦ some set
        | none ↦
            if not (kid == []) && not (client.jwks_uri == [])
            then (elim (keys_at client.jwks_uri true) [
              | none ↦ none
              | some fetched ↦ unless_empty (pick fetched alg kid)
            ])
            else none
      ]
    ]

-- The issuer, the token endpoint, and the endpoint of the request where it is another one.
unfoldable pub audiences : Server → Text → List Text
audiences s endpoint =
    let token = endpoint_at s s.token_path in
    s.issuer ∷ token ∷ (if endpoint == token then [] else endpoint ∷ [])

-- `keys_at` is CIMDFetcher.jwks: the keys at a URI, with a wish to fetch them again.
module _ (s : Server) (jwt : Jwt) (max_lifetime : ℕ)
    (keys_at : Text → Bool → Option (List ClientKey)) (endpoint : Text) where
  -- The id is recorded; one that was used before is refused.
  abbrev pub spend : ResolvedClient → Text → AssertionClaims → World → Answer ResolvedClient × World
  spend client client_id claims w =
      let (fresh, db) =
        Methods.use_client_assertion w.store client_id claims.jti (claims.exp + assertion_leeway) in
      (if fresh then answer client else refuse invalid_client, record w { store = db })

  -- The checks behind the signature.
  unfoldable pub check_claims :
      ResolvedClient → Text → AssertionClaims → World → Answer ResolvedClient × World
  check_claims client client_id claims w =
      let (t, w') = now s.env w in
      if ltb (t + max_lifetime) claims.exp
      then (refuse invalid_client, w')
      else if claims.jti == [] || ltb 256 (length claims.jti)
      then (refuse invalid_client, w')
      else spend client client_id claims w'

  -- The library reads the clock once.
  unfoldable pub verify_assertion :
      ResolvedClient → Text → Text → World → Answer ResolvedClient × World
  verify_assertion client client_id assertion w =
      let (t, w') = now s.env w in
      elim (jwt.verify (key_set keys_at client) (algs_of client) client_id (audiences s endpoint)
        assertion t) [
          | none ↦ (refuse invalid_client, w')
          | some claims ↦ check_claims client client_id claims w'
        ]

  unfoldable pub assert_client :
      (Text → Option ResolvedClient)
      → AssertionForm
      → AssertionClaims
      → World
      → Answer ResolvedClient × World
  assert_client fetched f uc w =
      if uc.sub == [] || not (uc.iss == uc.sub)
      then (refuse invalid_client, w)
      else if not (f.client_id == []) && not (f.client_id == uc.sub)
      then (refuse invalid_client, w)
      else (elim (resolve_client s w.store fetched uc.sub) [
        | none ↦ (refuse invalid_client, w)
        | some client ↦
            if not (client.auth_method == method_private_key_jwt)
            then (refuse invalid_client, w)
            else verify_assertion client uc.sub f.client_assertion w
      ])

  unfoldable pub authenticate_assertion :
      (Text → Option ResolvedClient) → AssertionForm → World → Answer ResolvedClient × World
  authenticate_assertion fetched f w =
      if not (f.client_assertion_type == jwt_bearer)
      then (refuse invalid_client, w)
      else if f.client_assertion == []
      then (refuse invalid_request, w)
      else (elim (jwt.parse_unverified f.client_assertion) [
        | none ↦ (refuse invalid_client, w)
        | some uc ↦ assert_client fetched f uc w
      ])
