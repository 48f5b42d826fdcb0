-- ===== src/Oauth/Examples/Asserting.antt =====
-- A run of oauth/client_assertion.go.
use go_idento.Prelude.{
  ◌∷◌, false, inl, keep, none, Bool, List, [], ◌≡◌, refl, some, true, Text, Option, text_eq,
  text_beq, codes, has_prefix,
}
use go_idento.Dict
use go_idento.Identity.World.{World, now}
use go_idento.MemStore.Oauth as Methods
use go_idento.Oauth.Server.{Server, ResolvedClient, ClientKey, rsa}
use go_idento.Oauth.Clients.{answer, is_cimd_client_id, resolve_client, method_private_key_jwt}
use go_idento.Oauth.Assertion.{
  AssertionForm, AssertionClaims, Jwt, jwt_bearer, check_claims, verify_assertion, assert_client,
  authenticate_assertion,
}
use go_idento.Oauth.Assertion.{fits, pick, key_set}
use go_idento.Oauth.Assertion.Keys.{Suits, key_set-Suits}
use go_idento.Oauth.Assertion.Accepted.{Accepted, authenticate_assertion_only}
use go_idento.Oauth.Examples.{client0, code0, server0, world0}

abbrev issuer0 : Text
issuer0 = codes "https://h/c"

abbrev document_server0 : Server
document_server0 = record server0 { allow_cimd = true }

abbrev claims1 : AssertionClaims
claims1 = record { iss = issuer0; sub = issuer0; exp = 1500; jti = codes "j" }

abbrev jwt0 : Jwt
jwt0 = record { parse_unverified = λ _. some claims1; verify = λ _ _ _ _ _ _. some claims1 }

abbrev form0 : AssertionForm
form0 = record { client_assertion_type = jwt_bearer; client_assertion = codes "a"; client_id = [] }

abbrev keyed0 : ResolvedClient
keyed0 = record client0 { id = issuer0; auth_method = method_private_key_jwt; cimd = true }

abbrev no_keys : Text → Bool → Option (List ClientKey)
no_keys uri again = none

abbrev fetched0 : Text → Option ResolvedClient
fetched0 = λ _. some keyed0

abbrev spent0 : World
spent0 = record (world0 code0) {
  store = (Methods.use_client_assertion (world0 code0).store issuer0 (codes "j") 30000001500).1;
  reads = 2;
}

accepted0 :
    authenticate_assertion document_server0 jwt0 1000 no_keys
      (codes "i/t")
      fetched0
      form0
      (world0 code0)
    ≡ (answer keyed0, spent0)
unfolding authenticate_assertion assert_client verify_assertion check_claims resolve_client
    is_cimd_client_id has_prefix now Methods.use_client_assertion Dict.get Dict.put Dict.empty
    text_beq
accepted0 = refl

authenticate_assertion_only_example :
    Accepted document_server0 jwt0 1000 no_keys
      (codes "i/t")
      fetched0
      form0
      (world0 code0)
      keyed0
      spent0
authenticate_assertion_only_example =
    authenticate_assertion_only document_server0 jwt0 1000 no_keys (codes "i/t") fetched0 form0
      keyed0 (world0 code0) spent0 accepted0

abbrev key0 : ClientKey
key0 = record { kid = codes "k"; alg = []; key_type = rsa; key = codes "n" }

-- The key is found when the keys are fetched again.
abbrev rotated_keys : Text → Bool → Option (List ClientKey)
rotated_keys uri false = some []
rotated_keys uri true = some (key0 ∷ [])

abbrev remote0 : ResolvedClient
remote0 = record client0 { jwks_uri = codes "u" }

found0 : key_set rotated_keys remote0 (codes "RS256") (codes "k") ≡ some (key0 ∷ [])
unfolding key_set pick keep fits text_beq
found0 = refl

key_set-Suits_example : Suits rotated_keys remote0 (codes "RS256") (codes "k") key0
key_set-Suits_example =
    key_set-Suits rotated_keys remote0 (codes "RS256") (codes "k") (key0 ∷ []) key0 found0
      (inl refl)
