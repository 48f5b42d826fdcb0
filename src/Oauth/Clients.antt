-- ===== src/Oauth/Clients.antt =====
-- oauth/server.go, oauth/token.go, oauth/util.go: who a client is, and what it may ask for. The text
-- of an error is not modelled.

use go_idento.Prelude.{
  ℕ, Bool, false, not, ◌&&◌, ◌||◌, Option, none, some, List, [], ◌∷◌, ◌==◌, if◌then◌else◌, Text,
  text_eq, codes, any, all, has_prefix, is_some,
}
use go_idento.Identity.Errors as Errors
use go_idento.MemStore.State.{Store}
use go_idento.MemStore.Oauth as Methods
use go_idento.Oauth.Types.{Client}
use go_idento.Oauth.Urls.{canonical_resource}
use go_idento.Oauth.Scopes.{has_scope, parse_scopes}
use go_idento.Oauth.Server.{Server, ResolvedClient}

-- The status and the `error` member of a response.
pub record Error : Type 0 where
  pub status : ℕ
  pub code : Text

-- A result, or an error response.
pub data Answer {ℓ} (A : Type ℓ) : Type ℓ where
  answer : A → Answer A
  refuse : Error → Answer A

abbrev pub bad_request : Text → Error
bad_request code = record { status = 400; code = code }

abbrev pub invalid_request : Error
invalid_request = bad_request (codes "invalid_request")

abbrev pub invalid_client : Error
invalid_client = record { status = 401; code = codes "invalid_client" }

abbrev pub server_failure : Error
server_failure = record { status = 500; code = codes "server_error" }

abbrev pub method_none : Text
method_none = codes "none"

abbrev pub method_basic : Text
method_basic = codes "client_secret_basic"

abbrev pub method_post : Text
method_post = codes "client_secret_post"

abbrev pub method_private_key_jwt : Text
method_private_key_jwt = codes "private_key_jwt"

unfoldable pub is_public : ResolvedClient → Bool
is_public c = c.secret_hash == [] && not (c.auth_method == method_private_key_jwt)

unfoldable pub is_cimd_client_id : Server → Text → Bool
is_cimd_client_id s client_id = has_prefix (s.web.to_lower client_id) (codes "https://")

abbrev pub from_stored : Client → ResolvedClient
from_stored c = record {
  id = c.client_id;
  name = c.name;
  display_host = [];
  redirect_uris = c.redirect_uris;
  auth_method = c.token_endpoint_auth_method;
  secret_hash = c.secret_hash;
  grant_types = c.grant_types;
  cimd = false;
  jwks_uri = [];
  keys = [];
  signing_alg = [];
}

-- `fetched` is what CIMDFetcher.Resolve gives for the id; it is asked only for the URL of a metadata
-- document. `none` is an error.
unfoldable pub resolve_client :
    Server → Store → (Text → Option ResolvedClient) → Text → Option ResolvedClient
resolve_client s db fetched client_id =
    if client_id == []
    then none
    else if is_cimd_client_id s client_id
    then (if s.allow_cimd then fetched client_id else none)
    else (elim (Methods.get_client db client_id) [
      | Errors.err e ↦ none
      | Errors.ok c ↦ some (from_stored c)
    ])

abbrev pub sole : List Text → Option Text
sole (r ∷ []) = some r
sole [] = none
sole (r ∷ t ∷ rs) = none

unfoldable pub resolve_resource : Server → Text → Option Text
resolve_resource s raw =
    if raw == [] then sole s.resource_list else (elim (canonical_resource s.web raw) [
      | none ↦ none
      | some c ↦ if any (λ r. r == c) s.resource_list then some c else none
    ])

abbrev default_of : Server → List Text
default_of s = elim s.default_scopes [ none ↦ s.scopes | some d ↦ d ]

-- `none` where a scope is unknown.
abbrev pub resolve_words : Server → List Text → Option (List Text)
resolve_words s [] = some (default_of s)
resolve_words s (sc ∷ req) = if all (has_scope s.scopes) (sc ∷ req) then some (sc ∷ req) else none

unfoldable pub resolve_scopes : Server → Text → Option (List Text)
resolve_scopes s raw = resolve_words s (parse_scopes raw)

-- What a request presents: the id and secret of HTTP Basic before they are unescaped, and the form.
pub record Credentials : Type 0 where
  pub basic : Option (Text × Text)
  pub client_id : Text
  pub client_secret : Text
  -- Whether the form has client_assertion or client_assertion_type.
  pub asserts : Bool

-- The id and the secret that are checked. `unescape` is url.QueryUnescape.
unfoldable pub presented : (Text → Option Text) → Credentials → Answer (Text × Text)
presented unescape r = elim r.basic [
  | none ↦ answer (r.client_id, r.client_secret)
  | some (basic_id, basic_secret) ↦
      if not (r.client_secret == []) then refuse invalid_request else (elim (unescape basic_id) [
        | none ↦ refuse invalid_client
        | some id ↦ elim (unescape basic_secret) [
          | none ↦ refuse invalid_client
          | some secret ↦
              if not (r.client_id == []) && not (r.client_id == id)
              then refuse invalid_client
              else answer (id, secret)
        ]
      ])
]

-- A client without a key of its own is checked by its secret.
unfoldable pub check_client : Server → ResolvedClient → Text → Answer ResolvedClient
check_client s client secret =
    if client.auth_method == method_private_key_jwt
    then refuse invalid_client
    else if is_public client
    then (if not (secret == []) then refuse invalid_client else answer client)
    else if secret == [] || not (s.hash_secret secret == client.secret_hash)
    then refuse invalid_client
    else answer client

abbrev identify :
    Server → Store → (Text → Option ResolvedClient) → Text × Text → Answer ResolvedClient
identify s db fetched (id, secret) =
    if id == [] then refuse invalid_client else (elim (resolve_client s db fetched id) [
      | none ↦ refuse invalid_client
      | some client ↦ check_client s client secret
    ])

-- `assertion` is what authenticateAssertion gives.
unfoldable pub authenticate_client :
    Server
    → Store
    → (Text → Option ResolvedClient)
    → (Text → Option Text)
    → Answer ResolvedClient
    → Credentials
    → Answer ResolvedClient
authenticate_client s db fetched unescape assertion r =
    if r.asserts
    then (if is_some r.basic || not (r.client_secret == [])
        then refuse invalid_request
        else assertion)
    else (elim (presented unescape r) [ refuse e ↦ refuse e | answer p ↦ identify s db fetched p ])
