-- ===== src/Oauth/Examples/Authorizing.antt =====
-- Runs of oauth/authorize.go and oauth/register.go.
use go_idento.Prelude.{
  ℕ, ◌≡◌, ◌≢◌, ◌/◌, ◌↔◌, ◌⊎◌, refl, true, false, none, some, List, [], ◌∷◌, arith, text_eq,
  text_beq, Text, codes, any, all, Option, has_prefix,
}
use go_idento.Dict
use go_idento.Identity.Errors as Errors
use go_idento.Identity.World.{World, now, fresh}
use go_idento.Identity.Lockout.{is_locked_out}
use go_idento.MemStore.State.{new, consent_key}
use go_idento.MemStore.Users.{find_by_id}
use go_idento.MemStore.Oauth as Methods
use go_idento.Oauth.Types.{Client, Code, Consent}
use go_idento.Oauth.Urls.{match_redirect_uri, validate_redirect_uri}
use go_idento.Oauth.Scopes.{
  words, space_bytes, with_spaces, fields, has_scope, dedup, parse_scopes, join_scopes,
  contains_all, is_unreserved, valid_challenge,
}
use go_idento.Oauth.Server.{ResolvedClient}
use go_idento.Oauth.Clients.{
  answer, resolve_client, resolve_resource, resolve_scopes, is_cimd_client_id,
}
use go_idento.Oauth.Token.{second}
use go_idento.Oauth.Register.{ClientMetadata, check_metadata, register_valid, register}
use go_idento.Oauth.Register.Registered.{Usable, register-Usable}
use go_idento.Oauth.Authorize.{Values, AuthzRequest, redirect}
use go_idento.Oauth.Authorize.Csrf.{Sealing, csrf_mac, csrf_token, check_csrf, is_recent}
use go_idento.Oauth.Authorize.Csrf.RoundTrip.{check_csrf-csrf_token}
use go_idento.Oauth.Authorize.Parse.{no_duplicates, parse_trusted, parse_client, parse_authz}
use go_idento.Oauth.Authorize.Handler.{
  redirect_to, issue_code, ask_unless_covered, serve_user, serve, authorize,
}
use go_idento.Oauth.Authorize.Handler.Redirects.{IsSafe, authorize_redirects_only}
use go_idento.Oauth.Authorize.Handler.Issued.{Issued, code_issued_only}
use go_idento.Oauth.Examples.{server0, user0}

abbrev no_fetch : Text → Option ResolvedClient
no_fetch id = none

-- A client with one redirect URI.
abbrev registered0 : Client
registered0 = record {
  client_id = codes "c";
  secret_hash = [];
  name = [];
  redirect_uris = codes "cb" ∷ [];
  token_endpoint_auth_method = codes "none";
  grant_types = [];
  created_at = 0;
  last_used_at = none;
}

abbrev given0 : Consent
given0 = record {
  user_id = codes "u";
  client_id = codes "c";
  scopes = codes "a b";
  created_at = 0;
  updated_at = 0;
}

abbrev site0 : World
site0 = record {
  store = record new {
    users = Dict.put Dict.empty (codes "u") user0;
    oauth_clients = Dict.put Dict.empty (codes "c") registered0;
    oauth_consents = Dict.put Dict.empty (consent_key (codes "u") (codes "c")) given0;
  };
  draws = 0;
  reads = 0;
}

abbrev challenge0 : Text
challenge0 = codes "abcdefghijklmnopqrstuvwxyz-ABCDEFGHIJKLMNOP"

abbrev one : Text → List Text
one t = t ∷ []

abbrev with_value : Text → Text → Values → Values
with_value k t v = Dict.put v k (one t)

-- The request for scope a.
abbrev query0 : Values
query0 = with_value (codes "response_type") (codes "code") (
    with_value (codes "client_id") (codes "c") (
      with_value (codes "redirect_uri") (codes "cb") (
        with_value (codes "scope") (codes "a") (
          with_value (codes "code_challenge") challenge0
            (with_value (codes "code_challenge_method") (codes "S256") Dict.empty)))))

abbrev sealing0 : Sealing
sealing0 = record {
  mac = λ _. codes "0123456789abcdef0123456789abcdef";
  encode = λ t. t;
  decode = λ t. some t;
}

redirected0 :
    (authorize server0 sealing0 false no_fetch query0 (codes "u") site0).0
    ≡ redirect 302 (codes "cb")
unfolding authorize parse_authz no_duplicates all Dict.get Dict.put Dict.empty text_beq
    resolve_client is_cimd_client_id has_prefix Methods.get_client parse_client match_redirect_uri
    any parse_trusted valid_challenge resolve_scopes parse_scopes fields words space_bytes
    with_spaces dedup has_scope resolve_resource is_unreserved serve serve_user find_by_id
    is_locked_out ask_unless_covered Methods.get_consent contains_all issue_code consent_key fresh
    now redirect_to
redirected0 = refl

authorize_redirects_only_example :
    IsSafe server0 sealing0 false no_fetch query0 (codes "u") site0 (codes "cb")
authorize_redirects_only_example =
    authorize_redirects_only server0 sealing0 false no_fetch query0 (codes "u") site0 302
      (codes "cb") redirected0

abbrev issued0 : Code
issued0 = record {
  code_hash = b'#' ∷ b'r' ∷ 0 ∷ [];
  client_id = codes "c";
  user_id = codes "u";
  redirect_uri = codes "cb";
  scopes = codes "a";
  resource = codes "r";
  code_challenge = challenge0;
  expires_at = 1060;
  used_at = none;
  grant_id = [];
}

stored0 :
    Methods.get_code
      (authorize server0 sealing0 false no_fetch query0 (codes "u") site0).1.store
      (b'#' ∷ b'r' ∷ 0 ∷ [])
    ≡ Errors.ok issued0
unfolding authorize parse_authz no_duplicates all Dict.get Dict.put Dict.empty text_beq
    resolve_client is_cimd_client_id has_prefix Methods.get_client parse_client match_redirect_uri
    any parse_trusted valid_challenge resolve_scopes parse_scopes fields words space_bytes
    with_spaces dedup has_scope resolve_resource is_unreserved serve serve_user find_by_id
    is_locked_out ask_unless_covered Methods.get_consent contains_all issue_code consent_key fresh
    now redirect_to Methods.create_code Methods.get_code join_scopes
stored0 = refl

code_issued_only_example :
    (Methods.get_code site0.store (b'#' ∷ b'r' ∷ 0 ∷ []) ≡ Errors.ok issued0)
    ⊎ Issued server0 sealing0 false no_fetch query0 (codes "u") site0 (b'#' ∷ b'r' ∷ 0 ∷ []) issued0
code_issued_only_example =
    code_issued_only server0 sealing0 false no_fetch query0 (codes "u") site0 (b'#' ∷ b'r' ∷ 0 ∷ [])
      issued0 stored0

abbrev request0 : AuthzRequest
request0 = record {
  client = record {
    id = codes "c";
    name = [];
    display_host = [];
    redirect_uris = codes "cb" ∷ [];
    auth_method = codes "none";
    secret_hash = [];
    grant_types = [];
    cimd = false;
    jwks_uri = [];
    keys = [];
    signing_alg = [];
  };
  redirect_uri = codes "cb";
  state = [];
  scopes = codes "a" ∷ [];
  resource = codes "r";
  challenge = challenge0;
}

check_csrf-csrf_token_example :
    (check_csrf sealing0 1001 (csrf_token sealing0 1000 (codes "u") request0) (codes "u") request0
      ≡ true)
    ↔ ((is_recent sealing0 1001 (1000 / second) ≡ true)
        × (csrf_mac sealing0 (1000 / second) (codes "u") request0
            ≡ csrf_mac sealing0 (1000 / second) (codes "u") request0))
check_csrf-csrf_token_example =
    check_csrf-csrf_token sealing0 (λ x. refl) (λ x. refl) 1000 1001 (codes "u") (codes "u")
      request0 request0 (omega arith)

abbrev metadata0 : ClientMetadata
metadata0 = record {
  redirect_uris = codes "cb" ∷ [];
  auth_method = [];
  grant_types = [];
  response_types = [];
  client_name = codes "n";
}

-- A source of random texts that are not empty.
random0 : (n : ℕ) → server0.env.random n ≢ []
random0 n e = ground (arith, e)

hash0 : (t : Text) → server0.hash_secret t ≢ []
hash0 t e = ground (arith, e)

accepted0 : register server0 metadata0 site0 ≡ (
  answer (register_valid server0 metadata0 site0).0,
  (register_valid server0 metadata0 site0).1,
)
unfolding register check_metadata validate_redirect_uri text_beq all any has_scope
accepted0 = refl

plain0 : is_cimd_client_id server0 (register_valid server0 metadata0 site0).0.client_id ≡ false
unfolding is_cimd_client_id has_prefix register_valid fresh now
plain0 = refl

register-Usable_example :
    Usable server0 no_fetch metadata0 site0 random0 hash0
      (register_valid server0 metadata0 site0).0
      (register_valid server0 metadata0 site0).1
register-Usable_example =
    register-Usable server0 no_fetch metadata0 site0 random0 hash0 _ _ accepted0 plain0
