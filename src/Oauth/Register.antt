-- ===== src/Oauth/Register.antt =====
-- oauth/register.go: the registration of clients.
pub mod Registered
use go_idento.Prelude.{
  ℕ, ◌/◌, Bool, true, false, not, ◌&&◌, ◌||◌, Option, none, some, List, [], ◌∷◌, ◌==◌,
  if◌then◌else◌, Text, text_eq, codes, any, all, ltb, length, take,
}
use go_idento.Identity.World.{Env, World, now, fresh}
use go_idento.MemStore.Oauth as Methods
use go_idento.Oauth.Types.{Client}
use go_idento.Oauth.Urls.{validate_redirect_uri}
use go_idento.Oauth.Scopes.{has_scope}
use go_idento.Oauth.Server.{Server}
use go_idento.Oauth.Clients.{
  Answer, answer, refuse, Error, bad_request, method_none, method_basic, method_post,
}
use go_idento.Oauth.Token.{authorization_code, refresh_token, second}

pub record ClientMetadata : Type 0 where
  pub redirect_uris : List Text
  pub auth_method : Text
  pub grant_types : List Text
  pub response_types : List Text
  pub client_name : Text

-- ClientSecretExpiresAt is zero where there is a secret.
pub record ClientRegistration : Type 0 where
  pub client_id : Text
  pub client_secret : Text
  pub client_id_issued_at : ℕ
  pub redirect_uris : List Text
  pub auth_method : Text
  pub grant_types : List Text
  pub response_types : List Text
  pub client_name : Text

abbrev pub invalid_redirect : Error
invalid_redirect = bad_request (codes "invalid_redirect_uri")

abbrev pub invalid_metadata : Error
invalid_metadata = bad_request (codes "invalid_client_metadata")

-- The default where nothing is given.
abbrev pub or_default : {A : Type 0} → List A → List A → List A
or_default d [] = d
or_default d (x ∷ xs) = x ∷ xs

abbrev pub auth_method_of : ClientMetadata → Text
auth_method_of m = or_default method_basic m.auth_method

abbrev pub grants_of : ClientMetadata → List Text
grants_of m = or_default (authorization_code ∷ refresh_token ∷ []) m.grant_types

abbrev pub responses_of : ClientMetadata → List Text
responses_of m = or_default (codes "code" ∷ []) m.response_types

abbrev pub is_auth_method : Text → Bool
is_auth_method t = t == method_none || (t == method_basic || t == method_post)

abbrev pub is_grant_type : Text → Bool
is_grant_type g = g == authorization_code || g == refresh_token

-- strings.TrimSpace, and at most 256 bytes.
abbrev pub client_name_of : Server → Text → Text
client_name_of s name =
    let trimmed = s.web.trim_space name in
    if ltb 256 (length trimmed) then take 256 trimmed else trimmed

-- The checks of `register`, in their order; `none` is no error.
unfoldable pub check_metadata : Server → ClientMetadata → Option Error
check_metadata s m =
    if ltb (length m.redirect_uris) 1 || ltb 20 (length m.redirect_uris)
    then some invalid_redirect
    else if not (all (validate_redirect_uri s.web) m.redirect_uris)
    then some invalid_redirect
    else if not (is_auth_method (auth_method_of m))
    then some invalid_metadata
    else if not (all is_grant_type (grants_of m))
    then some invalid_metadata
    else if not (has_scope (grants_of m) authorization_code)
    then some invalid_metadata
    else if not (all (λ rt. rt == codes "code") (responses_of m))
    then some invalid_metadata
    else none

module _ (s : Server) where
  -- The secret, for a method that needs one.
  abbrev draw_client_secret : Text → World → Text × World
  draw_client_secret m w = if m == method_none then ([], w) else fresh s.env w

  abbrev secret_hash_of : Text → Text → Text
  secret_hash_of m secret = if m == method_none then [] else s.hash_secret secret

  unfoldable pub register_valid : ClientMetadata → World → ClientRegistration × World
  register_valid m w =
      let (t, w1) = now s.env w in
      let (id, w2) = fresh s.env w1 in
      let (secret, w3) = draw_client_secret (auth_method_of m) w2 in
      (
        record {
          client_id = id;
          client_secret = secret;
          client_id_issued_at = t / second;
          redirect_uris = m.redirect_uris;
          auth_method = auth_method_of m;
          grant_types = grants_of m;
          response_types = responses_of m;
          client_name = client_name_of s m.client_name;
        },
        record w3 {
          store = Methods.create_client w3.store (record {
            client_id = id;
            secret_hash = secret_hash_of (auth_method_of m) secret;
            name = client_name_of s m.client_name;
            redirect_uris = m.redirect_uris;
            token_endpoint_auth_method = auth_method_of m;
            grant_types = grants_of m;
            created_at = t;
            last_used_at = none;
          });
        },
      )

  unfoldable pub register : ClientMetadata → World → Answer ClientRegistration × World
  register m w = elim (check_metadata s m) [
    | some e ↦ (refuse e, w)
    | none ↦ let (reg, w') = register_valid m w in (answer reg, w')
  ]
