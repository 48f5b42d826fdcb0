-- ===== src/Oauth/Cimd/Documents.antt =====
-- oauth/cimd.go, oauth/client_assertion.go: the rules of metadata documents and their URLs.
use go_idento.Prelude.{
  Bool, true, false, not, ◌&&◌, ◌||◌, Option, none, some, List, [], ◌∷◌, ◌==◌, if◌then◌else◌, Text,
  text_eq, codes, any, all, ltb, length, nat_beq, take,
}
use go_idento.Oauth.Urls.{Url, Web, has_hash, validate_redirect_uri, host_of}
use go_idento.Oauth.Scopes.{has_scope}
use go_idento.Oauth.Server.{ResolvedClient, ClientKey}
use go_idento.Oauth.Clients.{method_none, method_private_key_jwt}
use go_idento.Oauth.Token.{authorization_code}
use go_idento.Oauth.Cimd.{CimdDocument, Fetcher, split, is_dots}

unfoldable pub validate_cimd_url : Web → Text → Option Url
validate_cimd_url web s = elim (web.parse s) [
  | none ↦ none
  | some u ↦
      if not (u.scheme == codes "https")
        || (u.host == []
            || (web.hostname u == []
                || (u.user
                    || (not (u.fragment == [])
                        || (has_hash s || (u.path == [] || u.path == codes "/"))))))
      then none
      else if any (is_dots web) (split b'/' (web.escaped_path u))
      then none
      else some u
]

unfoldable pub validate_jwks_uri : Web → Text → Bool
validate_jwks_uri web s = elim (web.parse s) [
  | none ↦ false
  | some u ↦
      u.scheme == codes "https"
      && (not (web.hostname u == []) && (not u.user && (u.fragment == [] && not (has_hash s))))
]

abbrev pub assertion_signing_algs : List Text
assertion_signing_algs = codes "RS256" ∷ codes "ES256" ∷ []

-- How a client authenticates: the method, JWKSURI, the inline keys, and SigningAlg.
pub record Method : Type 0 where
  pub auth_method : Text
  pub jwks_uri : Text
  pub keys : List ClientKey
  pub signing_alg : Text

module _ (f : Fetcher) where
  abbrev with_alg : CimdDocument → Method → Option Method
  with_alg d m =
      if d.signing_alg == []
      then some m
      else if has_scope assertion_signing_algs d.signing_alg
      then some (record m { signing_alg = d.signing_alg })
      else none

  abbrev keyed : Method
  keyed = record {
    auth_method = method_private_key_jwt;
    jwks_uri = [];
    keys = [];
    signing_alg = [];
  }

  -- The keys are published at a URI or are inline, not both.
  unfoldable pub key_method : CimdDocument → Option Method
  key_method d =
      let inline = not (d.jwks == []) && not (d.jwks == codes "null") in
      if not (d.jwks_uri == [])
      then (if inline || not (validate_jwks_uri f.web d.jwks_uri)
          then none
          else with_alg d (record keyed { jwks_uri = d.jwks_uri }))
      else if inline
      then (elim (f.parse_jwks d.jwks) [
        | none ↦ none
        | some ks ↦ with_alg d (record keyed { keys = ks })
      ])
      else none

  unfoldable pub method_of : CimdDocument → Option Method
  method_of d =
      if d.auth_method == [] || d.auth_method == method_none
      then some (record { auth_method = method_none; jwks_uri = []; keys = []; signing_alg = [] })
      else if d.auth_method == method_private_key_jwt
      then key_method d
      else none

  abbrev display_name : Text → Text
  display_name name =
      let trimmed = f.web.trim_space name in
      if ltb 256 (length trimmed) then take 256 trimmed else trimmed

  abbrev offers : List Text → Text → Bool
  offers list s = nat_beq (length list) 0 || has_scope list s

  unfoldable pub validate_cimd_document : Text → CimdDocument → Option ResolvedClient
  validate_cimd_document client_id d =
      if not (d.client_id == client_id)
      then none
      else if d.has_secret || d.has_secret_expiry
      then none
      else (elim (method_of d) [
        | none ↦ none
        | some m ↦
            if nat_beq (length d.redirect_uris) 0
            then none
            else if not (all (validate_redirect_uri f.web) d.redirect_uris)
            then none
            else if not (offers d.grant_types authorization_code)
            then none
            else if not (offers d.response_types (codes "code"))
            then none
            else some (record {
              id = client_id;
              name = display_name d.client_name;
              display_host = host_of f.web client_id;
              redirect_uris = d.redirect_uris;
              auth_method = m.auth_method;
              secret_hash = [];
              grant_types = [];
              cimd = true;
              jwks_uri = m.jwks_uri;
              keys = m.keys;
              signing_alg = m.signing_alg;
            })
      ])
