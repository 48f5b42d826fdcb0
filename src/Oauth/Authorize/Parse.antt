-- ===== src/Oauth/Authorize/Parse.antt =====
-- oauth/authorize.go: the checks of a request. Before the client and its redirect URI are known an
-- error is fatal; later it goes to the redirect URI.
pub mod Checks
use go_idento.Prelude.{
  ℕ, Bool, true, false, not, ◌||◌, Option, none, some, List, [], ◌∷◌, ◌==◌, if◌then◌else◌, Text,
  text_eq, codes, all, ltb, length, nat_beq,
}
use go_idento.Dict
use go_idento.MemStore.State.{Store}
use go_idento.Oauth.Urls.{match_redirect_uri}
use go_idento.Oauth.Scopes.{has_scope, valid_challenge}
use go_idento.Oauth.Server.{Server, ResolvedClient}
use go_idento.Oauth.Clients.{
  Error, bad_request, invalid_request, resolve_client, resolve_resource, resolve_scopes,
}
use go_idento.Oauth.Token.{authorization_code}
use go_idento.Oauth.Authorize.{Values, value, authz_params, AuthzRequest}

pub data Parsed : Type 0 where
  fatal : Error → Parsed
  redirected : AuthzRequest → Error → Parsed
  parsed : AuthzRequest → Parsed

-- The parameter is there at most once.
abbrev is_single : Option (List Text) → Bool
is_single none = true
is_single (some vals) = not (ltb 1 (length vals))

unfoldable pub no_duplicates : Values → Bool
no_duplicates v = all (λ k. is_single (Dict.get v k)) authz_params

abbrev may_use_codes : List Text → Bool
may_use_codes grants = nat_beq (length grants) 0 || has_scope grants authorization_code

module _ (s : Server) (v : Values) where
  -- The challenge is there, with the method S256, and well-formed.
  abbrev pub challenge_error : Option Error
  challenge_error =
      if value v (codes "code_challenge") == []
      then some invalid_request
      else if not (value v (codes "code_challenge_method") == codes "S256")
      then some invalid_request
      else if not (valid_challenge (value v (codes "code_challenge")))
      then some invalid_request
      else none

  abbrev parse_resource : AuthzRequest → Parsed
  parse_resource req = elim (resolve_resource s (value v (codes "resource"))) [
    | none ↦ redirected req (bad_request (codes "invalid_target"))
    | some res ↦ parsed (record req { resource = res })
  ]

  abbrev parse_scope : AuthzRequest → Parsed
  parse_scope req = elim (resolve_scopes s (value v (codes "scope"))) [
    | none ↦ redirected req (bad_request (codes "invalid_scope"))
    | some scopes ↦ parse_resource (record req { scopes = scopes })
  ]

  abbrev parse_challenge : AuthzRequest → Parsed
  parse_challenge req = elim challenge_error [ some e ↦ redirected req e | none ↦ parse_scope req ]

  -- The redirect URI is trusted.
  unfoldable pub parse_trusted : AuthzRequest → Parsed
  parse_trusted req =
      if not (value v (codes "response_type") == codes "code")
      then redirected req (bad_request (codes "unsupported_response_type"))
      else if not (may_use_codes req.client.grant_types)
      then redirected req (bad_request (codes "unauthorized_client"))
      else parse_challenge (record req { challenge = value v (codes "code_challenge") })

  unfoldable pub parse_client : ResolvedClient → Parsed
  parse_client client =
      let uri = value v (codes "redirect_uri") in
      if uri == []
      then fatal invalid_request
      else if not (match_redirect_uri s.web client.redirect_uris uri)
      then fatal invalid_request
      else parse_trusted (record {
        client = client;
        redirect_uri = uri;
        state = value v (codes "state");
        scopes = [];
        resource = [];
        challenge = [];
      })

  unfoldable pub parse_authz : Store → (Text → Option ResolvedClient) → Parsed
  parse_authz db fetched =
      if not (no_duplicates v)
      then fatal invalid_request
      else (elim (resolve_client s db fetched (value v (codes "client_id"))) [
        | none ↦ fatal (bad_request (codes "invalid_client"))
        | some client ↦ parse_client client
      ])
