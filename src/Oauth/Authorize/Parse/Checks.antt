-- ===== src/Oauth/Authorize/Parse/Checks.antt =====
-- oauth/authorize.go: what the checks of a request establish.
use go_idento.Prelude.{
  ◌≡◌, refl, ◌∙◌, inl, inr, true, Option, some, [], arith, ◌==◌, Text, text_eq, text_beq_iff, codes,
  Option-cases, Bool-cases,
}
use go_idento.MemStore.State.{Store}
use go_idento.Oauth.Urls.{match_redirect_uri}
use go_idento.Oauth.Scopes.{valid_challenge}
use go_idento.Oauth.Server.{Server, ResolvedClient}
use go_idento.Oauth.Clients.{resolve_client, resolve_resource, resolve_scopes}
use go_idento.Oauth.Authorize.{Values, value, AuthzRequest}
use go_idento.Oauth.Authorize.Parse.{
  Parsed, fatal, redirected, parsed, no_duplicates, parse_trusted, parse_client, parse_authz,
}

-- What later checks rely on: the URI is that of the request, and registered for the client.
abbrev pub Trusted :
    Server → Values → Store → (Text → Option ResolvedClient) → AuthzRequest → Type 0
Trusted s v db fetched req =
    (resolve_client s db fetched (value v (codes "client_id")) ≡ some req.client)
    × (req.redirect_uri ≡ value v (codes "redirect_uri"))
    × (match_redirect_uri s.web req.client.redirect_uris req.redirect_uri ≡ true)

-- All that a request must satisfy.
abbrev pub Accepted :
    Server → Values → Store → (Text → Option ResolvedClient) → AuthzRequest → Type 0
Accepted s v db fetched req =
    Trusted s v db fetched req
    × (value v (codes "response_type") ≡ codes "code")
    × (value v (codes "code_challenge_method") ≡ codes "S256")
    × (req.challenge ≡ value v (codes "code_challenge"))
    × (valid_challenge req.challenge ≡ true)
    × (resolve_scopes s (value v (codes "scope")) ≡ some req.scopes)
    × (resolve_resource s (value v (codes "resource")) ≡ some req.resource)

-- What the checks behind the redirect URI give of the request they are given.
abbrev Kept : Server → Values → AuthzRequest → Parsed → Type 0
Kept s v req (fatal e) = ⊥
Kept s v req (redirected r e) = (r.client ≡ req.client) × (r.redirect_uri ≡ req.redirect_uri)
Kept s v req (parsed r) =
    (r.client ≡ req.client)
    × (r.redirect_uri ≡ req.redirect_uri)
    × (value v (codes "response_type") ≡ codes "code")
    × (value v (codes "code_challenge_method") ≡ codes "S256")
    × (r.challenge ≡ value v (codes "code_challenge"))
    × (valid_challenge r.challenge ≡ true)
    × (resolve_scopes s (value v (codes "scope")) ≡ some r.scopes)
    × (resolve_resource s (value v (codes "resource")) ≡ some r.resource)

parse_trusted-Kept :
    (s : Server) (v : Values) (req : AuthzRequest) → Kept s v req (parse_trusted s v req)
unfolding parse_trusted
parse_trusted-Kept s v req = ground (
  arith,
  text_beq_iff (value v (codes "response_type")) (codes "code"),
  text_beq_iff (value v (codes "code_challenge_method")) (codes "S256"),
)

-- What the checks establish of their outcome.
abbrev pub Checked : Server → Values → Store → (Text → Option ResolvedClient) → Parsed → Type 0
Checked s v db fetched (fatal e) = Unit
Checked s v db fetched (redirected r e) = Trusted s v db fetched r
Checked s v db fetched (parsed r) = Accepted s v db fetched r

Kept-Checked :
    (s : Server) (v : Values) (db : Store) (fetched : Text → Option ResolvedClient)
    (req : AuthzRequest) (p : Parsed)
    → Trusted s v db fetched req
    → Kept s v req p
    → Checked s v db fetched p
Kept-Checked s v db fetched req (fatal e) t h = tt
Kept-Checked s v db fetched req (redirected r e) (found, given, registered) (same, uri) =
    (rw same found, uri ∙ given, rw (same, uri) registered)
Kept-Checked s v db fetched req (parsed r) (found, given, registered)
      (same, uri, a, b, c, d, e, f) =
    ((rw same found, uri ∙ given, rw (same, uri) registered), a, b, c, d, e, f)

parse_client-Checked :
    (s : Server) (v : Values) (db : Store) (fetched : Text → Option ResolvedClient)
    (client : ResolvedClient)
    → resolve_client s db fetched (value v (codes "client_id")) ≡ some client
    → Checked s v db fetched (parse_client s v client)
unfolding parse_client
parse_client-Checked s v db fetched client found =
    let uri : Text = value v (codes "redirect_uri") in
    let req : AuthzRequest = record {
      client = client;
      redirect_uri = uri;
      state = value v (codes "state");
      scopes = [];
      resource = [];
      challenge = [];
    } in
    elim (Bool-cases (uri == [])) [
      | inl e ↦ rw e tt
      | inr e ↦ rw e (elim (Bool-cases (match_redirect_uri s.web client.redirect_uris uri)) [
        | inl m ↦ rw m (
            Kept-Checked s v db fetched req (parse_trusted s v req) (found, refl, m)
              (parse_trusted-Kept s v req))
        | inr m ↦ rw m tt
      ])
    ]

-- Whatever the parameters are, an error that goes to a redirect URI goes to one that is registered for
-- the client, and a request that is accepted has such a URI, an S256 challenge that is well-formed,
-- and scopes and a resource that the server knows.
pub parse_authz_establishes :
    (s : Server) (v : Values) (db : Store) (fetched : Text → Option ResolvedClient)
    → Checked s v db fetched (parse_authz s v db fetched)
unfolding parse_authz
parse_authz_establishes s v db fetched = elim (Bool-cases (no_duplicates v)) [
  | inr e ↦ rw e tt
  | inl e ↦ rw e (elim (Option-cases (resolve_client s db fetched (value v (codes "client_id")))) [
    | inl found ↦ rw found tt
    | inr (client, found) ↦ rw found (parse_client-Checked s v db fetched client found)
  ])
]
