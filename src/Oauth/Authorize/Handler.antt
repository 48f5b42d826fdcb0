-- ===== src/Oauth/Authorize/Handler.antt =====
-- oauth/authorize.go: the handler. A request is what its method and its session cookie are, with the
-- parameters of the query or of the form.
pub mod Redirects
pub mod Stored
pub mod Issued
use go_idento.Prelude.{
  ℕ, ◌+◌, ◌++◌, Bool, true, false, not, Option, none, some, List, [], ◌∷◌, ◌==◌, if◌then◌else◌,
  Text, text_eq, codes,
}
use go_idento.Dict
use go_idento.Identity.Errors as Errors
use go_idento.Identity.World.{Env, World, now, fresh}
use go_idento.Identity.Lockout.{is_locked_out}
use go_idento.MemStore.Users.{find_by_id}
use go_idento.MemStore.Oauth as Methods
use go_idento.Oauth.Types.{Consent}
use go_idento.Oauth.Urls.{all_loopback, host_of}
use go_idento.Oauth.Scopes.{parse_scopes, join_scopes, contains_all, union_scopes}
use go_idento.Oauth.Server.{Server, endpoint_at, ResolvedClient}
use go_idento.Oauth.Clients.{Error, invalid_request, server_failure}
use go_idento.Oauth.Authorize.{
  Values, value, authz_params, copied, AuthzRequest, Response, rendered, redirect, consent,
}
use go_idento.Oauth.Authorize.Csrf.{Sealing, csrf_token, check_csrf}
use go_idento.Oauth.Authorize.Parse.{parse_authz, fatal, redirected, parsed}

-- The scopes and the time of a consent that replaces another one.
abbrev with_previous : Errors.Result Consent → List Text → ℕ → List Text × ℕ
with_previous (Errors.err e) scopes t = (scopes, t)
with_previous (Errors.ok prev) scopes t =
    (union_scopes (parse_scopes prev.scopes) scopes, prev.created_at)

-- Each of the parameters is set, in place of those of its name.
abbrev pub with_all : List (Text × Text) → Values → Values
with_all [] q = q
with_all ((k, x) ∷ add) q = with_all add (Dict.put q k (x ∷ []))

abbrev pub with_state : Text → Values → Values
with_state [] q = q
with_state (c ∷ state) q = Dict.put q (codes "state") ((c ∷ state) ∷ [])

abbrev access_denied : Error
access_denied = record { status = 403; code = codes "access_denied" }

-- The page where the user signs in, which leads back to the request.
abbrev pub login_page : Server → Values → Text
login_page s v =
    s.login_url (endpoint_at s s.authorize_path ++ (b'?' ∷ s.web.encode (copied v authz_params)))

module _ (s : Server) (k : Sealing) (post : Bool) where
  -- Back to the client, with the parameters in the query of its redirect URI.
  unfoldable pub redirect_to : AuthzRequest → List (Text × Text) → Response
  redirect_to req add = elim (s.web.parse req.redirect_uri) [
    | none ↦ rendered server_failure
    | some u ↦
        let q =
          Dict.put (with_state req.state (with_all add (s.web.query u))) (codes "iss")
            (s.issuer ∷ []) in
        redirect (if post then 303 else 302)
          (s.web.string (record u { raw_query = s.web.encode q }))
  ]

  -- The description of the error is not modelled.
  unfoldable pub redirect_error : AuthzRequest → Error → Response
  redirect_error req e = redirect_to req ((codes "error", e.code) ∷ [])

  unfoldable pub save_consent : Text → AuthzRequest → World → World
  save_consent user_id req w =
      let (t, w') = now s.env w in
      let (scopes, created) =
        with_previous (Methods.get_consent w'.store user_id req.client.id) req.scopes t in
      record w' {
        store = Methods.save_consent w'.store (record {
          user_id = user_id;
          client_id = req.client.id;
          scopes = join_scopes scopes;
          created_at = created;
          updated_at = t;
        });
      }

  unfoldable pub issue_code : Text → AuthzRequest → World → Response × World
  issue_code user_id req w =
      let (code, w1) = fresh s.env w in
      let (t, w2) = now s.env w1 in
      (
        redirect_to req ((codes "code", code) ∷ []),
        record w2 {
          store = Methods.create_code w2.store (record {
            code_hash = s.hash_secret code;
            client_id = req.client.id;
            user_id = user_id;
            redirect_uri = req.redirect_uri;
            scopes = join_scopes req.scopes;
            resource = req.resource;
            code_challenge = req.challenge;
            expires_at = t + s.code_ttl;
            used_at = none;
            grant_id = [];
          });
        },
      )

  -- The decision of the user.
  unfoldable pub decide : Values → Text → AuthzRequest → World → Response × World
  decide v user_id req w =
      let (t, w') = now s.env w in
      if not (check_csrf k t (value v (codes "csrf_token")) user_id req)
      then (rendered invalid_request, w')
      else if not (value v (codes "decision") == codes "approve")
      then (redirect_error req access_denied, w')
      else issue_code user_id req (save_consent user_id req w')

  unfoldable pub ask : Text → AuthzRequest → World → Response × World
  ask user_id req w =
      let (t, w') = now s.env w in
      (
        consent (record {
          client_id = req.client.id;
          client_name = req.client.name;
          client_host = req.client.display_host;
          redirect_uri = req.redirect_uri;
          redirect_host = host_of s.web req.redirect_uri;
          loopback_only = all_loopback s.web req.client.redirect_uris;
          scopes = req.scopes;
          resource = req.resource;
          user_id = user_id;
          csrf_token = csrf_token k t user_id req;
        }),
        w',
      )

  -- The page is skipped if a remembered consent covers the scopes.
  unfoldable pub ask_unless_covered : Text → AuthzRequest → World → Response × World
  ask_unless_covered user_id req w = elim (Methods.get_consent w.store user_id req.client.id) [
    | Errors.err e ↦ ask user_id req w
    | Errors.ok c ↦
        if contains_all (parse_scopes c.scopes) req.scopes
        then issue_code user_id req w
        else ask user_id req w
  ]

  -- The user is signed in.
  unfoldable pub serve_user : Values → Text → AuthzRequest → World → Response × World
  serve_user v user_id req w = elim (find_by_id w.store user_id) [
    | Errors.err e ↦ (redirect 302 (login_page s v), w)
    | Errors.ok u ↦
        let (locked, w') = is_locked_out s.env u w in
        if locked
        then (redirect_error req access_denied, w')
        else if post
        then decide v user_id req w'
        else ask_unless_covered user_id req w'
  ]

  -- An empty id is no user.
  unfoldable pub serve : Values → Text → AuthzRequest → World → Response × World
  serve v user_id req w =
      if user_id == [] then (redirect 302 (login_page s v), w) else serve_user v user_id req w

  -- `user_id` is that of the session, empty for a visitor.
  unfoldable pub authorize :
      (Text → Option ResolvedClient) → Values → Text → World → Response × World
  authorize fetched v user_id w = elim (parse_authz s v w.store fetched) [
    | fatal e ↦ (rendered e, w)
    | redirected req e ↦ (redirect_error req e, w)
    | parsed req ↦ serve v user_id req w
  ]
