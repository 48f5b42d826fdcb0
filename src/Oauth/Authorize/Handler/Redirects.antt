-- ===== src/Oauth/Authorize/Handler/Redirects.antt =====
-- oauth/authorize.go: where the handler sends the browser.
use go_idento.Prelude.{
  ℕ, ◌≡◌, subst, refl, inl, inr, ◌⊎◌, text_beq_iff, Option-cases, [], ◌∷◌, Bool, true, Option, some,
  List, arith, ◌==◌, Text, text_eq, codes, Bool-cases,
}
use go_idento.Identity.Errors as Errors
use go_idento.Identity.World.{World, now}
use go_idento.Identity.Lockout.{is_locked_out}
use go_idento.MemStore.Users.{find_by_id}
use go_idento.MemStore.Oauth as Methods
use go_idento.Dict
use go_idento.Dict.{get-put}
use go_idento.Oauth.Urls.{Url, match_redirect_uri}
use go_idento.Oauth.Scopes.{contains_all, parse_scopes}
use go_idento.Oauth.Server.{Server, ResolvedClient}
use go_idento.Oauth.Clients.{resolve_client}
use go_idento.Oauth.Authorize.{Values, value, AuthzRequest, Response, rendered, redirect, consent}
use go_idento.Oauth.Authorize.Csrf.{Sealing, check_csrf}
use go_idento.Oauth.Authorize.Parse.{Parsed, fatal, redirected, parsed, parse_authz}
use go_idento.Oauth.Authorize.Parse.Checks.{Trusted, Checked, parse_authz_establishes}
use go_idento.Oauth.Authorize.Handler.{
  login_page, with_all, with_state, redirect_to, redirect_error, issue_code, decide, ask,
  ask_unless_covered, serve_user, serve, authorize,
}

-- The redirect URI, with another query that names the issuer.
abbrev pub IsBack : Server → Text → Text → Type 0
IsBack s uri to =
    (u : Url) × (q : Values) × (s.web.parse uri ≡ some u)
    × (to ≡ s.web.string (record u { raw_query = s.web.encode q }))
    × (Dict.get q (codes "iss") ≡ some (s.issuer ∷ []))

-- The login page, for a visitor who is not signed in or not known.
abbrev pub IsLogin : Server → Values → Text → World → Text → Type 0
IsLogin s v user_id w to =
    (to ≡ login_page s v)
    × (user_id ≡ [] ⊎ ((e : Errors.IdentityError) × (find_by_id w.store user_id ≡ Errors.err e)))

module _ (s : Server) (k : Sealing) (post : Bool) (req : AuthzRequest) (v : Values) (user_id : Text)
    (w0 : World) where
  abbrev GoesTo : Response → Type 0
  GoesTo (redirect n to) = IsLogin s v user_id w0 to ⊎ IsBack s req.redirect_uri to
  GoesTo (rendered e) = Unit
  GoesTo (consent c) = Unit

  redirect_to-GoesTo : (add : List (Text × Text)) → GoesTo (redirect_to s k post req add)
  unfolding redirect_to
  redirect_to-GoesTo add = elim (Option-cases (s.web.parse req.redirect_uri)) [
    | inl e ↦ rw (e, redirect_to, GoesTo) tt
    | inr (u, e) ↦
        let before : Values = with_state req.state (with_all add (s.web.query u)) in
        rw (e, redirect_to, GoesTo)
          (inr (
            u,
            Dict.put before (codes "iss") (s.issuer ∷ []),
            e,
            refl,
            ground (
              arith,
              get-put before (codes "iss") (codes "iss") (s.issuer ∷ []),
              text_beq_iff (codes "iss") (codes "iss"),
            ),
          ))
  ]

  decide-GoesTo : (w : World) → GoesTo (decide s k post v user_id req w).0
  unfolding decide redirect_error issue_code
  decide-GoesTo w =
      elim (Bool-cases (check_csrf k (now s.env w).0 (value v (codes "csrf_token")) user_id req)) [
        | inr e ↦ rw e tt
        | inl e ↦ rw e (elim (Bool-cases (value v (codes "decision") == codes "approve")) [
          | inl d ↦ rw d (redirect_to-GoesTo _)
          | inr d ↦ rw d (redirect_to-GoesTo _)
        ])
      ]

  ask_unless_covered-GoesTo : (w : World) → GoesTo (ask_unless_covered s k post user_id req w).0
  unfolding ask_unless_covered ask issue_code
  ask_unless_covered-GoesTo w =
      elim (Errors.Result-cases (Methods.get_consent w.store user_id req.client.id)) [
        | inl (e, missing) ↦ rw (missing, ask_unless_covered, GoesTo) tt
        | inr (c, kept) ↦
            rw (kept, ask_unless_covered, GoesTo)
              (elim (Bool-cases (contains_all (parse_scopes c.scopes) req.scopes)) [
                | inl d ↦ rw d (redirect_to-GoesTo _)
                | inr d ↦ rw d tt
              ])
      ]

  serve_user-GoesTo : GoesTo (serve_user s k post v user_id req w0).0
  unfolding serve_user redirect_error
  serve_user-GoesTo = elim (Errors.Result-cases (find_by_id w0.store user_id)) [
    | inl (e, missing) ↦ rw (missing, serve_user, GoesTo) (inl (refl, inr (e, missing)))
    | inr (u, known) ↦
        rw (known, serve_user, GoesTo)
          (elim (Bool-cases (is_locked_out s.env u w0).0) [
            | inl d ↦ rw d (redirect_to-GoesTo _)
            | inr d ↦ rw d (elim (Bool-cases post) [
              | inl p ↦ rw p (rw (← p) (decide-GoesTo _))
              | inr p ↦ rw p (rw (← p) (ask_unless_covered-GoesTo _))
            ])
          ])
  ]

  serve-GoesTo : GoesTo (serve s k post v user_id req w0).0
  unfolding serve
  serve-GoesTo = elim (Bool-cases (user_id == [])) [
    | inl e ↦ rw (e, serve, GoesTo) (inl (refl, inl ((text_beq_iff user_id []).0 e)))
    | inr e ↦ rw e serve_user-GoesTo
  ]

module _ (s : Server) (k : Sealing) (post : Bool) (fetched : Text → Option ResolvedClient)
    (v : Values) (user_id : Text) (w : World) where
  -- A redirect goes to the login page, or back to the registered URI of the request.
  abbrev pub IsSafe : Text → Type 0
  IsSafe to =
      IsLogin s v user_id w to
      ⊎ ((client : ResolvedClient) × (resolve_client s w.store fetched (value v (codes "client_id"))
            ≡ some client)
          × (match_redirect_uri s.web client.redirect_uris (value v (codes "redirect_uri")) ≡ true)
          × IsBack s (value v (codes "redirect_uri")) to)

  abbrev Safe : Response → Type 0
  Safe (redirect n to) = IsSafe to
  Safe (rendered e) = Unit
  Safe (consent c) = Unit

  GoesTo-Safe :
      (req : AuthzRequest) (r : Response)
      → Trusted s v w.store fetched req
      → GoesTo s k post req v user_id w r
      → Safe r
  GoesTo-Safe req (redirect n to) t (inl h) = inl h
  GoesTo-Safe req (redirect n to) (found, given, registered) (inr h) =
      inr (req.client, found, rw (← given) registered, subst (λ uri. IsBack s uri to) given h)
  GoesTo-Safe req (rendered e) t h = tt
  GoesTo-Safe req (consent c) t h = tt

  Checked-Safe :
      (p : Parsed)
      → parse_authz s v w.store fetched ≡ p
      → Checked s v w.store fetched p
      → Safe (authorize s k post fetched v user_id w).0
  unfolding authorize redirect_error
  Checked-Safe (fatal e) h c = rw (h, authorize, Safe) tt
  Checked-Safe (redirected req e) h c =
      rw (h, authorize, Safe)
        (GoesTo-Safe req (redirect_error s k post req e) c
          (redirect_to-GoesTo s k post req v user_id w _))
  Checked-Safe (parsed req) h c =
      rw (h, authorize, Safe)
        (GoesTo-Safe req (serve s k post v user_id req w).0 c.0
          (serve-GoesTo s k post req v user_id w))

-- The handler redirects to the login page, for a visitor who is not signed in or not known, or to the
-- redirect URI of the request with another query, which names the issuer; to the latter only where it
-- is registered for the client that the request names: an error of the request never turns the handler
-- into an open redirector.
pub authorize_redirects_only :
    (s : Server) (k : Sealing) (post : Bool) (fetched : Text → Option ResolvedClient) (v : Values)
    (user_id : Text) (w : World) (status : ℕ) (to : Text)
    → (authorize s k post fetched v user_id w).0 ≡ redirect status to
    → IsSafe s k post fetched v user_id w to
authorize_redirects_only s k post fetched v user_id w status to h =
    subst (Safe s k post fetched v user_id w) h (
      Checked-Safe s k post fetched v user_id w _ refl
        (parse_authz_establishes s v w.store fetched))
