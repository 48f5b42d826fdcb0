-- ===== src/Oauth/Authorize/Handler/Issued.antt =====
-- oauth/authorize.go: which codes the handler issues.
use go_idento.Prelude.{
  ◌≡◌, refl, inl, inr, ◌⊎◌, Bool, Option, [], arith, ◌==◌, Text, text_eq, text_beq_iff, Bool-cases,
}
use go_idento.Identity.Errors as Errors
use go_idento.Identity.World.{World}
use go_idento.MemStore.Oauth as Methods
use go_idento.Oauth.Types.{Code}
use go_idento.Oauth.Server.{Server, ResolvedClient}
use go_idento.Oauth.Authorize.{Values, AuthzRequest}
use go_idento.Oauth.Authorize.Csrf.{Sealing}
use go_idento.Oauth.Authorize.Parse.{Parsed, fatal, redirected, parsed, parse_authz}
use go_idento.Oauth.Authorize.Parse.Checks.{Accepted, Checked, parse_authz_establishes}
use go_idento.Oauth.Authorize.Handler.{serve, authorize}
use go_idento.Oauth.Authorize.Handler.Stored.{IsFor, Consented, Active, Has, serve_user-Has}

module _ (s : Server) (k : Sealing) (post : Bool) (fetched : Text → Option ResolvedClient)
    (v : Values) (user_id : Text) (w : World) (hash : Text) (c : Code) where
  -- The request was accepted, and issued the code.
  abbrev pub Issued : Type 0
  Issued =
      (req : AuthzRequest) × Accepted s v w.store fetched req
      × Active s user_id w
      × Consented s k post v user_id req w.store
      × IsFor user_id req c

  serve-Issued :
      (req : AuthzRequest)
      → Accepted s v w.store fetched req
      → Has s k hash c (serve s k post v user_id req w).1.store
      → Has s k hash c w.store ⊎ Issued
  unfolding serve
  serve-Issued req accepted g = elim (Bool-cases (user_id == [])) [
    | inl e ↦ inl (rw (e, serve) at g)
    | inr e ↦
        elim (serve_user-Has s k hash c post v user_id req w
          (λ p. ground (arith, e, p, text_beq_iff user_id [])) (rw (e, serve) at g)) [
            | inl old ↦ inl old
            | inr (active, given, i) ↦ inr (req, accepted, active, given, i)
          ]
  ]

  authorize-Issued :
      (p : Parsed)
      → parse_authz s v w.store fetched ≡ p
      → Checked s v w.store fetched p
      → Has s k hash c (authorize s k post fetched v user_id w).1.store
      → Has s k hash c w.store ⊎ Issued
  unfolding authorize
  authorize-Issued (fatal e) g checked h = inl (rw (g, authorize) at h)
  authorize-Issued (redirected req e) g checked h = inl (rw (g, authorize) at h)
  authorize-Issued (parsed req) g checked h = serve-Issued req checked (rw (g, authorize) at h)

-- A code that is in the store after a request was there before, or it was issued by the request: then
-- the request was accepted, with a redirect URI that is registered for its client, a well-formed S256
-- challenge, and scopes and a resource of the server; the user is signed in, known and not locked out,
-- and approved the request or had approved its scopes; and the code is bound to all of these.
pub code_issued_only :
    (s : Server) (k : Sealing) (post : Bool) (fetched : Text → Option ResolvedClient) (v : Values)
    (user_id : Text) (w : World) (hash : Text) (c : Code)
    → Methods.get_code (authorize s k post fetched v user_id w).1.store hash ≡ Errors.ok c
    → (Methods.get_code w.store hash ≡ Errors.ok c) ⊎ Issued s k post fetched v user_id w hash c
code_issued_only s k post fetched v user_id w hash c h =
    authorize-Issued s k post fetched v user_id w hash c (parse_authz s v w.store fetched) refl
      (parse_authz_establishes s v w.store fetched) h
