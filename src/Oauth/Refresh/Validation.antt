-- ===== src/Oauth/Refresh/Validation.antt =====
-- oauth/token.go: ValidateResourceToken.
use go_idento.Prelude.{
  ℕ, codes, true, inl, inr, Bool-cases, ◌≡◌, inl, inr, false, some, arith, Text, text_eq,
  text_beq_iff, Option-cases,
}
use go_idento.Dict
use go_idento.Dict.{get-remove}
use go_idento.Identity.Entities.{User}
use go_idento.Identity.World.{World, now}
use go_idento.Identity.Lockout.{is_locked_out}
use go_idento.MemStore.Users.{find_by_id}
use go_idento.MemStore.Oauth as Methods
use go_idento.Oauth.Types.{Grant}
use go_idento.Oauth.Urls.{canonical_resource}
use go_idento.Oauth.Server.{AccessClaims, Server}
use go_idento.Oauth.Refresh.{valid_claims, validate_resource_token}

module _ (s : Server) where
  valid_claims-some :
      (c : AccessClaims) (w w' : World) (u : User)
      → valid_claims s c w ≡ (some u, w')
      → (Dict.get w.store.users c.sub ≡ some u)
        × (c.security_stamp ≡ u.security_stamp)
        × ((is_locked_out s.env u w).0 ≡ false)
        × ((g : Grant) × (Dict.get w.store.oauth_grants c.gid ≡ some g) × (g.user_id ≡ u.id))
  unfolding valid_claims find_by_id Methods.get_grant
  valid_claims-some c w w' u h = elim (Option-cases (Dict.get w.store.oauth_grants c.gid)) [
    | inl e ↦ ground arith
    | inr (g, e) ↦ (
      ground (arith, text_beq_iff c.security_stamp u.security_stamp),
      ground (arith, text_beq_iff c.security_stamp u.security_stamp),
      ground arith,
      (g, e, ground (arith, text_beq_iff g.user_id u.id)),
    )
  ]

  -- The library accepts the token for the resource, as an access token.
  abbrev pub Verifies : Text → Text → AccessClaims → ℕ → Type 0
  Verifies token resource c t =
      (res : Text) × (typ : Text) × (canonical_resource s.web resource ≡ some res)
      × (s.verify token res t ≡ some (typ, c))
      × (s.web.equal_fold typ (codes "at+jwt") ≡ true)

  verified :
      (token resource : Text) (w w' : World) (u : User) (c : AccessClaims)
      → validate_resource_token s token resource w ≡ (some (u, c), w')
      → Verifies token resource c (s.env.clock w.reads)
        × (valid_claims s c (now s.env w).1 ≡ (some u, w'))
  unfolding validate_resource_token now
  verified token resource w w' u c h = elim (Option-cases (canonical_resource s.web resource)) [
    | inl e ↦ ground arith
    | inr (res, e) ↦ elim (Option-cases (s.verify token res (s.env.clock w.reads))) [
      | inl e2 ↦ ground arith
      | inr ((typ, d), e2) ↦ elim (Bool-cases (s.web.equal_fold typ (codes "at+jwt"))) [
        | inr f ↦ ground arith
        | inl f ↦ ((res, typ, e, ground arith, f), ground arith)
      ]
    ]
  ]

  -- What a valid access token requires.
  abbrev pub Valid : Text → Text → User → AccessClaims → World → Type 0
  Valid token resource u c w =
      Verifies token resource c (s.env.clock w.reads)
      × (Dict.get w.store.users c.sub ≡ some u)
      × (c.security_stamp ≡ u.security_stamp)
      × ((is_locked_out s.env u (now s.env w).1).0 ≡ false)
      × ((g : Grant) × (Dict.get w.store.oauth_grants c.gid ≡ some g) × (g.user_id ≡ u.id))

  -- An access token is valid for a resource only if its signature and claims verify for the canonical
  -- form of that resource at the time of the check, its type is that of an access token, its user exists, is not locked out and has the
  -- security stamp of the token, and its grant is stored and is a grant of that user.
  pub resource_token_only :
      (token resource : Text) (w w' : World) (u : User) (c : AccessClaims)
      → validate_resource_token s token resource w ≡ (some (u, c), w')
      → Valid token resource u c w
  unfolding now
  resource_token_only token resource w w' u c h =
      let (checked, h1) = verified token resource w w' u c h in
      let (owner, same, unlocked, grant) = valid_claims-some c (now s.env w).1 w' u h1 in
      (checked, owner, same, unlocked, grant)
