-- ===== src/Oauth/Authorize/Handler/Stored.antt =====
-- oauth/authorize.go: where a stored code comes from, step by step.
use go_idento.Prelude.{
  ℕ, ◌≡◌, ◌≢◌, refl, subst, inl, inr, ◌⊎◌, Bool, true, false, Option, none, some, [], arith, ◌==◌,
  if◌then◌else◌, Text, text_eq, text_beq_iff, codes, Bool-cases, Option-cases,
}
use go_idento.Dict
use go_idento.Dict.{get-put}
use go_idento.Identity.Errors as Errors
use go_idento.Identity.Entities.{User}
use go_idento.Identity.World.{World, now, fresh}
use go_idento.Identity.Lockout.{is_locked_out}
use go_idento.MemStore.State.{Store}
use go_idento.MemStore.Users.{find_by_id}
use go_idento.MemStore.Oauth as Methods
use go_idento.Oauth.Types.{Code, Consent}
use go_idento.Oauth.Scopes.{contains_all, parse_scopes, join_scopes}
use go_idento.Oauth.Server.{Server}
use go_idento.Oauth.Authorize.{Values, value, AuthzRequest}
use go_idento.Oauth.Authorize.Csrf.{Sealing, check_csrf}
use go_idento.Oauth.Authorize.Handler.{
  save_consent, issue_code, decide, ask, ask_unless_covered, serve_user,
}

-- The code carries what the request asked for.
abbrev pub IsFor : Text → AuthzRequest → Code → Type 0
IsFor user_id req c =
    (c.client_id ≡ req.client.id)
    × (c.user_id ≡ user_id)
    × (c.redirect_uri ≡ req.redirect_uri)
    × (c.scopes ≡ join_scopes req.scopes)
    × (c.resource ≡ req.resource)
    × (c.code_challenge ≡ req.challenge)
    × (c.used_at ≡ none)

-- The user approved the request in a form of this server, or approved its scopes before.
abbrev pub Consented : Server → Sealing → Bool → Values → Text → AuthzRequest → Store → Type 0
Consented s k true v user_id req db =
    ((t : ℕ) × (check_csrf k t (value v (codes "csrf_token")) user_id req ≡ true))
    × (value v (codes "decision") ≡ codes "approve")
Consented s k false v user_id req db =
    (c : Consent) × (Methods.get_consent db user_id req.client.id ≡ Errors.ok c)
    × (contains_all (parse_scopes c.scopes) req.scopes ≡ true)

-- The user is known and not locked out.
abbrev pub Active : Server → Text → World → Type 0
Active s user_id w =
    (user_id ≢ [])
    × (u : User) × (find_by_id w.store user_id ≡ Errors.ok u)
    × ((is_locked_out s.env u w).0 ≡ false)

module _ (s : Server) (k : Sealing) (hash : Text) (c : Code) where
  abbrev pub Has : Store → Type 0
  Has db = Methods.get_code db hash ≡ Errors.ok c

  chosen :
      (b : Bool) (d : Code) (o : Option Code)
      → Methods.found (if b then some d else o) ≡ Errors.ok c
      → (Methods.found o ≡ Errors.ok c) ⊎ (d ≡ c)
  chosen true d o h = inr (ground arith)
  chosen false d o h = inl h

  create_code-Has : (db : Store) (d : Code) → Has (Methods.create_code db d) → Has db ⊎ (d ≡ c)
  unfolding Methods.create_code Methods.get_code
  create_code-Has db d h =
      chosen (d.code_hash == hash) d (Dict.get db.oauth_codes hash)
        (subst (λ o. Methods.found o ≡ Errors.ok c) (get-put db.oauth_codes d.code_hash hash d) h)

  carry_request :
      {P : Type 0} (user_id : Text) (req : AuthzRequest) (d : Code)
      → P ⊎ (d ≡ c)
      → IsFor user_id req d
      → P ⊎ IsFor user_id req c
  carry_request user_id req d (inl p) i = inl p
  carry_request user_id req d (inr e) i = inr (subst (IsFor user_id req) e i)

  issue_code-Has :
      (post : Bool) (user_id : Text) (req : AuthzRequest) (w : World)
      → Has (issue_code s k post user_id req w).1.store
      → Has w.store ⊎ IsFor user_id req c
  unfolding issue_code now fresh
  issue_code-Has post user_id req w h =
      carry_request user_id req _ (create_code-Has w.store _ h)
        (refl, refl, refl, refl, refl, refl, refl)

  save_consent-Has :
      (post : Bool) (user_id : Text) (req : AuthzRequest) (w : World)
      → Has (save_consent s k post user_id req w).store
      → Has w.store
  unfolding save_consent now Methods.save_consent Methods.get_code
  save_consent-Has post user_id req w h = h

  with_fact : {P Q R : Type 0} → R → P ⊎ Q → P ⊎ (R × Q)
  with_fact r (inl p) = inl p
  with_fact r (inr q) = inr (r, q)

  approve-Has :
      (user_id : Text) (req : AuthzRequest) (w : World)
      → Has (issue_code s k true user_id req (save_consent s k true user_id req w)).1.store
      → Has w.store ⊎ IsFor user_id req c
  approve-Has user_id req w h =
      elim (issue_code-Has true user_id req (save_consent s k true user_id req w) h) [
        | inl old ↦ inl (save_consent-Has true user_id req w old)
        | inr i ↦ inr i
      ]

  decide-Has :
      (v : Values) (user_id : Text) (req : AuthzRequest) (w : World)
      → Has (decide s k true v user_id req w).1.store
      → Has w.store ⊎ (Consented s k true v user_id req w.store × IsFor user_id req c)
  unfolding decide now
  decide-Has v user_id req w h =
      elim (Bool-cases
        (check_csrf k (s.env.clock w.reads) (value v (codes "csrf_token")) user_id req)) [
          | inr e ↦ inl (rw (e, decide) at h)
          | inl e ↦ elim (Bool-cases (value v (codes "decision") == codes "approve")) [
            | inl d ↦
                with_fact
                  (
                    (s.env.clock w.reads, e),
                    (text_beq_iff (value v (codes "decision")) (codes "approve")).0 d,
                  )
                  (approve-Has user_id req _ (rw (e, decide, d) at h))
            | inr d ↦ inl (rw (e, decide, d) at h)
          ]
        ]

  ask_unless_covered-Has :
      (v : Values) (user_id : Text) (req : AuthzRequest) (w : World)
      → Has (ask_unless_covered s k false user_id req w).1.store
      → Has w.store ⊎ (Consented s k false v user_id req w.store × IsFor user_id req c)
  unfolding ask_unless_covered ask now
  ask_unless_covered-Has v user_id req w h =
      elim (Errors.Result-cases (Methods.get_consent w.store user_id req.client.id)) [
        | inl (e, missing) ↦ inl (rw (missing, ask_unless_covered) at h)
        | inr (given, kept) ↦
            elim (Bool-cases (contains_all (parse_scopes given.scopes) req.scopes)) [
              | inl d ↦
                  with_fact (given, kept, d)
                    (issue_code-Has false user_id req w (rw (kept, ask_unless_covered, d) at h))
              | inr d ↦ inl (rw (kept, ask_unless_covered, d) at h)
            ]
      ]

  is_locked_out-store : (u : User) (w : World) → (is_locked_out s.env u w).1.store ≡ w.store
  unfolding is_locked_out now
  is_locked_out-store u w = elim (Bool-cases u.lockout_enabled) [
    | inr e ↦ rw (e, is_locked_out) refl
    | inl e ↦ elim (Option-cases u.lockout_end) [
      | inl n ↦ rw (e, n, is_locked_out) refl
      | inr (t, n) ↦ rw (e, n, is_locked_out) refl
    ]
  ]

  decided :
      (post : Bool) (v : Values) (user_id : Text) (req : AuthzRequest) (w : World)
      → Has
          (if post
            then decide s k post v user_id req w
            else ask_unless_covered s k post user_id req w).1.store
      → Has w.store ⊎ (Consented s k post v user_id req w.store × IsFor user_id req c)
  decided true v user_id req w h = decide-Has v user_id req w h
  decided false v user_id req w h = ask_unless_covered-Has v user_id req w h

  pub serve_user-Has :
      (post : Bool) (v : Values) (user_id : Text) (req : AuthzRequest) (w : World)
      → user_id ≢ []
      → Has (serve_user s k post v user_id req w).1.store
      → Has w.store
        ⊎ (Active s user_id w × Consented s k post v user_id req w.store × IsFor user_id req c)
  unfolding serve_user
  serve_user-Has post v user_id req w someone h =
      elim (Errors.Result-cases (find_by_id w.store user_id)) [
        | inl (e, missing) ↦ inl (rw (missing, serve_user) at h)
        | inr (u, known) ↦
            let (_, w') = is_locked_out s.env u w in
            let same : w'.store ≡ w.store = is_locked_out-store u w in
            elim (Bool-cases (is_locked_out s.env u w).0) [
              | inl d ↦ inl (subst Has same (rw (known, serve_user, d) at h))
              | inr d ↦ elim (decided post v user_id req w' (rw (known, serve_user, d) at h)) [
                | inl old ↦ inl (subst Has same old)
                | inr (given, i) ↦
                    inr (
                      (someone, u, known, d),
                      subst (Consented s k post v user_id req) same given,
                      i,
                    )
              ]
            ]
      ]
