-- ===== src/Oauth/Token/Completion.antt =====
-- oauth/token.go: an exchange that meets the conditions gives tokens.
use go_idento.Prelude.{
  ℕ, ◌+◌, ◌≤◌, ◌≡◌, refl, ◌≢◌, inl, inr, true, false, none, some, List, [], arith, ◌==◌, Text,
  text_eq, text_beq_iff, Bool-cases,
}
use go_idento.Dict
use go_idento.Identity.Entities.{User}
use go_idento.Identity.World.{World, now, fresh}
use go_idento.Identity.Lockout.{is_locked_out}
use go_idento.MemStore.Users.{find_by_id}
use go_idento.MemStore.Memberships.{get_roles}
use go_idento.MemStore.Oauth as Methods
use go_idento.MemStore.Branches.{mark_fresh}
use go_idento.Oauth.Types.{Code, Grant}
use go_idento.Oauth.Scopes.{parse_scopes, verify_s256}
use go_idento.Oauth.Server.{AccessClaims, Server, ResolvedClient, Reply, ok}
use go_idento.Oauth.Token.{
  CodeForm, client_allows, authorization_code, claims_of, issues_refresh, same_resource,
  available_user, sign_access_token, token_response, lookup_code, mark, save_grant, touch,
  draw_secret, issue, redeem, check_code, reject_replay, exchange_at, exchange_code,
}

abbrev pub Succeeds : {A : Type 0} → Reply A × World → Type 0
Succeeds {A = A} r = (a : A) × (r.0 ≡ ok a)

module _ (s : Server) where
  looked_up :
      (hash : Text) (w : World) (code : Code)
      → Dict.get w.store.oauth_codes hash ≡ some code
      → lookup_code s hash w ≡ (ok code, w)
  unfolding lookup_code Methods.get_code
  looked_up hash w code e = ground arith

  checked :
      (client : ResolvedClient) (f : CodeForm) (code : Code) (t : ℕ) (w : World)
      → t ≤ code.expires_at
      → code.client_id ≡ client.id
      → f.redirect_uri ≡ code.redirect_uri
      → verify_s256 s.s256 f.code_verifier code.code_challenge ≡ true
      → same_resource s f.resource code.resource ≡ true
      → check_code s client f code t w ≡ (ok tt, w)
  unfolding check_code
  checked client f code t w time own redirect proved bound =
      ground (
        arith,
        text_beq_iff code.client_id client.id,
        text_beq_iff f.redirect_uri code.redirect_uri,
      )

  available :
      (id : Text) (w : World) (u : User)
      → Dict.get w.store.users id ≡ some u
      → (is_locked_out s.env u w).0 ≡ false
      → available_user s id w ≡ (ok u, (is_locked_out s.env u w).1)
  unfolding available_user find_by_id
  available id w u e free = ground arith

  unreplayed : (code : Code) (w : World) → code.used_at ≡ none → reject_replay s code w ≡ (ok tt, w)
  unfolding reject_replay
  unreplayed code w unused = ground arith

  -- Asking for the lock writes nothing.
  lock_keeps : (u : User) (w : World) → (is_locked_out s.env u w).1.store ≡ w.store
  unfolding is_locked_out now
  lock_keeps u w = ground arith

module _ (s : Server) (signs : (c : AccessClaims) → (token : Text) × (s.sign c ≡ some token)) where
  signed :
      (u : User) (g : Grant) (scopes : List Text) (w : World)
      → (a : Text × ℕ) × (w' : World) × (sign_access_token s u g scopes w ≡ (ok a, w'))
  unfolding sign_access_token now fresh
  signed u g scopes w =
      let (token, e) = signs (
        claims_of s u g scopes (get_roles w.store u) (s.env.random w.draws)
          (s.env.clock w.reads)) in
      (
        (token, s.env.clock w.reads + s.access_token_ttl),
        (fresh s.env (now s.env w).1).1,
        rw e refl,
      )

  responded :
      (u : User) (g : Grant) (scopes : List Text) (refresh : Text) (w : World)
      → Succeeds (token_response s u g scopes refresh w)
  unfolding token_response now
  responded u g scopes refresh w = let (a, w', e) = signed u g scopes w in rw e (_, refl)

  issued :
      (client : ResolvedClient) (code : Code) (u : User) (t : ℕ) (grant_id : Text) (w : World)
      → Succeeds (issue s client code u t grant_id w)
  unfolding issue draw_secret save_grant touch fresh
  issued client code u t grant_id w =
      elim (Bool-cases (issues_refresh s client (parse_scopes code.scopes))) [
        | inl more ↦ rw more (responded _ _ _ _ _)
        | inr less ↦ rw less (responded _ _ _ _ _)
      ]

  redeemed :
      (client : ResolvedClient) (hash : Text) (code : Code) (u : User) (t : ℕ) (w : World)
      → Dict.get w.store.oauth_codes hash ≡ some code
      → code.used_at ≡ none
      → Succeeds (redeem s client hash code u t w)
  unfolding redeem mark fresh
  redeemed client hash code u t w stored unused =
      rw (mark_fresh w.store hash (s.env.random w.draws) t code stored (ground arith))
        (issued client code u t _ _)

  -- A code is exchanged if the client may use the grant and the code is stored and unused, has not
  -- expired, was issued to this client, for the redirect URI and the resource of the request, the
  -- verifier answers its challenge, its user exists and is not locked out, and the key signs.
  pub exchange-Succeeds :
      (client : ResolvedClient) (f : CodeForm) (w : World) (code : Code) (u : User)
      → client_allows client authorization_code ≡ true
      → f.code ≢ []
      → Dict.get w.store.oauth_codes (s.hash_secret f.code) ≡ some code
      → code.used_at ≡ none
      → s.env.clock w.reads ≤ code.expires_at
      → code.client_id ≡ client.id
      → f.redirect_uri ≡ code.redirect_uri
      → verify_s256 s.s256 f.code_verifier code.code_challenge ≡ true
      → same_resource s f.resource code.resource ≡ true
      → Dict.get w.store.users code.user_id ≡ some u
      → (is_locked_out s.env u (now s.env w).1).0 ≡ false
      → Succeeds (exchange_code s client f w)
  unfolding exchange_code exchange_at now
  exchange-Succeeds client f w code u allowed given stored unused time own redirect proved bound
        owner free =
      let w1 = (now s.env w).1 in
      let is_given : (f.code == []) ≡ false = ground (arith, text_beq_iff f.code []) in
      rw
        (
          allowed,
          is_given,
          looked_up s (s.hash_secret f.code) w code stored,
          unreplayed s code w1 unused,
          checked s client f code (s.env.clock w.reads) w1 time own redirect proved bound,
          available s code.user_id w1 u owner free,
        )
        (redeemed client (s.hash_secret f.code) code u (s.env.clock w.reads)
          (is_locked_out s.env u w1).1 (rw (lock_keeps s u w1) stored) unused)
