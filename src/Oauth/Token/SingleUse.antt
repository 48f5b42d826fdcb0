-- ===== src/Oauth/Token/SingleUse.antt =====
-- oauth/token.go: an authorization code gives tokens once.
use go_idento.Prelude.{
  ℕ, ◌≤◌, ◌≡◌, ◌≢◌, ◌⊎◌, true, false, not, none, some, [], arith, ◌==◌, Text, text_eq, text_beq_iff,
  is_some,
}
use go_idento.Dict
use go_idento.Dict.{get-put, get-remove}
use go_idento.Identity.Entities.{User}
use go_idento.Identity.World.{World, now, fresh}
use go_idento.Identity.Lockout.{is_locked_out}
use go_idento.MemStore.Oauth as Methods
use go_idento.Oauth.Types.{Code}
use go_idento.Oauth.Scopes.{verify_s256}
use go_idento.Oauth.Server.{
  Server, ResolvedClient, unauthorized_client, code_required, code_used, guard, ok, fail, continue,
}
use go_idento.Oauth.Server.Inversion.{continue-ok, guard-ok}
use go_idento.Oauth.Token.Inversion.{available_user-ok}
use go_idento.Oauth.Token.{
  TokenResponse, CodeForm, client_allows, authorization_code, same_resource, available_user,
  revoke_grant_of, lookup_code, lost_race, mark, redeem, check_code, reject_replay, exchange_at,
  exchange_code,
}

module _ (s : Server) (client : ResolvedClient) (f : CodeForm) where
  -- A client that may use the code grant and presents a stored code that is marked as used is refused,
  -- whether a grant is recorded on the code or not; if none is, the store is as it was, and if one is,
  -- this grant is gone from the store.
  pub replay_revokes :
      (w : World) (code : Code)
      → client_allows client authorization_code ≡ true
      → f.code ≢ []
      → Dict.get w.store.oauth_codes (s.hash_secret f.code) ≡ some code
      → is_some code.used_at ≡ true
      → let r = exchange_code s client f w in
        (r.0 ≡ fail code_used)
        × (((code.grant_id ≡ []) × (r.1.store ≡ w.store))
            ⊎ ((code.grant_id ≢ []) × (Dict.get r.1.store.oauth_grants code.grant_id ≡ none)))
  unfolding exchange_code exchange_at lookup_code Methods.get_code reject_replay revoke_grant_of
      Methods.delete_grant now
  replay_revokes w code allowed given e used = (
    ground (arith, text_beq_iff f.code [], text_beq_iff code.grant_id []),
    ground (
      arith,
      text_beq_iff f.code [],
      text_beq_iff code.grant_id [],
      get-remove w.store.oauth_grants code.grant_id code.grant_id,
      text_beq_iff code.grant_id code.grant_id,
    ),
  )

  lookup_code-ok :
      (hash : Text) (w w' : World) (code : Code)
      → lookup_code s hash w ≡ (ok code, w')
      → (Dict.get w.store.oauth_codes hash ≡ some code) × (w ≡ w')
  unfolding lookup_code Methods.get_code
  lookup_code-ok hash w w' code h = ground arith

  reject_replay-ok :
      (code : Code) (w w' : World)
      → reject_replay s code w ≡ (ok tt, w')
      → (code.used_at ≡ none) × (w ≡ w')
  unfolding reject_replay revoke_grant_of
  reject_replay-ok code w w' h = ground arith

  check_code-ok :
      (code : Code) (t : ℕ) (w w' : World)
      → check_code s client f code t w ≡ (ok tt, w')
      → (t ≤ code.expires_at)
        × (code.client_id ≡ client.id)
        × ((f.redirect_uri ≡ []) ⊎ (f.redirect_uri ≡ code.redirect_uri))
        × (verify_s256 s.s256 f.code_verifier code.code_challenge ≡ true)
        × (same_resource s f.resource code.resource ≡ true)
        × (w ≡ w')
  unfolding check_code
  check_code-ok code t w w' h = ground (
    arith,
    text_beq_iff code.client_id client.id,
    text_beq_iff f.redirect_uri [],
    text_beq_iff f.redirect_uri code.redirect_uri,
  )

  exchange_at-ok :
      (w : World) (t : ℕ) (resp : TokenResponse) (w' : World) (code : Code)
      → exchange_at s client f code t w ≡ (ok resp, w')
      → (code.used_at ≡ none)
        × (t ≤ code.expires_at)
        × (code.client_id ≡ client.id)
        × ((f.redirect_uri ≡ []) ⊎ (f.redirect_uri ≡ code.redirect_uri))
        × (verify_s256 s.s256 f.code_verifier code.code_challenge ≡ true)
        × (same_resource s f.resource code.resource ≡ true)
        × ((u : User) × (Dict.get w.store.users code.user_id ≡ some u)
            × ((is_locked_out s.env u w).0 ≡ false))
  unfolding exchange_at
  exchange_at-ok w t resp w' code h =
      let go = λ (u : User). redeem s client (s.hash_secret f.code) code u t in
      let rest = λ (v : World). continue (available_user s code.user_id v) go in
      let (x, a, r, h1) =
        continue-ok (reject_replay s code w)
          (λ _ v. continue (check_code s client f code t v) (λ _ v'. rest v')) resp w' h in
      let (unused, e1) = reject_replay-ok code w a r in
      let (y, b, c, h2) =
        continue-ok (check_code s client f code t a) (λ _ v'. rest v') resp w' h1 in
      let (time, own, redirect, proved, bound, e2) = check_code-ok code t a b c in
      let (u, w2, av, h3) = continue-ok (available_user s code.user_id b) go resp w' h2 in
      let (owner, unlocked, e3) = available_user-ok s code.user_id b w2 u av in
      (unused, time, own, redirect, proved, bound, (u, ground arith, ground arith))

  -- What an exchange requires.
  abbrev pub Exchangeable : World → Type 0
  Exchangeable w =
      (client_allows client authorization_code ≡ true)
      × ((code : Code) × (Dict.get w.store.oauth_codes (s.hash_secret f.code) ≡ some code)
          × (code.used_at ≡ none)
          × (s.env.clock w.reads ≤ code.expires_at)
          × (code.client_id ≡ client.id)
          × ((f.redirect_uri ≡ []) ⊎ (f.redirect_uri ≡ code.redirect_uri))
          × (verify_s256 s.s256 f.code_verifier code.code_challenge ≡ true)
          × (same_resource s f.resource code.resource ≡ true)
          × ((u : User) × (Dict.get w.store.users code.user_id ≡ some u)
              × ((is_locked_out s.env u (now s.env w).1).0 ≡ false)))

  -- A code is exchanged only if the client may use the grant and the code is stored and unused, has not
  -- expired, was issued to this client, for this redirect URI where the request names one, and for the
  -- resource where the request names one, the verifier answers its S256 challenge, and its user exists
  -- and is not locked out.
  pub exchange_only :
      (w : World) (resp : TokenResponse) (w' : World)
      → exchange_code s client f w ≡ (ok resp, w')
      → Exchangeable w
  unfolding exchange_code now
  exchange_only w resp w' h =
      let hash = s.hash_secret f.code in
      let go =
        λ (code : Code) (v : World). exchange_at s client f code (now s.env v).0 (now s.env v).1 in
      let find = λ (v : World). continue (lookup_code s hash v) go in
      let (allowed, h1) =
        guard-ok (client_allows client authorization_code) unauthorized_client
          (λ _ v. continue (guard (not (f.code == [])) code_required v) (λ _ v'. find v')) resp w w'
          h in
      let (given, h2) =
        guard-ok (not (f.code == [])) code_required (λ _ v'. find v') resp w w' h1 in
      let (code, w1, l, h3) = continue-ok (lookup_code s hash w) go resp w' h2 in
      let (stored, e) = lookup_code-ok hash w w1 code l in
      let (unused, time, own, redirect, proved, bound, owner) =
        exchange_at-ok (now s.env w).1 (now s.env w).0 resp w' code (ground arith) in
      (allowed, (code, stored, unused, time, own, redirect, proved, bound, owner))

  -- A redemption that finds the stored code marked as used by another one is refused, whether a grant
  -- is recorded on the code or not; if none is, the store is as it was, and if one is, this grant is
  -- gone from the store.
  pub lost_race_revokes :
      (w : World) (code stored : Code) (u : User) (hash : Text) (t : ℕ)
      → Dict.get w.store.oauth_codes hash ≡ some stored
      → is_some stored.used_at ≡ true
      → let r = redeem s client hash code u t w in
        (r.0 ≡ fail code_used)
        × (((stored.grant_id ≡ []) × (r.1.store ≡ w.store))
            ⊎ ((stored.grant_id ≢ []) × (Dict.get r.1.store.oauth_grants stored.grant_id ≡ none)))
  unfolding redeem mark Methods.mark_code_used lost_race Methods.get_code revoke_grant_of
      Methods.delete_grant fresh
  lost_race_revokes w code stored u hash t e used = (
    ground (arith, text_beq_iff stored.grant_id []),
    ground (
      arith,
      text_beq_iff stored.grant_id [],
      get-remove w.store.oauth_grants stored.grant_id stored.grant_id,
      text_beq_iff stored.grant_id stored.grant_id,
    ),
  )
