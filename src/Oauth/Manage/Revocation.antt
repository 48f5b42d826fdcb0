-- ===== src/Oauth/Manage/Revocation.antt =====
-- oauth/server.go: what revoking and purging leave.
use go_idento.Prelude.{
  ◌≡◌, ◌≢◌, ◌⊎◌, ◌&&◌, inl, inr, Option-cases, none, some, arith, ◌==◌, Text, text_eq, text_beq_iff,
  ltb, pair_eq,
}
use go_idento.Dict
use go_idento.Dict.{get-remove, get-drop_where, left_by_drop_where, unless}
use go_idento.Identity.Errors.{ok, err, not_found}
use go_idento.Identity.World.{World, now}
use go_idento.MemStore.State.{Store, consent_key}
use go_idento.MemStore.Oauth as Methods
use go_idento.Oauth.Types.{Grant}
use go_idento.Oauth.Server.{AccessClaims, Server}
use go_idento.Oauth.Refresh.{valid_claims}
use go_idento.Oauth.Manage.{revoke_grant, revoke_client, purge_expired}

-- A user who revokes a grant of another user is refused and changes nothing; revoking an own grant
-- removes it, so that no access token of it is valid.
pub revoke_grant-Cases :
    (srv : Server) (w : World) (user_id : Text) (c : AccessClaims) (g : Grant)
    → Dict.get w.store.oauth_grants c.gid ≡ some g
    → let r = revoke_grant w.store user_id c.gid in
      ((g.user_id ≢ user_id) × (r ≡ (err not_found, w.store)))
      ⊎ ((g.user_id ≡ user_id)
          × (r.0 ≡ ok tt)
          × (Dict.get r.1.oauth_grants c.gid ≡ none)
          × ((valid_claims srv c (record w { store = r.1 })).0 ≡ none))
unfolding revoke_grant Methods.get_grant Methods.delete_grant valid_claims
revoke_grant-Cases srv w user_id c g e = ground (
  arith,
  text_beq_iff g.user_id user_id,
  get-remove w.store.oauth_grants c.gid c.gid,
  text_beq_iff c.gid c.gid,
)

-- After a client was disconnected from a user the consent is gone, also where no grant was stored, no
-- grant of the user and the client is left, every other grant is as it was, and none is new.
pub revoke_client_disconnects :
    (s : Store) (user_id client_id k : Text)
    → let t = revoke_client s user_id client_id in
      (Dict.get t.oauth_consents (consent_key user_id client_id) ≡ none)
      × (((Dict.get s.oauth_grants k ≡ none) × (Dict.get t.oauth_grants k ≡ none))
          ⊎ ((g : Grant) × (Dict.get s.oauth_grants k ≡ some g)
              × (((g.user_id ≡ user_id)
                    × (g.client_id ≡ client_id)
                    × (Dict.get t.oauth_grants k ≡ none))
                  ⊎ ((g.user_id ≢ user_id ⊎ g.client_id ≢ client_id)
                      × (Dict.get t.oauth_grants k ≡ some g)))))
unfolding revoke_client Methods.delete_consent Methods.delete_user_client_grants
revoke_client_disconnects s user_id client_id k = (
  ground (
    arith,
    get-remove s.oauth_consents (consent_key user_id client_id) (consent_key user_id client_id),
    text_beq_iff (consent_key user_id client_id) (consent_key user_id client_id),
  ),
  elim (Option-cases (Dict.get s.oauth_grants k)) [
    | inl e ↦ inl (
      e,
      ground (
        arith,
        get-drop_where s.oauth_grants (λ _ x. x.user_id == user_id && x.client_id == client_id) k,
      ),
    )
    | inr (g, e) ↦ inr (
      g,
      e,
      ground (
        arith,
        get-drop_where s.oauth_grants (λ _ x. x.user_id == user_id && x.client_id == client_id) k,
        text_beq_iff g.user_id user_id,
        text_beq_iff g.client_id client_id,
      ),
    )
  ],
)

-- A purge of expired rows removes exactly the codes, grants and assertions that expired before its
-- reading of the clock.
pub purge_expired_exact :
    (srv : Server) (w : World) (k : Text) (j : Text × Text)
    → let t = srv.env.clock w.reads in
      let s = (purge_expired srv w).1.store in
      (Dict.get s.oauth_codes k
        ≡ unless (λ _ c. ltb c.expires_at t) k (Dict.get w.store.oauth_codes k))
      × (Dict.get s.oauth_grants k
          ≡ unless (λ _ g. ltb g.expires_at t) k (Dict.get w.store.oauth_grants k))
      × (Dict.get s.oauth_jtis j ≡ unless (λ _ e. ltb e t) j (Dict.get w.store.oauth_jtis j))
unfolding purge_expired Methods.delete_expired_codes Methods.delete_expired_grants
    Methods.delete_expired_client_assertions now
purge_expired_exact srv w k j =
    let t = srv.env.clock w.reads in
    (
      get-drop_where w.store.oauth_codes (λ _ c. ltb c.expires_at t) k,
      get-drop_where w.store.oauth_grants (λ _ g. ltb g.expires_at t) k,
      get-drop_where w.store.oauth_jtis (λ _ e. ltb e t) j,
    )
