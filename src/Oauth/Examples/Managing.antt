-- ===== src/Oauth/Examples/Managing.antt =====
-- Runs of the validation and the revocation of tokens in oauth/token.go and oauth/server.go.
use go_idento.Oauth.Urls.{canonical_resource}
use go_idento.Prelude.{◌≡◌, refl, none, some, text_eq, text_beq, codes}
use go_idento.Oauth.Types.{Grant}
use go_idento.Identity.World.{now}
use go_idento.Dict
use go_idento.Dict.{get-put, get-empty}
use go_idento.Identity.Lockout.{is_locked_out}
use go_idento.MemStore.Users.{find_by_id}
use go_idento.MemStore.Oauth as Methods
use go_idento.Oauth.Refresh.{valid_claims, validate_resource_token}
use go_idento.Oauth.Manage.{revoke_grant, revoke_client}
use go_idento.Oauth.Manage.Revocation.{revoke_grant-Cases, revoke_client_disconnects}
use go_idento.Identity.Errors.{ok as done, err as refused, not_found}
use go_idento.MemStore.State.{consent_key}
use go_idento.Prelude.{pair_eq, ◌⊎◌, ◌≢◌}
use go_idento.Dict.{unless}
use go_idento.Oauth.Refresh.Validation.{Valid, resource_token_only}
use go_idento.Oauth.Examples.{claims0, server0, user0, code0, grant0, store0, world0, grant_stored}

validated :
    validate_resource_token server0 (codes "jwt") (codes "r") (world0 code0)
    ≡ (some (user0, claims0), record (world0 code0) { reads = 1 })
unfolding now canonical_resource validate_resource_token valid_claims find_by_id Methods.get_grant
    is_locked_out Dict.get Dict.put Dict.empty text_beq
validated = refl

resource_token_only_example : Valid server0 (codes "jwt") (codes "r") user0 claims0 (world0 code0)
resource_token_only_example =
    resource_token_only server0 (codes "jwt") (codes "r") (world0 code0)
      (record (world0 code0) { reads = 1 }) user0 claims0 validated

revoke_grant-Cases_example :
    let r = revoke_grant (world0 code0).store (codes "u") (codes "g") in
    ((grant0.user_id ≢ codes "u") × (r ≡ (refused not_found, (world0 code0).store)))
    ⊎ ((grant0.user_id ≡ codes "u")
        × (r.0 ≡ done tt)
        × (Dict.get r.1.oauth_grants (codes "g") ≡ none)
        × ((valid_claims server0 claims0 (record (world0 code0) { store = r.1 })).0 ≡ none))
revoke_grant-Cases_example =
    revoke_grant-Cases server0 (world0 code0) (codes "u") claims0 grant0 grant_stored

revoke_client_disconnects_example :
    let t = revoke_client (store0 code0) (codes "u") (codes "c") in
    (Dict.get t.oauth_consents (consent_key (codes "u") (codes "c")) ≡ none)
    × (((Dict.get (store0 code0).oauth_grants (codes "g") ≡ none)
          × (Dict.get t.oauth_grants (codes "g") ≡ none))
        ⊎ ((g : Grant) × (Dict.get (store0 code0).oauth_grants (codes "g") ≡ some g)
            × (((g.user_id ≡ codes "u")
                  × (g.client_id ≡ codes "c")
                  × (Dict.get t.oauth_grants (codes "g") ≡ none))
                ⊎ ((g.user_id ≢ codes "u" ⊎ g.client_id ≢ codes "c")
                    × (Dict.get t.oauth_grants (codes "g") ≡ some g)))))
revoke_client_disconnects_example =
    revoke_client_disconnects (store0 code0) (codes "u") (codes "c") (codes "g")
