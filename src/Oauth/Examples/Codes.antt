-- ===== src/Oauth/Examples/Codes.antt =====
-- Runs of the code grant of oauth/token.go.
use go_idento.Prelude.{
  pos, ◌≢◌, ◌⊎◌, false, ◌≡◌, refl, true, none, some, [], ◌∷◌, ◌++◌, arith, text_eq, text_beq, codes,
  any, all,
}
use go_idento.Dict
use go_idento.Dict.{get-put, get-empty}
use go_idento.Identity.World.{now, fresh}
use go_idento.Identity.Lockout.{is_locked_out}
use go_idento.MemStore.Users.{find_by_id}
use go_idento.MemStore.Memberships.{get_roles}
use go_idento.MemStore.Oauth as Methods
use go_idento.Oauth.Scopes.{
  words, space_bytes, with_spaces, fields, has_scope, dedup, parse_scopes, join_scopes,
  is_unreserved, valid_verifier, verify_s256,
}
use go_idento.Oauth.Urls.{canonical_resource}
use go_idento.Oauth.Server.{code_used, fail, ok}
use go_idento.Oauth.Token.{
  TokenResponse, client_allows, authorization_code, issues_refresh, same_resource, available_user,
  sign_access_token, token_response, lookup_code, mark, save_grant, touch, draw_secret, issue,
  redeem, check_code, reject_replay, exchange_at, exchange_code,
}
use go_idento.Oauth.Token.SingleUse.{Exchangeable, exchange_only, replay_revokes, lost_race_revokes}
use go_idento.Prelude.{pair_eq}
use go_idento.Dict.{unless}
use go_idento.Oauth.Token.Completion.{Succeeds, exchange-Succeeds}
use go_idento.Oauth.Examples.{
  env0, verifier0, server0, client0, user0, code0, used0, world0, code_form0,
}

abbrev code_response0 : TokenResponse
code_response0 = record {
  access_token = codes "jwt";
  expires_in = pos 899;
  refresh = codes "r" ++ (0 ∷ codes ".r" ++ (1 ∷ []));
  scope = codes "a b";
}

exchanged :
    exchange_code server0 client0 code_form0 (world0 code0)
    ≡ (ok code_response0, (exchange_code server0 client0 code_form0 (world0 code0)).1)
unfolding canonical_resource exchange_code exchange_at lookup_code Methods.get_code reject_replay
    client_allows Dict.get Dict.put Dict.empty text_beq check_code verify_s256 valid_verifier all
    is_unreserved same_resource available_user is_locked_out find_by_id redeem mark
    Methods.mark_code_used issue issues_refresh draw_secret save_grant touch token_response
    sign_access_token fields words space_bytes with_spaces has_scope any dedup parse_scopes
    join_scopes now fresh get_roles Methods.create_grant Methods.touch_client
exchanged = refl

exchange_only_example : Exchangeable server0 client0 code_form0 (world0 code0)
exchange_only_example =
    exchange_only server0 client0 code_form0 (world0 code0) code_response0 _ exchanged

-- A code that was used is stored.
used_stored : Dict.get (world0 used0).store.oauth_codes (codes "#k") ≡ some used0
unfolding Dict.get Dict.put Dict.empty text_beq
used_stored = refl

allowed : client_allows client0 authorization_code ≡ true
unfolding client_allows text_beq
allowed = refl

replay_revokes_example :
    let r = exchange_code server0 client0 code_form0 (world0 used0) in
    (r.0 ≡ fail code_used)
    × (((codes "g" ≡ []) × (r.1.store ≡ (world0 used0).store))
        ⊎ ((codes "g" ≢ []) × (Dict.get r.1.store.oauth_grants (codes "g") ≡ none)))
replay_revokes_example =
    replay_revokes server0 client0 code_form0 (world0 used0) used0 allowed (λ e. ground arith)
      used_stored refl

lost_race_revokes_example :
    let r = redeem server0 client0 (codes "#k") code0 user0 9 (world0 used0) in
    (r.0 ≡ fail code_used)
    × (((codes "g" ≡ []) × (r.1.store ≡ (world0 used0).store))
        ⊎ ((codes "g" ≢ []) × (Dict.get r.1.store.oauth_grants (codes "g") ≡ none)))
lost_race_revokes_example =
    lost_race_revokes server0 client0 code_form0 (world0 used0) code0 used0 user0 (codes "#k") 9
      used_stored refl

code_stored : Dict.get (world0 code0).store.oauth_codes (codes "#k") ≡ some code0
unfolding Dict.get Dict.put Dict.empty text_beq
code_stored = refl

owner_stored : Dict.get (world0 code0).store.users (codes "u") ≡ some user0
unfolding Dict.get Dict.put Dict.empty text_beq
owner_stored = refl

owner_unlocked : (is_locked_out env0 user0 (now env0 (world0 code0)).1).0 ≡ false
unfolding is_locked_out
owner_unlocked = refl

verifier_fits : verify_s256 server0.s256 verifier0 verifier0 ≡ true
unfolding verify_s256 valid_verifier all is_unreserved text_beq
verifier_fits = refl

resource_fits : same_resource server0 (codes "r") (codes "r") ≡ true
unfolding canonical_resource same_resource text_beq
resource_fits = refl

exchange-Succeeds_example : Succeeds (exchange_code server0 client0 code_form0 (world0 code0))
exchange-Succeeds_example =
    exchange-Succeeds server0 (λ c. (codes "jwt", refl)) client0 code_form0 (world0 code0) code0
      user0 allowed (λ e. ground arith) code_stored refl (omega arith) refl refl verifier_fits
      resource_fits owner_stored owner_unlocked

-- A no-break space separates scopes too.
spaced_out : fields (b'a' ∷ 194 ∷ 160 ∷ b'b' ∷ []) ≡ codes "a" ∷ codes "b" ∷ []
unfolding fields words space_bytes with_spaces text_beq
spaced_out = refl
