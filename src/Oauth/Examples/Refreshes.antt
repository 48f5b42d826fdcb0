-- ===== src/Oauth/Examples/Refreshes.antt =====
-- Runs of the refresh grant of oauth/token.go.
use go_idento.Prelude.{
  pos, ◌≡◌, refl, true, false, none, some, [], ◌∷◌, ◌++◌, arith, text_eq, text_beq, codes, any, all,
  cut,
}
use go_idento.Dict
use go_idento.Dict.{get-put, get-empty}
use go_idento.Identity.World.{now, fresh}
use go_idento.Identity.Lockout.{is_locked_out}
use go_idento.MemStore.Users.{find_by_id}
use go_idento.MemStore.Memberships.{get_roles}
use go_idento.MemStore.Oauth as Methods
use go_idento.Oauth.Scopes.{
  words, space_bytes, with_spaces, fields, has_scope, dedup, parse_scopes, join_scopes,
  contains_all,
}
use go_idento.Oauth.Server.{token_used, fail, ok}
use go_idento.Oauth.Token.{
  TokenResponse, client_allows, refresh_token, same_resource, available_user, sign_access_token,
  token_response,
}
use go_idento.Oauth.Refresh.{
  split_token, lookup_grant, in_grace, check_secret, check_expiry, check_stamp, narrow, rotate,
  rotate_and_respond, refresh_checked, refresh_by, refresh_grant,
}
use go_idento.Prelude.{pair_eq}
use go_idento.Dict.{unless}
use go_idento.Oauth.Refresh.Rotation.{Refreshed, refresh_only, reuse_revokes}
use go_idento.Oauth.Examples.{server0, client0, code0, grant0, world0, refresh_form0, grant_stored}

abbrev refresh_response0 : TokenResponse
refresh_response0 = record {
  access_token = codes "jwt";
  expires_in = pos 899;
  refresh = codes "g.r" ++ (0 ∷ []);
  scope = codes "b";
}

refreshed : refresh_grant server0 client0 (refresh_form0 (codes "g.t")) (world0 code0) ≡ (
  ok refresh_response0,
  (refresh_grant server0 client0 (refresh_form0 (codes "g.t")) (world0 code0)).1,
)
unfolding refresh_grant refresh_by split_token cut client_allows lookup_grant Methods.get_grant
    Dict.get Dict.put Dict.empty text_beq check_secret refresh_checked check_expiry same_resource
    available_user is_locked_out find_by_id check_stamp narrow rotate_and_respond rotate
    Methods.rotate_grant token_response sign_access_token fields words space_bytes with_spaces
    has_scope any all dedup parse_scopes join_scopes contains_all now fresh get_roles
refreshed = refl

refresh_only_example :
    Refreshed server0 client0
      (refresh_form0 (codes "g.t"))
      refresh_response0
      (world0 code0)
      (refresh_grant server0 client0 (refresh_form0 (codes "g.t")) (world0 code0)).1
refresh_only_example =
    refresh_only server0 client0 (refresh_form0 (codes "g.t")) refresh_response0 (world0 code0) _
      refreshed

refresh_allowed : client_allows client0 refresh_token ≡ true
unfolding client_allows text_beq
refresh_allowed = refl

last_secret : split_token (codes "g.p") ≡ some (codes "g", codes "p")
unfolding split_token cut text_beq
last_secret = refl

too_late : in_grace server0 grant0 1000 ≡ false
unfolding in_grace
too_late = refl

reuse_revokes_example :
    let r = refresh_grant server0 client0 (refresh_form0 (codes "g.p")) (world0 code0) in
    (r.0 ≡ fail token_used) × (Dict.get r.1.store.oauth_grants (codes "g") ≡ none)
reuse_revokes_example =
    reuse_revokes server0 client0 (refresh_form0 (codes "g.p")) (codes "g") (codes "p")
      (world0 code0) grant0 refresh_allowed last_secret grant_stored refl refl refl
      (λ e. ground arith) (λ e. ground arith) too_late
