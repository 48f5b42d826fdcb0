-- ===== src/Oauth/Examples.antt =====
-- Rows and settings for the runs of oauth/token.go and oauth/server.go at concrete values.
mod Codes
mod Refreshes
mod Managing
mod Authorizing
mod Fetching
mod Asserting
use go_idento.Prelude.{
  ◌+◌, ◌≡◌, refl, true, false, ◌&&◌, none, some, [], ◌∷◌, ◌++◌, arith, ◌==◌, if◌then◌else◌, Text,
  text_eq, text_beq, codes, any, all, cut,
}
use go_idento.Dict
use go_idento.Dict.{get-put, get-empty}
use go_idento.Identity.Entities.{User, blank_user}
use go_idento.Identity.World.{Env, World, now, fresh}
use go_idento.Identity.Lockout.{is_locked_out}
use go_idento.MemStore.State.{Store, new}
use go_idento.MemStore.Users.{find_by_id}
use go_idento.MemStore.Memberships.{get_roles}
use go_idento.MemStore.Oauth as Methods
use go_idento.Oauth.Types.{Code, Grant}
use go_idento.Oauth.Scopes.{
  fields, has_scope, dedup, parse_scopes, join_scopes, contains_all, is_unreserved, valid_verifier,
  verify_s256,
}
use go_idento.Oauth.Urls.{Web, Url, canonical_resource}
use go_idento.Oauth.Server.{AccessClaims, Server, ResolvedClient, code_used, token_used, fail, ok}
use go_idento.Oauth.Token.{
  TokenResponse, CodeForm, RefreshForm, client_allows, authorization_code, refresh_token,
  issues_refresh, same_resource, available_user, sign_access_token, token_response, lookup_code,
  mark, save_grant, touch, draw_secret, issue, redeem, check_code, reject_replay, exchange_at,
  exchange_code,
}
use go_idento.Oauth.Token.SingleUse.{Exchangeable, exchange_only, replay_revokes, lost_race_revokes}
use go_idento.Oauth.Refresh.{
  split_token, lookup_grant, in_grace, check_secret, check_expiry, check_stamp, narrow, rotate,
  rotate_and_respond, refresh_checked, refresh_by, refresh_grant, valid_claims,
  validate_resource_token,
}
use go_idento.Oauth.Manage.{revoke_grant, revoke_client, purge_expired}
use go_idento.Oauth.Manage.Revocation.{
  revoke_grant-Cases, revoke_client_disconnects, purge_expired_exact,
}
use go_idento.Identity.Errors.{ok as done, err as refused, not_found}
use go_idento.MemStore.State.{consent_key}
use go_idento.Prelude.{pair_eq, ◌⊎◌, ltb, ◌≢◌}
use go_idento.Dict.{unless}
use go_idento.Oauth.Refresh.Rotation.{Refreshed, refresh_only, reuse_revokes}
use go_idento.Oauth.Refresh.Validation.{Valid, resource_token_only}

abbrev pub env0 : Env
env0 = record {
  random = λ n. b'r' ∷ n ∷ [];
  clock = λ n. n + 1000;
  normalize = λ t. t;
  hash = λ _ t. t;
  verify = λ h t. (h == t, false);
  runes = λ t. t;
  trim_space = λ t. t;
  is_digit = λ _. false;
  is_upper = λ _. false;
  is_lower = λ _. false;
  is_letter = λ _. true;
}

abbrev pub claims0 : AccessClaims
claims0 = record {
  iss = codes "i";
  sub = codes "u";
  aud = codes "r";
  iat = 0;
  nbf = 0;
  exp = 900;
  jti = codes "j";
  client_id = codes "c";
  scope = codes "a b";
  gid = codes "g";
  security_stamp = codes "s";
  roles = [];
}

-- Every text is the path of an https URL of one host.
abbrev pub web0 : Web
web0 = record {
  parse = λ t. some (record {
    scheme = codes "https";
    host = codes "h";
    path = t;
    raw_path = [];
    raw_query = [];
    fragment = [];
    user = false;
  });
  string = λ u. u.path;
  hostname = λ u. u.host;
  escaped_path = λ u. u.path;
  query = λ _. Dict.empty;
  encode = λ _. codes "q";
  is_loopback_ip = λ _. false;
  trim_space = λ t. t;
  to_lower = λ t. t;
  equal_fold = λ s t. s == t;
}

abbrev pub server0 : Server
server0 = record {
  env = env0;
  issuer = codes "i";
  access_token_ttl = 900000000000;
  refresh_token_ttl = 50000;
  refresh_reuse_grace = 0;
  require_offline_access = false;
  hash_secret = λ t. b'#' ∷ t;
  s256 = λ t. t;
  code_ttl = 60;
  scopes = codes "a" ∷ codes "b" ∷ [];
  default_scopes = none;
  resource_list = codes "r" ∷ [];
  allow_cimd = false;
  web = web0;
  token_path = codes "/t";
  authorize_path = codes "/a";
  login_url = λ back. codes "l";
  sign = λ _. some (codes "jwt");
  verify = λ token res _.
      if token == codes "jwt" && res == codes "r" then some (codes "at+jwt", claims0) else none;
}

abbrev pub client0 : ResolvedClient
client0 = record {
  id = codes "c";
  name = [];
  display_host = [];
  redirect_uris = [];
  auth_method = codes "none";
  secret_hash = [];
  grant_types = [];
  cimd = false;
  jwks_uri = [];
  keys = [];
  signing_alg = [];
}

abbrev pub verifier0 : Text
verifier0 = codes "abcdefghijklmnopqrstuvwxyz-ABCDEFGHIJKLMNOPQ"

abbrev pub user0 : User
user0 = record blank_user { id = codes "u"; security_stamp = codes "s" }

abbrev pub code0 : Code
code0 = record {
  code_hash = codes "#k";
  client_id = codes "c";
  user_id = codes "u";
  redirect_uri = [];
  scopes = codes "a b";
  resource = codes "r";
  code_challenge = verifier0;
  expires_at = 5000;
  used_at = none;
  grant_id = [];
}

-- The code after it was exchanged.
abbrev pub used0 : Code
used0 = record code0 { used_at = some 7; grant_id = codes "g" }

abbrev pub grant0 : Grant
grant0 = record {
  id = codes "g";
  user_id = codes "u";
  client_id = codes "c";
  scopes = codes "a b";
  resource = codes "r";
  token_hash = codes "#t";
  prev_token_hash = codes "#p";
  security_stamp = codes "s";
  expires_at = 5000;
  created_at = 1;
  last_used_at = some 2;
}

abbrev pub store0 : Code → Store
store0 c = record new {
  users = Dict.put Dict.empty (codes "u") user0;
  oauth_codes = Dict.put Dict.empty (codes "#k") c;
  oauth_grants = Dict.put Dict.empty (codes "g") grant0;
}

abbrev pub world0 : Code → World
world0 c = record { store = store0 c; draws = 0; reads = 0 }

abbrev pub code_form0 : CodeForm
code_form0 = record {
  code = codes "k";
  redirect_uri = [];
  code_verifier = verifier0;
  resource = codes "r";
}

abbrev pub refresh_form0 : Text → RefreshForm
refresh_form0 t = record { refresh_token = t; resource = []; scope = codes "b" }

pub grant_stored : Dict.get (world0 code0).store.oauth_grants (codes "g") ≡ some grant0
unfolding Dict.get Dict.put Dict.empty text_beq
grant_stored = refl
