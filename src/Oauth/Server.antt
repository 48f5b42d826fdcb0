-- ===== src/Oauth/Server.antt =====
-- oauth/server.go, oauth/util.go: the server's settings, its errors, and actions that may fail. What is
-- written before an error stays written.
pub mod Inversion
use go_idento.Prelude.{◌++◌, ℕ, suc, Bool, true, false, Option, none, some, List, Text}
use go_idento.Identity.World.{Env, World, now, fresh}
use go_idento.Oauth.Urls.{Web}

-- The claims of an access token of oauth/token.go; times are in seconds.
pub record AccessClaims : Type 0 where
  pub iss : Text
  pub sub : Text
  pub aud : Text
  pub iat : ℕ
  pub nbf : ℕ
  pub exp : ℕ
  pub jti : Text
  pub client_id : Text
  pub scope : Text
  pub gid : Text
  pub security_stamp : Text
  pub roles : List Text

pub record Server : Type 0 where
  pub env : Env
  pub issuer : Text
  pub access_token_ttl : ℕ
  pub refresh_token_ttl : ℕ
  pub refresh_reuse_grace : ℕ
  pub require_offline_access : Bool
  pub code_ttl : ℕ
  -- The supported scopes, in scopeSet as well, and DefaultScopes with nil as `none`.
  pub scopes : List Text
  pub default_scopes : Option (List Text)
  -- The canonical resources.
  pub resource_list : List Text
  pub allow_cimd : Bool
  -- hashSecret, and base64url(sha256(·)).
  pub hash_secret : Text → Text
  pub s256 : Text → Text
  pub web : Web
  -- TokenPath, AuthorizePath, and LoginURL for the request.
  pub token_path : Text
  pub authorize_path : Text
  pub login_url : Text → Text
  -- The signature of a token under the configured key, and jwt.Parse with its checks on signature,
  -- algorithm, issuer, audience and, at a time, expiry: the `typ` of the header, and the claims.
  pub sign : AccessClaims → Option Text
  pub verify : Text → Text → ℕ → Option (Text × AccessClaims)

-- The two types of a public key.
pub data KeyType : Type 0 where
  rsa ec : KeyType

-- clientKey, the key itself by its encoding.
pub record ClientKey : Type 0 where
  pub kid : Text
  pub alg : Text
  pub key_type : KeyType
  pub key : Text

-- resolvedClient
pub record ResolvedClient : Type 0 where
  pub id : Text
  pub name : Text
  pub display_host : Text
  pub redirect_uris : List Text
  pub auth_method : Text
  pub secret_hash : Text
  pub grant_types : List Text
  pub cimd : Bool
  -- JWKSURI, the inline keys as they were decoded, and SigningAlg.
  pub jwks_uri : Text
  pub keys : List ClientKey
  pub signing_alg : Text

-- Server.endpoint
abbrev pub endpoint_at : Server → Text → Text
endpoint_at s path = s.issuer ++ path

-- The error responses of the token endpoint.
pub data OauthError : Type 0 where
  unauthorized_client : OauthError
  code_required code_invalid code_used code_expired code_of_another_client : OauthError
  redirect_uri_mismatch pkce_failed target_mismatch user_unavailable : OauthError
  token_invalid token_of_another_client token_used token_expired grant_revoked : OauthError
  scope_exceeded server_error : OauthError

-- The `error` member of the response.
pub data ErrorCode : Type 0 where
  unauthorized_client invalid_request invalid_grant invalid_target invalid_scope : ErrorCode
  server_error : ErrorCode

pub error_code : OauthError → ErrorCode
error_code OauthError.unauthorized_client = ErrorCode.unauthorized_client
error_code code_required = invalid_request
error_code target_mismatch = invalid_target
error_code scope_exceeded = invalid_scope
error_code OauthError.server_error = ErrorCode.server_error
error_code _ = invalid_grant

pub data Reply {ℓ} (A : Type ℓ) : Type ℓ where
  ok : A → Reply A
  fail : OauthError → Reply A

abbrev pub M : Type 0 → Type 0
M A = World → Reply A × World

abbrev pub continue : {A B : Type 0} → Reply A × World → (A → M B) → Reply B × World
continue (ok a, w) f = f a w
continue (fail e, w) f = (fail e, w)

infixl 5 ◌>>=◌ ◌>>◌
abbrev pub ◌>>=◌ : {A B : Type 0} → M A → (A → M B) → M B
◌>>=◌ m f w = continue (m w) f

abbrev pub ◌>>◌ : {B : Type 0} → M (Unit {0}) → M B → M B
m >> n = m >>= λ _. n

abbrev pub pure : {A : Type 0} → A → M A
pure a w = (ok a, w)

abbrev pub raise : {A : Type 0} → OauthError → M A
raise e w = (fail e, w)

abbrev pub guard : Bool → OauthError → M (Unit {0})
guard true e = pure tt
guard false e = raise e

abbrev pub read_clock : Server → M ℕ
read_clock s w = (ok (now s.env w).0, (now s.env w).1)

abbrev pub draw : Server → M Text
draw s w = (ok (fresh s.env w).0, (fresh s.env w).1)
