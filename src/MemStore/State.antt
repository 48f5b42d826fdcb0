-- ===== src/MemStore/State.antt =====
-- stores/memstore/memstore.go: the state, and the keys of its maps.
use go_idento.Prelude.{ℕ, Bool, List, [], ◌∷◌, ◌++◌, Text, text_eq, pair_eq}
use go_idento.Dict
use go_idento.Dict.{Dict}
use go_idento.Identity.Entities.{User, Role, Claim, ApiKey, RefreshToken, UserLoginInfo}
use go_idento.Oauth.Types.{Client, Code, Consent, Grant}

pub record Store : Type 0 where
  pub users : Dict Text User
  pub roles : Dict Text Role
  pub user_roles : Dict Text (Dict Text Bool)
  pub user_claims : Dict Text (List Claim)
  pub role_claims : Dict Text (List Claim)
  pub tokens : Dict Text Text
  pub logins : Dict Text UserLoginInfo
  pub login_user : Dict Text Text
  pub api_keys : Dict Text ApiKey
  pub refresh_tokens : Dict Text RefreshToken
  pub oauth_clients : Dict Text Client
  pub oauth_codes : Dict Text Code
  pub oauth_consents : Dict Text Consent
  pub oauth_grants : Dict Text Grant
  pub oauth_jtis : Dict (Text × Text) ℕ

abbrev pub new : Store
new = record {
  users = Dict.empty;
  roles = Dict.empty;
  user_roles = Dict.empty;
  user_claims = Dict.empty;
  role_claims = Dict.empty;
  tokens = Dict.empty;
  logins = Dict.empty;
  login_user = Dict.empty;
  api_keys = Dict.empty;
  refresh_tokens = Dict.empty;
  oauth_clients = Dict.empty;
  oauth_codes = Dict.empty;
  oauth_consents = Dict.empty;
  oauth_grants = Dict.empty;
  oauth_jtis = Dict.empty;
}

-- "|"
abbrev pub bar : Text
bar = b'|' ∷ []

unfoldable pub token_key : Text → Text → Text → Text
token_key user_id provider name = user_id ++ (bar ++ (provider ++ (bar ++ name)))

unfoldable pub login_key : Text → Text → Text
login_key provider key = provider ++ (bar ++ key)

unfoldable pub consent_key : Text → Text → Text
consent_key user_id client_id = user_id ++ (bar ++ client_id)

-- What every token key of the user begins with.
unfoldable pub token_prefix : Text → Text
token_prefix user_id = user_id ++ bar
