-- ===== src/Oauth/Types.antt =====
-- oauth/types.go: what the authorization server stores.
use go_idento.Prelude.{ℕ, Option, List, Text}

pub record Client : Type 0 where
  pub client_id : Text
  pub secret_hash : Text
  pub name : Text
  pub redirect_uris : List Text
  pub token_endpoint_auth_method : Text
  pub grant_types : List Text
  pub created_at : ℕ
  pub last_used_at : Option ℕ

pub record Code : Type 0 where
  pub code_hash : Text
  pub client_id : Text
  pub user_id : Text
  pub redirect_uri : Text
  pub scopes : Text
  pub resource : Text
  pub code_challenge : Text
  pub expires_at : ℕ
  pub used_at : Option ℕ
  pub grant_id : Text

pub record Consent : Type 0 where
  pub user_id : Text
  pub client_id : Text
  pub scopes : Text
  pub created_at : ℕ
  pub updated_at : ℕ

pub record Grant : Type 0 where
  pub id : Text
  pub user_id : Text
  pub client_id : Text
  pub scopes : Text
  pub resource : Text
  pub token_hash : Text
  pub prev_token_hash : Text
  pub security_stamp : Text
  pub expires_at : ℕ
  pub created_at : ℕ
  pub last_used_at : Option ℕ
