-- ===== src/Identity/Entities.antt =====
-- identity/entities.go and the types of identity/store.go and identity/options.go.
-- A time is its number of nanoseconds, a text its bytes; a pointer to a time is an `Option`.
use go_idento.Prelude.{
  ℕ, ◌≡◌, ◌↔◌, Bool, ◌&&◌, true, false, Option, none, List, [], arith, Eq, ◌==◌, Text, text_eq,
  text_beq_iff,
}
use go_idento.Dict.{Dict}

pub record User : Type 0 where
  pub id : Text
  pub user_name : Text
  pub normalized_user_name : Text
  pub email : Text
  pub normalized_email : Text
  pub email_confirmed : Bool
  pub password_hash : Text
  pub security_stamp : Text
  pub concurrency_stamp : Text
  pub phone_number : Text
  pub phone_number_confirmed : Bool
  pub two_factor_enabled : Bool
  pub lockout_end : Option ℕ
  pub lockout_enabled : Bool
  pub access_failed_count : ℕ
  pub is_anonymous : Bool
  pub attributes : Option (Dict Text Text)
  pub created_at : ℕ
  pub updated_at : ℕ

pub record Role : Type 0 where
  pub id : Text
  pub name : Text
  pub normalized_name : Text
  pub concurrency_stamp : Text

pub record Claim : Type 0 where
  pub type : Text
  pub value : Text

pub record ApiKey : Type 0 where
  pub id : Text
  pub user_id : Text
  pub name : Text
  pub prefix : Text
  pub key_hash : Text
  pub scopes : List Text
  pub expires_at : Option ℕ
  pub last_used_at : Option ℕ
  pub revoked_at : Option ℕ
  pub created_at : ℕ

pub record RefreshToken : Type 0 where
  pub session_id : Text
  pub user_id : Text
  pub token_hash : Text
  pub name : Text
  pub expires_at : ℕ
  pub created_at : ℕ
  pub last_used_at : Option ℕ

pub record UserLoginInfo : Type 0 where
  pub login_provider : Text
  pub provider_key : Text
  pub provider_display_name : Text

-- Go's `==` on two claims.
unfoldable pub claim_beq : Claim → Claim → Bool
claim_beq c d = c.type == d.type && c.value == d.value

pub claim_beq_iff : (c d : Claim) → (claim_beq c d ≡ true) ↔ (c ≡ d)
unfolding claim_beq
claim_beq_iff c d = ground (arith, text_beq_iff c.type d.type, text_beq_iff c.value d.value)

instance abbrev pub claim_eq : Eq Claim
claim_eq = record { beq = claim_beq; beq_iff = claim_beq_iff }

-- The zero value of `User`.
abbrev pub blank_user : User
blank_user = record {
  id = [];
  user_name = [];
  normalized_user_name = [];
  email = [];
  normalized_email = [];
  email_confirmed = false;
  password_hash = [];
  security_stamp = [];
  concurrency_stamp = [];
  phone_number = [];
  phone_number_confirmed = false;
  two_factor_enabled = false;
  lockout_end = none;
  lockout_enabled = false;
  access_failed_count = 0;
  is_anonymous = false;
  attributes = none;
  created_at = 0;
  updated_at = 0;
}
