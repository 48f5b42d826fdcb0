-- ===== src/Identity/Options.antt =====
-- identity/options.go. A length of time is its number of nanoseconds; the settings are not negative.
use go_idento.Prelude.{ℕ, Bool, true, false, Text, codes}

pub record PasswordOptions : Type 0 where
  pub required_length : ℕ
  pub require_digit : Bool
  pub require_lowercase : Bool
  pub require_uppercase : Bool
  pub require_non_alphanumeric : Bool
  pub required_unique_chars : ℕ

pub record LockoutOptions : Type 0 where
  pub allowed_for_new_users : Bool
  pub max_failed_access_attempts : ℕ
  pub default_lockout_duration : ℕ

pub record UserOptions : Type 0 where
  pub require_unique_email : Bool
  pub allowed_user_name_characters : Text

pub record SignInOptions : Type 0 where
  pub require_confirmed_email : Bool
  pub require_confirmed_phone_number : Bool

pub record Options : Type 0 where
  pub password : PasswordOptions
  pub lockout : LockoutOptions
  pub user : UserOptions
  pub sign_in : SignInOptions

-- 5 * time.Minute
abbrev pub five_minutes : ℕ
five_minutes = 300000000000

abbrev pub default_options : Options
default_options = record {
  password = record {
    required_length = 6;
    require_digit = true;
    require_lowercase = true;
    require_uppercase = true;
    require_non_alphanumeric = true;
    required_unique_chars = 1;
  };
  lockout = record {
    allowed_for_new_users = true;
    max_failed_access_attempts = 5;
    default_lockout_duration = five_minutes;
  };
  user = record {
    require_unique_email = true;
    allowed_user_name_characters =
        codes "abcdefghijklmnopqrstuvwxyzABCDEFGHIJKLMNOPQRSTUVWXYZ0123456789-._@+";
  };
  sign_in = record { require_confirmed_email = false; require_confirmed_phone_number = false };
}
