-- ===== src/Identity/SignIn.antt =====
-- identity/signin_manager.go: signing in with a password, and revalidating a session.
pub mod Gate
pub mod Sessions
pub mod BruteForce
use go_idento.Prelude.{
  ℕ, Bool, true, false, not, ◌&&◌, Option, none, some, ◌==◌, if◌then◌else◌, Text, text_eq,
}
use go_idento.Identity.Errors.{Result, ok, err}
use go_idento.Identity.Entities.{User}
use go_idento.Identity.Options.{Options, SignInOptions}
use go_idento.Identity.World.{Env, World}
use go_idento.Identity.Lockout.{
  Outcome, is_locked_out, access_failed, reset_access_failed_count, check_password,
}
use go_idento.MemStore.Users.{find_by_id, find_by_name}
use go_idento.MemStore.Credentials.{find_by_login}

pub record SignInResult : Type 0 where
  pub succeeded : Bool
  pub is_locked_out : Bool
  pub is_not_allowed : Bool
  pub requires_two_factor : Bool

abbrev pub refused : SignInResult
refused = record {
  succeeded = false;
  is_locked_out = false;
  is_not_allowed = false;
  requires_two_factor = false;
}

abbrev pub succeeded : SignInResult
succeeded = record refused { succeeded = true }

abbrev pub locked_out : SignInResult
locked_out = record refused { is_locked_out = true }

abbrev pub not_allowed : SignInResult
not_allowed = record refused { is_not_allowed = true }

abbrev pub two_factor : SignInResult
two_factor = record refused { requires_two_factor = true }

abbrev pub Attempt : Type 0
Attempt = (SignInResult × User) × World

unfoldable pub can_sign_in : SignInOptions → User → Bool
can_sign_in o u =
    if o.require_confirmed_email && not u.email_confirmed
    then false
    else if o.require_confirmed_phone_number && not u.phone_number_confirmed
    then false
    else true

module _ (env : Env) (o : Options) where
  -- The password was right: the failures are forgotten. An error of the write is only logged.
  unfoldable pub sign_in_checked : User → World → Attempt
  sign_in_checked u w =
      let ((r, u'), w') = reset_access_failed_count env u w in
      ((if u'.two_factor_enabled then two_factor else succeeded, u'), w')

  -- The password was wrong: the failure is counted if the caller asked for it.
  unfoldable pub sign_in_failed : User → Bool → World → Attempt
  sign_in_failed u false w = ((refused, u), w)
  sign_in_failed u true w =
      let ((r, u'), w1) = access_failed env o u w in
      let (locked, w2) = is_locked_out env u' w1 in
      ((if locked then locked_out else refused, u'), w2)

  unfoldable pub password_sign_in_user : User → Text → Bool → World → Attempt
  password_sign_in_user u pw lockout_on_failure w =
      let (locked, w1) = is_locked_out env u w in
      let ((right, u2), w2) = check_password env u pw w1 in
      if locked
      then ((locked_out, u), w1)
      else if not (can_sign_in o.sign_in u)
      then ((not_allowed, u), w1)
      else if right
      then sign_in_checked u2 w2
      else sign_in_failed u2 lockout_on_failure w2

  abbrev unknown : World → (SignInResult × Option User) × World
  unknown w = ((refused, none), w)

  abbrev known : Attempt → (SignInResult × Option User) × World
  known ((r, u), w) = ((r, some u), w)

  -- An unknown name is refused like a wrong password.
  unfoldable pub password_sign_in :
      Text → Text → Bool → World → (SignInResult × Option User) × World
  password_sign_in name pw lockout_on_failure w = elim (find_by_name w.store (env.normalize name)) [
    | err e ↦ unknown w
    | ok u ↦ known (password_sign_in_user u pw lockout_on_failure w)
  ]

  -- identity/external_login.go
  unfoldable pub external_login_sign_in : Text → Text → World → (SignInResult × Option User) × World
  external_login_sign_in provider key w = elim (find_by_login w.store provider key) [
    | err e ↦ unknown w
    | ok u ↦
        let (locked, w1) = is_locked_out env u w in
        if locked
        then known ((locked_out, u), w1)
        else if not (can_sign_in o.sign_in u)
        then known ((not_allowed, u), w1)
        else known (sign_in_checked u w1)
  ]

  unfoldable pub validate_security_stamp : Text → Text → World → Option User
  validate_security_stamp user_id stamp w = elim (find_by_id w.store user_id) [
    | err e ↦ none
    | ok u ↦ if u.security_stamp == stamp then some u else none
  ]

  unfoldable pub refresh_sign_in : Text → Text → World → (SignInResult × Option User) × World
  refresh_sign_in user_id stamp w = elim (validate_security_stamp user_id stamp w) [
    | none ↦ unknown w
    | some u ↦
        let (locked, w1) = is_locked_out env u w in
        if locked
        then known ((locked_out, u), w1)
        else if not (can_sign_in o.sign_in u)
        then known ((not_allowed, u), w1)
        else known ((succeeded, u), w1)
  ]
